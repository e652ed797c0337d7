-- ===== src/Shell/Links.antt =====
-- packages/promotion-ui/src/PromotionShell.tsx with routes.ts: what the shell shows for the paths that
-- the views link to, and which item of the navigation it marks.
use Prim.Native.Char.{code}
use Prim.Native.String.{[], ◌∷◌}
use agent_promotion_control.Prelude.{
  ◌≡◌, ◌≢◌, refl, String, Bool, true, ◌&&◌, ◌||◌, some, keep, find, length, arith, ◌==◌,
}
use agent_promotion_control.Js.{Runtime, is_unreserved, encode_uri_component}
use agent_promotion_control.View.{
  CandidateViewModel, EvaluationRunViewModel, RegistryAgentViewModel,
}
use agent_promotion_control.Routes.{
  PromotionRouteName, overview, candidates, candidate, evaluations, evaluation, contract,
  automation, registry, registry_agent, audit, candidate_route, evaluation_route,
  registry_agent_route, parse_promotion_route,
}
use agent_promotion_control.Routes.Laws.{parse_promotion_route-candidate_route}
use agent_promotion_control.Shell.{
  ShellState, candidate_view, evaluation_view, agent_view, shell_view, is_named_option,
  promotion_navigation, is_current, item_name,
}

-- No character needs to be encoded.
unfoldable pub is_plain : String → Bool
is_plain [] = true
is_plain (c ∷ s) = is_unreserved (code c) && is_plain s

encode_uri_component-plain : (s : String) → is_plain s ≡ true → encode_uri_component s ≡ s
unfolding encode_uri_component is_plain
encode_uri_component-plain [] h = refl
encode_uri_component-plain (c ∷ s) h =
    let (plain, rest) = both (is_unreserved (code c)) (is_plain s) h in
    rw (plain, encode_uri_component-plain s rest) refl
  where
    both : (a b : Bool) → (a && b) ≡ true → (a ≡ true) × (b ≡ true)
    both a b h = ground arith

module _ {N : Type 0} (js : Runtime N) where
  -- At the paths of a candidate, an evaluation and a registry agent whose id is not empty and has no
  -- character that is encoded, the shell shows the first candidate with that id or slug, the first
  -- run with that id, and the first version with that id or agent id, in their sections.
  pub shell_view-candidate_route :
      (id : String) (s : ShellState N)
      → id ≢ ""
      → is_plain id ≡ true
      → (shell_view js (some (candidate_route id)) s ≡ (
        candidates,
        candidate_view
            (find (λ (c : CandidateViewModel N). c.id == id || c.slug == id) s.shown.candidates),
      ))
        × (shell_view js (some (evaluation_route id)) s ≡ (
          evaluations,
          evaluation_view (find (λ (r : EvaluationRunViewModel N). r.id == id) s.shown.evaluations),
        ))
        × (shell_view js (some (registry_agent_route id)) s ≡ (
          registry,
          agent_view (
              find
                (λ (a : RegistryAgentViewModel N).
                  a.id == id || is_named_option (some id) a.agent_id)
                s.shown.registry_agents),
        ))
  unfolding shell_view
  shell_view-candidate_route id s ne plain =
      let (c, r, a) = parse_promotion_route-candidate_route id ne in
      let same = encode_uri_component-plain id plain in
      (rw (c, same) refl, rw (r, same) refl, rw (a, same) refl)

-- Whatever the path, the navigation marks exactly one of its items as the current one.
navigation-IsExact :
    (path : String)
    → length (keep (is_current (parse_promotion_route path).name) promotion_navigation) ≡ 1
unfolding promotion_navigation is_current item_name
navigation-IsExact path = one_current (parse_promotion_route path).name
  where
    one_current :
        (name : PromotionRouteName) → length (keep (is_current name) promotion_navigation) ≡ 1
    one_current overview = refl
    one_current candidates = refl
    one_current candidate = refl
    one_current evaluations = refl
    one_current evaluation = refl
    one_current contract = refl
    one_current automation = refl
    one_current registry = refl
    one_current registry_agent = refl
    one_current audit = refl
