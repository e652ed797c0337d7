-- ===== src/Web/Visits.antt =====
-- apps/web/src/app/[[...route]]/page.tsx with packages/promotion-ui/src/routes.ts: a page loads the
-- details of the record that the shell shows at its path.
use agent_promotion_control.Prelude.{
  ◌≡◌, refl, ap, ◌∙◌, sym, String, Option, none, some, List, [], ◌∷◌, All, arith, eq_iff, ◌==◌,
  Bool-cases, inl, inr, true, false,
}
use agent_promotion_control.Js.{split, non_empty}
use agent_promotion_control.Dashboard.{Page}
use agent_promotion_control.Routes.{
  PromotionRoute, PromotionRouteName, candidate, evaluation, registry_agent, drop_prefix, route_of,
  parse_promotion_route,
}
use agent_promotion_control.Routes.Parts.{IsPart, parse_parts}
use agent_promotion_control.Web.Pages.{path_from_route, item_of, page_of}

-- The record whose details a route shows.
abbrev pub details_of : PromotionRouteName → Option String → Page
details_of candidate id = record {
  candidate_id = id;
  evaluation_id = none;
  registry_agent_id = none;
}
details_of evaluation id = record {
  candidate_id = none;
  evaluation_id = id;
  registry_agent_id = none;
}
details_of registry_agent id = record {
  candidate_id = none;
  evaluation_id = none;
  registry_agent_id = id;
}
details_of name id = record { candidate_id = none; evaluation_id = none; registry_agent_id = none }

abbrev pub shown_details : PromotionRoute → Page
shown_details route = details_of route.name route.id

other : (a b c : String) → (b == c) ≡ false → (a == b) ≡ true → (a == c) ≡ false
other a b c ne h = ap (λ s. s == c) ((eq_iff a b).0 h) ∙ ne

page_of-route_of : (parts : List String) → page_of (some parts) ≡ shown_details (route_of parts)
unfolding page_of item_of route_of
page_of-route_of [] = refl
page_of-route_of (a ∷ []) = ground arith
page_of-route_of (a ∷ b ∷ rest) = elim (Bool-cases (a == "candidates")) [
  | inl c ↦
      rw (c, other a "candidates" "evaluations" refl c, other a "candidates" "registry" refl c) refl
  | inr not_c ↦ elim (Bool-cases (a == "evaluations")) [
    | inl e ↦ rw (not_c, e, other a "evaluations" "registry" refl e) refl
    | inr not_e ↦ elim (Bool-cases (a == "registry")) [
      | inl r ↦
          rw
            (
              not_c,
              not_e,
              r,
              other a "registry" "contract" refl r,
              other a "registry" "automation" refl r,
            )
            refl
      | inr not_r ↦ rw (not_c, not_e, not_r) (ground arith)
    ]
  ]
]

root_path : route_of [] ≡ parse_promotion_route "/"
unfolding parse_promotion_route non_empty split
root_path = refl

-- For a path of parts that are not empty and have no slash and no question mark, and that does not
-- stand behind the prefix of the embedding application, the page asks for the details of exactly the
-- candidate, evaluation or registry agent whose view the shell shows at that path, and for no
-- details where the shell shows another view.
pub page_of-shown_details :
    (parts : List String)
    → All IsPart parts
    → drop_prefix parts ≡ parts
    → page_of (some parts) ≡ shown_details (parse_promotion_route (path_from_route (some parts)))
unfolding path_from_route
page_of-shown_details [] ps kept = page_of-route_of [] ∙ ap shown_details root_path
page_of-shown_details (a ∷ rest) (p, ps) kept =
    page_of-route_of (a ∷ rest)
    ∙ ap shown_details (ap route_of (sym kept) ∙ sym (parse_parts a rest p ps))
