-- ===== src/Mutation/Agreement.antt =====
-- apps/web/src/app/[[...route]]/actions.ts against packages/promotion-ui/src/http-data-source.ts: the
-- two ways to send a mutation, and what a reported success means.
use agent_promotion_control.Prelude.{
  String, ◌≡◌, ◌↔◌, refl, sym, ap, ◌∙◌, inl, inr, true, some, arith, get_or, Option-cases,
  Bool-cases, ◌==◌, eq_iff, if◌then◌else◌,
}
use agent_promotion_control.Js.{
  Value, null, num, str, Fields, end, field, assign, ◌!◌, Runtime, ◌^^◌,
}
use agent_promotion_control.View.{
  PromotionMutation, MutationResource, promotion, promotion_retry, evaluate, schedule, demo_cycle,
}
use agent_promotion_control.Fetch.{returns, >>=-eq-returns, returns-injective, Request, Response}
use agent_promotion_control.Mutation.Action.{
  mutation_headers, action_path, actor_of, action_request, action_result, run_promotion_mutation,
}
use agent_promotion_control.Mutation.Source.{source_path, source_body, source_request}
use agent_promotion_control.Mutation.Laws.{is_candidate_mutation, action_request_lem}

pub path-eq :
    (resource : MutationResource) (id : String) → source_path resource id ≡ action_path resource id
unfolding source_path action_path
path-eq promotion id = refl
path-eq promotion_retry id = refl
path-eq evaluate id = refl
path-eq schedule id = refl
path-eq demo_cycle id = refl

module _ {N : Type 0} where
  -- A key of `{ ...fields, key: value }`.
  pub get-assign :
      (k j : String) (v : Value N) (fs : Fields N)
      → assign k v fs ! j ≡ (if k == j then v else fs ! j)
  get-assign k j v end = refl
  get-assign k j v (field i w fs) =
      ground (arith, eq_iff i k, eq_iff k j, eq_iff i j, get-assign k j v fs)

  source_body-actor : (m : PromotionMutation N) → source_body m ! "actor" ≡ str (actor_of m)
  unfolding source_body
  source_body-actor m = elim (Option-cases m.expected_candidate_revision) [
    | inl missing ↦ rw missing (rw get-assign refl)
    | inr (v, given) ↦ rw given (rw get-assign (rw get-assign refl))
  ]

  source_body-revision :
      (m : PromotionMutation N) {v : N}
      → m.expected_candidate_revision ≡ some v
      → source_body m ! "expected_candidate_revision" ≡ num v
  unfolding source_body
  source_body-revision m given = rw given (rw get-assign refl)

  -- Two requests, each to a base URL of its own, that say the same of the mutation.
  pub record IsSame (base base' : String) (m : PromotionMutation N) (r s : Request N) : Type 0 where
    pub path : String
    pub url : r.url ≡ base ^^ path
    pub url' : s.url ≡ base' ^^ path
    pub method : r.method ≡ s.method
    pub headers : r.headers ≡ s.headers
    pub body : Fields N
    pub body' : Fields N
    pub has_body : r.body ≡ some body
    pub has_body' : s.body ≡ some body'
    pub actor : body ! "actor" ≡ body' ! "actor"
    pub revision :
        is_candidate_mutation m.resource ≡ true
        → body ! "expected_candidate_revision" ≡ body' ! "expected_candidate_revision"

  -- Whatever the server action sends under its base URL, the data source sends under its own, to the
  -- same path with the same method and headers, the same actor and, for a candidate's mutation, the
  -- same expected revision.
  pub source_request-IsSame :
      (source_base action_base : String) (m : PromotionMutation N) (r : Request N)
      → action_request action_base m ≡ returns r
      → IsSame source_base action_base m (source_request source_base m) r
  unfolding source_request mutation_headers
  source_request-IsSame source_base action_base m r e =
      let g = (action_request_lem action_base m).1 r e in
      record {
        path = action_path m.resource m.id;
        url = ap (◌^^◌ source_base) (path-eq m.resource m.id);
        url' = g.url;
        method = sym g.method;
        headers = sym g.headers;
        body = source_body m;
        body' = g.sent;
        has_body = refl;
        has_body' = g.body;
        actor = source_body-actor m ∙ sym g.actor;
        revision =
            λ h. let (v, given, sent) = g.revision h in source_body-revision m given ∙ sym sent;
      }

module _ {N : Type 0} (js : Runtime N) where
  action_result_iff :
      (response : Response N) (v : Value N)
      → (action_result js response ≡ returns v)
        ↔ ((response.ok ≡ true) × (get_or response.json null ≡ v))
  unfolding action_result
  action_result_iff response v = elim (Bool-cases response.ok) [
    | inl good ↦ rw good ((λ h. (refl, returns-injective h)), (λ h. ap returns h.1))
    | inr bad ↦ rw bad ((λ h. cc), (λ h. cc (h.0)))
  ]

  -- The action reports a success with a value exactly if it sent the mutation's request and the
  -- response was a success with that value (`null` if the response is not JSON).
  pub run_promotion_mutation_iff :
      (fetch : Request N → Response N) (base : String) (m : PromotionMutation N) (v : Value N)
      → (run_promotion_mutation js fetch base m ≡ returns v) ↔ (
          (r : Request N) × (action_request base m ≡ returns r)
          × ((fetch r).ok ≡ true)
          × (get_or (fetch r).json null ≡ v))
  unfolding run_promotion_mutation
  run_promotion_mutation_iff fetch base m v = (
    λ h.
        let (r, sent, done) = >>=-eq-returns (action_request base m) _ h in
        let (good, value) = (action_result_iff (fetch r) v).0 done in (r, sent, good, value),
    λ h. rw (h.1) ((action_result_iff (fetch h.0) v).1 (h.2, h.3)),
  )
