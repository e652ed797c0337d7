-- ===== src/Dashboard/Laws.antt =====
-- apps/web/src/lib/api.ts, about `loadDashboard`: what a dashboard that is loaded says of the
-- control plane's answers, and what becomes of a candidate that the control plane does not have.
use agent_promotion_control.Prelude.{
  ℕ, String, ◌≡◌, ◌⊎◌, refl, inl, inr, true, false, none, List, [], keep, arith, nat_eq, Bool-cases,
}
use agent_promotion_control.Js.{
  Value, obj, arr, nil, Fields, end, field, Runtime, ◌^^◌, encode_uri_component,
}
use agent_promotion_control.View.{DashboardViewModel}
use agent_promotion_control.Fetch.{Outcome, returns, throws, >>=-eq-returns, Request, Response}
use agent_promotion_control.Api.{normalize_candidate, to_record, string}
use agent_promotion_control.Dashboard.{
  or_fixture, get_request, json_body, get_json, has_key, in_front, enrich_gates, latest_results,
  place_candidate, detail_candidates, load_collections, try_dashboard, load_dashboard, Page,
  Collections,
}

module _ {N : Type 0} where
  abbrev pub answer : (Request N → Response N) → String → String → Response N
  answer fetch base path = fetch (get_request base path)

  -- A success, or the 404 of a resource that the control plane does not have.
  abbrev pub IsOptional : Response N → Type 0
  IsOptional response = (response.ok ≡ true) ⊎ (response.status ≡ 404)

  -- The answers that every load needs.
  pub record IsAvailable (fetch : Request N → Response N) (base : String) : Type 0 where
    pub dashboard : (answer fetch base "/api/v1/dashboard").ok ≡ true
    pub candidates : (answer fetch base "/api/v1/candidates").ok ≡ true
    pub schedules : (answer fetch base "/api/v1/schedules").ok ≡ true
    pub events : (answer fetch base "/api/v1/events?limit=80").ok ≡ true
    pub registry : IsOptional (answer fetch base "/api/v1/registry/agents")
    pub evaluations : IsOptional (answer fetch base "/api/v1/evaluations")
    pub policies : IsOptional (answer fetch base "/api/v1/policies")
    pub criteria : IsOptional (answer fetch base "/api/v1/criteria")

nat_eq-true : (m n : ℕ) → nat_eq m n ≡ true → m ≡ n
nat_eq-true m n h = ground arith

module _ {N : Type 0} (js : Runtime N) where
  json_body-ok :
      (path : String) (r : Response N) {v : Value N}
      → json_body js path true r ≡ returns v
      → r.ok ≡ true
  unfolding json_body
  json_body-ok path r h = elim (Bool-cases r.ok) [ inl good ↦ good | inr bad ↦ cc (rw bad at h) ]

  json_body-IsOptional :
      (path : String) (r : Response N) {v : Value N}
      → json_body js path false r ≡ returns v
      → IsOptional r
  unfolding json_body
  json_body-IsOptional path r h = elim (Bool-cases r.ok) [
    | inl good ↦ inl good
    | inr bad ↦ elim (Bool-cases (nat_eq r.status 404)) [
      | inl missing ↦ inr (nat_eq-true r.status 404 missing)
      | inr other ↦ cc (rw (bad, other) at h)
    ]
  ]

  load_collections-IsAvailable :
      (fetch : Request N → Response N) (base : String) (c : Collections N)
      → load_collections js fetch base ≡ returns c
      → IsAvailable fetch base
  unfolding load_collections get_json
  load_collections-IsAvailable fetch base c h =
      let (_, dashboard, h) =
        >>=-eq-returns (get_json js fetch base "/api/v1/dashboard" true) _ h in
      let (_, candidates, h) =
        >>=-eq-returns (get_json js fetch base "/api/v1/candidates" true) _ h in
      let (_, schedules, h) =
        >>=-eq-returns (get_json js fetch base "/api/v1/schedules" true) _ h in
      let (_, events, h) =
        >>=-eq-returns (get_json js fetch base "/api/v1/events?limit=80" true) _ h in
      let (_, registry, h) =
        >>=-eq-returns (get_json js fetch base "/api/v1/registry/agents" false) _ h in
      let (_, evaluations, h) =
        >>=-eq-returns (get_json js fetch base "/api/v1/evaluations" false) _ h in
      let (_, policies, h) = >>=-eq-returns (get_json js fetch base "/api/v1/policies" false) _ h in
      let (_, criteria, h) = >>=-eq-returns (get_json js fetch base "/api/v1/criteria" false) _ h in
      record {
        dashboard = json_body-ok _ _ dashboard;
        candidates = json_body-ok _ _ candidates;
        schedules = json_body-ok _ _ schedules;
        events = json_body-ok _ _ events;
        registry = json_body-IsOptional _ _ registry;
        evaluations = json_body-IsOptional _ _ evaluations;
        policies = json_body-IsOptional _ _ policies;
        criteria = json_body-IsOptional _ _ criteria;
      }

  or_fixture-none :
      (o : Outcome (DashboardViewModel N)) {d : DashboardViewModel N}
      → or_fixture js none o ≡ returns d
      → o ≡ returns d
  unfolding or_fixture
  or_fixture-none (returns d) h = h
  or_fixture-none (throws message) h = h

  -- Without the fixture, a dashboard is loaded only if the dashboard, candidates, schedules and
  -- events were all answered with a success, and the registry, evaluations, policies and criteria
  -- each with a success or a 404.
  pub load_dashboard-IsAvailable :
      (fetch : Request N → Response N) (base now : String) (uuids : ℕ → ℕ → String) (page : Page)
      → {d : DashboardViewModel N} → load_dashboard js none fetch base now uuids page ≡ returns d
      → IsAvailable fetch base
  unfolding load_dashboard try_dashboard
  load_dashboard-IsAvailable fetch base now uuids page h =
      let (c, read, _) = >>=-eq-returns (load_collections js fetch base) _ (or_fixture-none _ h) in
      load_collections-IsAvailable fetch base c read

  -- For a candidate that the control plane answers with a 404, and that the collection of
  -- evaluations does not name, the raw candidates get a row in front, which becomes a candidate with
  -- the id `candidate-unknown`.
  pub missing_candidate :
      (fetch : Request N → Response N) (base wanted : String) (criteria runs rows : List (Fields N))
      (uuids : ℕ → String)
      → (answer fetch base ("/api/v1/candidates/" ^^ encode_uri_component wanted)).ok ≡ false
      → (answer fetch base ("/api/v1/candidates/" ^^ encode_uri_component wanted)).status ≡ 404
      → keep (has_key "candidate_id" wanted) runs ≡ []
      → (row : Fields N) × (detail_candidates js
            (λ path. get_json js fetch base path false)
            criteria
            runs
            rows
            wanted
          ≡ returns (in_front row wanted rows))
        × ((normalize_candidate js uuids (obj row) []).id ≡ "candidate-unknown")
  unfolding detail_candidates place_candidate latest_results get_json json_body enrich_gates
      to_record string normalize_candidate ◌^^◌
  missing_candidate fetch base wanted criteria runs rows uuids bad missing none_named = (
    enrich_gates js criteria (field "items" (arr nil) end),
    rw (bad, missing) (rw none_named refl),
    refl,
  )
