-- ===== src/Dashboard/Totality.antt =====
-- apps/web/src/lib/api.ts: `loadDashboard` gives a dashboard whenever it is answered.
use agent_promotion_control.Prelude.{
  ℕ, String, ◌≡◌, ◌⊎◌, refl, inl, inr, true, false, none, some, Option, List, all, keep, Bool-cases,
  ◌==◌,
}
use agent_promotion_control.Js.{
  Value, obj, arr, nil, Fields, end, field, Runtime, ◌^^◌, ◌!◌, encode_uri_component,
}
use agent_promotion_control.View.{DashboardViewModel}
use agent_promotion_control.Fetch.{Outcome, returns, throws, Request, Response}
use agent_promotion_control.Api.{to_record, records, items, evidence_prints, string}
use agent_promotion_control.Dashboard.{
  json_body, get_json, if_fields, latest_results, place_candidate, detail_candidates, in_front,
  candidate_gates, place_run, detail_runs, detail_agents, unless_absent, load_collections, first_of,
  has_key, try_dashboard, or_fixture, load_dashboard, Page,
}
use agent_promotion_control.Dashboard.Laws.{answer}
use agent_promotion_control.Dashboard.Printable.{
  Returns, bind-Returns, Gives, bind-Gives, from-Gives, after-Gives, unless_absent-Gives, AllPrint,
  Prints, if_fields-Gives, enrich_gates-Prints, with_results-Prints, in_front-AllPrint,
}

if_fields-Returns :
    {N A : Type 0} (fs : Fields N) (present : Fields N → Outcome A) (absent : Outcome A)
    → ((gs : Fields N) → Returns (present gs))
    → Returns absent
    → Returns (if_fields fs present absent)
if_fields-Returns end present absent h k = k
if_fields-Returns (field key value rest) present absent h k = h (field key value rest)

unless_absent-Returns :
    {A : Type 0} (id : Option String) (skipped : Outcome A) (load : String → Outcome A)
    → Returns skipped
    → ((s : String) → Returns (load s))
    → Returns (unless_absent id skipped load)
unless_absent-Returns none skipped load h k = h
unless_absent-Returns (some id) skipped load h k = elim (Bool-cases (id == "")) [
  | inl empty ↦ rw empty h
  | inr given ↦ rw given (k id)
]

module _ {N : Type 0} where
  -- A success whose body is JSON.
  abbrev pub IsServed : Response N → Type 0
  IsServed response = (response.ok ≡ true) × ((v : Value N) × (response.json ≡ some v))

  -- The control plane answers: what every load needs with a success, anything else with a success or
  -- a 404; and the evidence of the candidates has no detail that cannot be converted to a text.
  pub record IsUp (fetch : Request N → Response N) (base : String) : Type 0 where
    pub dashboard : IsServed (answer fetch base "/api/v1/dashboard")
    pub candidates : IsServed (answer fetch base "/api/v1/candidates")
    pub schedules : IsServed (answer fetch base "/api/v1/schedules")
    pub events : IsServed (answer fetch base "/api/v1/events?limit=80")
    pub others :
        (path : String)
        → IsServed (answer fetch base path)
          ⊎ (((answer fetch base path).ok ≡ false) × ((answer fetch base path).status ≡ 404))
    pub rows_print :
        (v : Value N)
        → (answer fetch base "/api/v1/candidates").json ≡ some v
        → all evidence_prints (items v) ≡ true
    pub detail_prints :
        (id : String) (v : Value N)
        → (answer fetch base ("/api/v1/candidates/" ^^ encode_uri_component id)).json ≡ some v
        → evidence_prints (to_record v) ≡ true

module _ {N : Type 0} (js : Runtime N) where
  required-Returns :
      (fetch : Request N → Response N) (base path : String)
      → IsServed (answer fetch base path)
      → Returns (get_json js fetch base path true)
  unfolding get_json json_body
  required-Returns fetch base path (good, (v, body)) = (v, rw (good, body) refl)

  optional-Returns :
      (fetch : Request N → Response N) (base : String) (up : IsUp fetch base) (path : String)
      → Returns (get_json js fetch base path false)
  unfolding get_json json_body
  optional-Returns fetch base up path = elim (up.others path) [
    | inl (good, (v, body)) ↦ (v, rw (good, body) refl)
    | inr (bad, missing) ↦ (obj (field "items" (arr nil) end), rw (bad, missing) refl)
  ]

  rows-Gives :
      (fetch : Request N → Response N) (base : String) (up : IsUp fetch base)
      → Gives (λ v. AllPrint (items v)) (get_json js fetch base "/api/v1/candidates" true)
  unfolding get_json json_body
  rows-Gives fetch base up =
      let (good, (v, body)) = up.candidates in (v, rw (good, body) refl, up.rows_print v body)

  detail-Gives :
      (fetch : Request N → Response N) (base : String) (up : IsUp fetch base) (id : String)
      → Gives
          (λ v. Prints (to_record v))
          (get_json js fetch base ("/api/v1/candidates/" ^^ encode_uri_component id) false)
  unfolding get_json json_body evidence_prints to_record records
  detail-Gives fetch base up id =
      elim (up.others ("/api/v1/candidates/" ^^ encode_uri_component id)) [
        | inl (good, (v, body)) ↦ (v, rw (good, body) refl, up.detail_prints id v body)
        | inr (bad, missing) ↦ (obj (field "items" (arr nil) end), rw (bad, missing) refl, refl)
      ]

  load_collections-Gives :
      (fetch : Request N → Response N) (base : String)
      → IsUp fetch base
      → Gives (λ body. AllPrint (items body.candidates)) (load_collections js fetch base)
  unfolding load_collections
  load_collections-Gives fetch base up =
      let required = required-Returns fetch base in
      let optional = optional-Returns fetch base up in
      after-Gives _ _ _ (required "/api/v1/dashboard" up.dashboard) λ _.
        bind-Gives _ _ _ _ (rows-Gives fetch base up) λ _ printed.
          after-Gives _ _ _ (required "/api/v1/schedules" up.schedules) λ _.
            after-Gives _ _ _ (required "/api/v1/events?limit=80" up.events) λ _.
              after-Gives _ _ _ (optional "/api/v1/registry/agents") λ _.
                after-Gives _ _ _ (optional "/api/v1/evaluations") λ _.
                  after-Gives _ _ _ (optional "/api/v1/policies")
                    λ _. after-Gives _ _ _ (optional "/api/v1/criteria") λ _. (_, refl, printed)

  module _ (get : String → Outcome (Value N))
      (answered : (path : String) → Returns (get path)) where
    detail_candidates-Gives :
        (read : (id : String)
          → Gives
              (λ v. Prints (to_record v))
              (get ("/api/v1/candidates/" ^^ encode_uri_component id)))
        (criteria runs rows : List (Fields N)) (wanted : String)
        → AllPrint rows
        → Gives AllPrint (detail_candidates js get criteria runs rows wanted)
    unfolding detail_candidates place_candidate latest_results
    detail_candidates-Gives read criteria runs rows wanted h =
        bind-Gives _ _ _ _ (read wanted) λ body printed.
          if_fields-Gives AllPrint (to_record body) _ _ printed
            (λ detail p.
              bind-Gives Prints AllPrint _
                (λ x. returns (in_front x (string (detail ! "id") wanted) rows))
                (results _ (enrich_gates-Prints js criteria detail p)
                  (first_of (keep (has_key "candidate_id" (string (detail ! "id") wanted)) runs)))
                λ detailed q.
                  (_, refl, in_front-AllPrint detailed (string (detail ! "id") wanted) rows q h))
            (rows, refl, h)
      where
        results :
            (detail : Fields N)
            → Prints detail
            → (run : Option (Fields N)) → Gives Prints (latest_results js get criteria detail run)
        results detail p none = (detail, refl, p)
        results detail p (some run) =
            after-Gives _ _ _ (answered _)
              λ body. (_, refl, with_results-Prints criteria detail (to_record body) run p)

    detail_runs-Returns :
        (criteria rows : List (Fields N)) (wanted : String)
        → Returns (detail_runs get criteria rows wanted)
    unfolding detail_runs place_run candidate_gates
    detail_runs-Returns criteria rows wanted = bind-Returns _ _ (answered _) λ body.
        if_fields-Returns (to_record body) _ _ (λ detail. bind-Returns _ _ (gates _) λ _. (_, refl))
          (rows, refl)
      where
        gates : (id : String) → Returns (candidate_gates get id)
        gates id = elim (Bool-cases (id == "")) [
          | inl empty ↦ rw empty (_, refl)
          | inr given ↦ rw given (bind-Returns _ _ (answered _) λ _. (_, refl))
        ]

    detail_agents-Returns :
        (rows : List (Fields N)) (wanted : String) → Returns (detail_agents get rows wanted)
    unfolding detail_agents
    detail_agents-Returns rows wanted =
        bind-Returns _ _ (answered _)
          λ body. if_fields-Returns (to_record body) _ _ (λ agent. (_, refl)) (rows, refl)

  try_dashboard-Returns :
      (fetch : Request N → Response N) (base now : String) (uuids : ℕ → ℕ → String) (page : Page)
      → IsUp fetch base
      → Returns (try_dashboard js fetch base now uuids page)
  unfolding try_dashboard
  try_dashboard-Returns fetch base now uuids page up =
      let get = λ (path : String). get_json js fetch base path false in
      let answered = optional-Returns fetch base up in
      from-Gives _ _ _ (load_collections-Gives fetch base up) λ body rows.
        from-Gives AllPrint _ _
          (unless_absent-Gives AllPrint page.candidate_id _ _ (_, refl, rows)
            (λ id. detail_candidates-Gives get answered (detail-Gives fetch base up) _ _ _ id rows))
          λ raw_candidates printed. rw printed (
            bind-Returns _ _
              (unless_absent-Returns page.evaluation_id _ _ (_, refl)
                (detail_runs-Returns get answered _ _))
              λ _.
                bind-Returns _ _
                  (unless_absent-Returns page.registry_agent_id _ _ (_, refl)
                    (detail_agents-Returns get answered _))
                  λ _. (_, refl))

  or_fixture-Returns :
      (fixture : Option (DashboardViewModel N)) (o : Outcome (DashboardViewModel N))
      → Returns o
      → Returns (or_fixture js fixture o)
  unfolding or_fixture
  or_fixture-Returns fixture (returns d) h = (d, refl)
  or_fixture-Returns fixture (throws message) (d, h) = cc h

  -- Where the control plane answers the dashboard, candidates, schedules and events with a success
  -- whose body is JSON, and every other path so or with a 404, and no candidate of the collection or of
  -- a detail has evidence with a detail that cannot be converted to a text, a dashboard is loaded for
  -- every page, with or without the fixture.
  pub load_dashboard-Returns :
      (fixture : Option (DashboardViewModel N)) (fetch : Request N → Response N) (base now : String)
      (uuids : ℕ → ℕ → String) (page : Page)
      → IsUp fetch base
      → Returns (load_dashboard js fixture fetch base now uuids page)
  unfolding load_dashboard
  load_dashboard-Returns fixture fetch base now uuids page up =
      or_fixture-Returns fixture _ (try_dashboard-Returns fetch base now uuids page up)
