-- ===== src/Dashboard/Load.antt =====
-- apps/web/src/lib/api.ts: `loadDashboard`. Its requests stand in the order of the source; of those
-- that `Promise.all` sends together, the first that fails gives the error. `now` is the current time,
-- `uuids` the values of `crypto.randomUUID()`.
use agent_promotion_control.Prelude.{
  ℕ, ◌+◌, String, Bool, true, false, none, some, Option, List, [], map, map_index, length, list_or,
  all,
}
use agent_promotion_control.Js.{Value, obj, Fields, ◌!◌, Runtime, sort, cannot_convert}
use agent_promotion_control.View.{DashboardViewModel}
use agent_promotion_control.Fetch.{
  Outcome, returns, throws, ◌>>=◌, ◌>>◌, require, Request, Response,
}
use agent_promotion_control.Live.{behind}
use agent_promotion_control.Api.{
  to_record, records, items, string, boolean, map_event, map_evaluation, map_schedule, map_registry,
  evidence_prints,
}
use agent_promotion_control.Dashboard.Reads.{get_json}
use agent_promotion_control.Dashboard.Details.{unless_absent}
use agent_promotion_control.Dashboard.Assign.{load_policy, load_candidate, names_onto}
use agent_promotion_control.Dashboard.Rows.{detail_candidates, detail_runs, detail_agents}

-- The bodies of the eight collections.
pub record Collections (N : Type 0) : Type 0 where
  pub dashboard : Value N
  pub candidates : Value N
  pub schedules : Value N
  pub events : Value N
  pub registry : Value N
  pub evaluations : Value N
  pub policies : Value N
  pub criteria : Value N

-- The page's parameters.
pub record Page : Type 0 where
  pub candidate_id : Option String
  pub evaluation_id : Option String
  pub registry_agent_id : Option String

module _ {N : Type 0} (js : Runtime N) where
  unfoldable pub load_collections : (Request N → Response N) → String → Outcome (Collections N)
  load_collections fetch base = do
    let read = λ (path : String) (required : Bool). get_json js fetch base path required
    dashboard ← read "/api/v1/dashboard" true
    candidates ← read "/api/v1/candidates" true
    schedules ← read "/api/v1/schedules" true
    events ← read "/api/v1/events?limit=80" true
    registry ← read "/api/v1/registry/agents" false
    evaluations ← read "/api/v1/evaluations" false
    policies ← read "/api/v1/policies" false
    criteria ← read "/api/v1/criteria" false
    returns (record {
      dashboard = dashboard;
      candidates = candidates;
      schedules = schedules;
      events = events;
      registry = registry;
      evaluations = evaluations;
      policies = policies;
      criteria = criteria;
    })

  -- The dashboard of the collections and the raw records.
  unfoldable pub assemble :
      String
      → (ℕ → ℕ → String)
      → Collections N
      → List (Fields N)
      → List (Fields N)
      → List (Fields N)
      → DashboardViewModel N
  unfolding names_onto load_policy load_candidate
  assemble now uuids body raw_candidates raw_evaluations raw_agents =
      let dashboard = to_record body.dashboard in
      let raw_events = list_or (items body.events) (records (dashboard ! "recent_events")) in
      let policies = map (load_policy js (items body.criteria)) (items body.policies) in
      let candidates =
        map_index (λ candidate i. load_candidate js (uuids i) policies raw_events candidate)
          raw_candidates in
      record {
        generated_at = string (dashboard ! "generated_at") now;
        candidates = candidates;
        evaluations =
            map_index
              (λ run i.
                map_evaluation js (uuids (i + length raw_candidates)) (names_onto [] candidates)
                  (obj run))
              raw_evaluations;
        policies = policies;
        schedules =
            map (λ schedule. map_schedule js (obj schedule))
              (list_or (items body.schedules) (records (dashboard ! "jobs")));
        registry_agents = map (λ agent. map_registry js (obj agent)) raw_agents;
        recent_events = sort (behind js) (map (λ event. map_event js (obj event)) raw_events);
        live_connected = true;
        demo_mode = boolean (dashboard ! "demo_mode") false;
      }

  -- The body of the `try`. The candidates are normalized before the evaluations are read.
  unfoldable pub try_dashboard :
      (Request N → Response N)
      → String
      → String
      → (ℕ → ℕ → String)
      → Page
      → Outcome (DashboardViewModel N)
  unfolding load_collections detail_candidates detail_runs detail_agents assemble
  try_dashboard fetch base now uuids page = do
    body ← load_collections fetch base
    let get = λ (path : String). get_json js fetch base path false
    let criteria = items body.criteria
    let runs = items body.evaluations
    let rows = items body.candidates
    raw_candidates ←
        unless_absent page.candidate_id (returns rows) (detail_candidates js get criteria runs rows)
    require (all evidence_prints raw_candidates) cannot_convert
    raw_evaluations ←
        unless_absent page.evaluation_id (returns runs) (detail_runs get criteria runs)
    let agents =
        list_or (items body.registry) (records (to_record body.dashboard ! "registry_versions"))
    raw_agents ← unless_absent page.registry_agent_id (returns agents) (detail_agents get agents)
    returns (assemble now uuids body raw_candidates raw_evaluations raw_agents)

  -- The `catch`: with `PROMOTION_UI_FIXTURE_FALLBACK`, the fixture stands in for any error.
  unfoldable pub or_fixture :
      Option (DashboardViewModel N)
      → Outcome (DashboardViewModel N)
      → Outcome (DashboardViewModel N)
  or_fixture fixture (returns dashboard) = returns dashboard
  or_fixture none (throws message) = throws message
  or_fixture (some fallback) (throws message) = returns fallback

  unfoldable pub load_dashboard :
      Option (DashboardViewModel N)
      → (Request N → Response N)
      → String
      → String
      → (ℕ → ℕ → String)
      → Page
      → Outcome (DashboardViewModel N)
  unfolding or_fixture try_dashboard
  load_dashboard fixture fetch base now uuids page =
      or_fixture fixture (try_dashboard fetch base now uuids page)
