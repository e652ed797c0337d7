-- ===== src/Finite/Loaded.antt =====
-- apps/web/src/lib/api.ts: the numbers of a dashboard that `loadDashboard` gives.
use mathlib.Core.Path.{subst}
use agent_promotion_control.Prelude.{
  ℕ, suc, ◌≡◌, String, false, none, some, Option, List, [], ◌∷◌, map_index_from, All, all, find,
  list_or,
}
use agent_promotion_control.Js.{cannot_convert, obj, Fields, ◌!◌, Runtime}
use agent_promotion_control.Js.Sorting.{All-sort}
use agent_promotion_control.View.{CandidateViewModel, PolicyViewModel, DashboardViewModel}
use agent_promotion_control.Fetch.{Outcome, returns, throws, ◌>>=◌, require, Request, Response}
use agent_promotion_control.Live.{behind}
use agent_promotion_control.Live.Window.{IsFinite}
use agent_promotion_control.Api.{evidence_prints, string, items, records, to_record}
use agent_promotion_control.Dashboard.{
  is_requested, policy_request, assign_policy, load_candidate, Collections, Page, load_collections,
  assemble, get_json, unless_absent, detail_candidates, detail_runs, detail_agents, try_dashboard,
  or_fixture, load_dashboard,
}
use agent_promotion_control.Dashboard.Timeline.{mapped-IsFinite, linked_to-IsFinite}
use agent_promotion_control.Finite.{KeepsFinite, IsFiniteCandidate, IsFiniteDashboard}
use agent_promotion_control.Finite.Decoded.{normalize_candidate-IsFinite}

-- What holds of a value that is given; nothing is said of an error.
abbrev pub Ensures : {A : Type 0} → (A → Type 0) → Outcome A → Type 0
Ensures P (throws message) = Unit
Ensures P (returns value) = P value

Ensures-bind :
    {A B : Type 0} (P : B → Type 0) (first : Outcome A) (continue : A → Outcome B)
    → ((a : A) → Ensures P (continue a))
    → Ensures P (first >>= continue)
Ensures-bind P (throws message) continue h = tt
Ensures-bind P (returns a) continue h = h a

module _ {N : Type 0} {js : Runtime N} where
  assign_policy-IsFinite :
      (candidate : Fields N) (policy : Option (PolicyViewModel N)) (mapped : CandidateViewModel N)
      → IsFiniteCandidate js mapped
      → IsFiniteCandidate js (assign_policy js candidate policy mapped)
  unfolding assign_policy
  assign_policy-IsFinite candidate none mapped h = h
  assign_policy-IsFinite candidate (some policy) mapped h = record {
    revision = h.revision;
    evaluation = h.evaluation;
    required_lifecycle_approvals = h.required_lifecycle_approvals;
    available_lifecycle_approvals = h.available_lifecycle_approvals;
    consumed_lifecycle_approvals = h.consumed_lifecycle_approvals;
    active_blocker_count = h.active_blocker_count;
    hard_gates_passed = h.hard_gates_passed;
    hard_gates_required = h.hard_gates_required;
    gates = h.gates;
    timeline = h.timeline;
  }

module _ {N : Type 0} {js : Runtime N} (laws : KeepsFinite N js) where
  load_candidate-IsFinite :
      (uuids : ℕ → String) (policies : List (PolicyViewModel N)) (raw_events : List (Fields N))
      (candidate : Fields N)
      → IsFiniteCandidate js (load_candidate js uuids policies raw_events candidate)
  unfolding load_candidate
  load_candidate-IsFinite uuids policies raw_events candidate =
      assign_policy-IsFinite candidate (find (is_requested (policy_request candidate)) policies) _ (
        normalize_candidate-IsFinite laws uuids (obj candidate) _
          (linked_to-IsFinite js (string (candidate ! "id") "") raw_events (laws.of_nat_finite 0)))

  load_candidates_IsFinite :
      (uuids : ℕ → ℕ → String) (policies : List (PolicyViewModel N)) (raw_events : List (Fields N))
      (i : ℕ) (rows : List (Fields N))
      → All (IsFiniteCandidate js) (
          map_index_from i
            (λ candidate j. load_candidate js (uuids j) policies raw_events candidate)
            rows)
  load_candidates_IsFinite uuids policies raw_events i [] = tt
  load_candidates_IsFinite uuids policies raw_events i (row ∷ rows) = (
    load_candidate-IsFinite (uuids i) policies raw_events row,
    load_candidates_IsFinite uuids policies raw_events (suc i) rows,
  )

  assemble-IsFinite :
      (now : String) (uuids : ℕ → ℕ → String) (body : Collections N)
      (raw_candidates raw_evaluations raw_agents : List (Fields N))
      → IsFiniteDashboard js (assemble js now uuids body raw_candidates raw_evaluations raw_agents)
  unfolding assemble
  assemble-IsFinite now uuids body raw_candidates raw_evaluations raw_agents = record {
    candidates = load_candidates_IsFinite uuids _ _ 0 raw_candidates;
    recent_events =
        All-sort (behind js) (IsFinite js) _ (mapped-IsFinite js _ (laws.of_nat_finite 0));
  }

  try_dashboard-IsFinite :
      (fetch : Request N → Response N) (base now : String) (uuids : ℕ → ℕ → String) (page : Page)
      → Ensures (IsFiniteDashboard js) (try_dashboard js fetch base now uuids page)
  unfolding try_dashboard
  try_dashboard-IsFinite fetch base now uuids page =
      Ensures-bind (IsFiniteDashboard js) (load_collections js fetch base) _ (λ body.
        let get = λ (path : String). get_json js fetch base path false in
        let criteria = items body.criteria in
        let runs = items body.evaluations in
        let rows = items body.candidates in
        let agents =
          list_or (items body.registry)
            (records (to_record body.dashboard ! "registry_versions")) in
        Ensures-bind (IsFiniteDashboard js)
          (unless_absent page.candidate_id (returns rows)
            (detail_candidates js get criteria runs rows))
          _
          (λ candidates.
            Ensures-bind (IsFiniteDashboard js)
              (require (all evidence_prints candidates) cannot_convert) _
              (λ printed.
                Ensures-bind (IsFiniteDashboard js)
                  (unless_absent page.evaluation_id (returns runs) (detail_runs get criteria runs))
                  _
                  (λ evaluations.
                    Ensures-bind (IsFiniteDashboard js)
                      (unless_absent page.registry_agent_id (returns agents)
                        (detail_agents get agents))
                      _
                      (λ versions.
                        assemble-IsFinite now uuids body candidates evaluations versions)))))

  -- The fixture that may stand in has finite numbers, if there is one.
  abbrev pub IsFiniteFixture : Option (DashboardViewModel N) → Type 0
  IsFiniteFixture none = Unit
  IsFiniteFixture (some d) = IsFiniteDashboard js d

  or_fixture-IsFinite :
      (fixture : Option (DashboardViewModel N)) (o : Outcome (DashboardViewModel N))
      → IsFiniteFixture fixture
      → Ensures (IsFiniteDashboard js) o
      → Ensures (IsFiniteDashboard js) (or_fixture js fixture o)
  unfolding or_fixture
  or_fixture-IsFinite fixture (returns d) f h = h
  or_fixture-IsFinite none (throws message) f h = tt
  or_fixture-IsFinite (some d) (throws message) f h = f

  -- Where numerals, and hundredths of finite numbers, are finite, every number of the candidates (the
  -- raw details of a blocker aside) and of the recent events of a dashboard that `loadDashboard` gives
  -- is finite, whatever the control plane answers, if the fixture that may stand in has such numbers.
  pub load_dashboard-IsFinite :
      (fixture : Option (DashboardViewModel N)) (fetch : Request N → Response N) (base now : String)
      (uuids : ℕ → ℕ → String) (page : Page) {d : DashboardViewModel N}
      → IsFiniteFixture fixture
      → load_dashboard js fixture fetch base now uuids page ≡ returns d
      → IsFiniteDashboard js d
  unfolding load_dashboard
  load_dashboard-IsFinite fixture fetch base now uuids page f h =
      subst (Ensures (IsFiniteDashboard js)) h
        (or_fixture-IsFinite fixture _ f (try_dashboard-IsFinite fetch base now uuids page))
