-- ===== src/Dashboard/Rows.antt =====
-- apps/web/src/lib/api.ts, in `loadDashboard`: the requests for the page's candidate, evaluation or
-- registry agent, and where the answer goes among the raw records. `get` is `getJson(path, false)`.
use agent_promotion_control.Prelude.{
  String, none, some, Option, List, [], keep, get_or, ◌==◌, if◌then◌else◌,
}
use agent_promotion_control.Js.{Value, Fields, end, ◌!◌, ◌⁇◌, Runtime, ◌^^◌, encode_uri_component}
use agent_promotion_control.Fetch.{Outcome, returns, ◌>>=◌}
use agent_promotion_control.Api.{to_record, records, string}
use agent_promotion_control.Dashboard.Reads.{has_key, find_by, in_front, if_fields}
use agent_promotion_control.Dashboard.Details.{
  first_of, enrich_gates, with_results, enrich_run, with_versions,
}

module _ {N : Type 0} (js : Runtime N) where
  -- The candidate's results, from its latest run if the collection has one.
  unfoldable pub latest_results :
      (String → Outcome (Value N))
      → List (Fields N)
      → Fields N
      → Option (Fields N)
      → Outcome (Fields N)
  latest_results get criteria detail none = returns detail
  latest_results get criteria detail (some run) = do
    body ← get ("/api/v1/evaluations/" ^^ encode_uri_component (string (run ! "id") ""))
    returns (with_results criteria detail (to_record body) run)

  -- The raw candidates, with the detail in front.
  unfoldable pub place_candidate :
      (String → Outcome (Value N))
      → List (Fields N)
      → List (Fields N)
      → List (Fields N)
      → String
      → Fields N
      → Outcome (List (Fields N))
  unfolding latest_results
  place_candidate get criteria runs rows wanted detail = do
    let id = string (detail ! "id") wanted
    let latest_run = first_of (keep (has_key "candidate_id" id) runs)
    detailed ← latest_results get criteria (enrich_gates js criteria detail) latest_run
    returns (in_front detailed id rows)

  unfoldable pub detail_candidates :
      (String → Outcome (Value N))
      → List (Fields N)
      → List (Fields N)
      → List (Fields N)
      → String
      → Outcome (List (Fields N))
  unfolding place_candidate
  detail_candidates get criteria runs rows wanted = do
    body ← get ("/api/v1/candidates/" ^^ encode_uri_component wanted)
    if_fields (to_record body) (place_candidate get criteria runs rows wanted) (returns rows)

module _ {N : Type 0} where
  -- The gates of the run's candidate, if it names one.
  unfoldable pub candidate_gates : (String → Outcome (Value N)) → String → Outcome (List (Fields N))
  candidate_gates get id = if id == "" then returns [] else do
    body ← get ("/api/v1/candidates/" ^^ encode_uri_component id)
    returns (records (to_record body ! "gates"))

  -- The raw evaluations, with the detail in front.
  unfoldable pub place_run :
      (String → Outcome (Value N))
      → List (Fields N)
      → List (Fields N)
      → String
      → Fields N
      → Outcome (List (Fields N))
  unfolding candidate_gates
  place_run get criteria rows wanted detail = do
    let collection_run = get_or (find_by "id" wanted rows) end
    gates ←
        candidate_gates get (string (detail ! "candidate_id" ⁇ collection_run ! "candidate_id") "")
    returns (in_front (enrich_run criteria gates detail collection_run) wanted rows)

  unfoldable pub detail_runs :
      (String → Outcome (Value N))
      → List (Fields N)
      → List (Fields N)
      → String
      → Outcome (List (Fields N))
  unfolding place_run
  detail_runs get criteria rows wanted = do
    body ← get ("/api/v1/evaluations/" ^^ encode_uri_component wanted)
    if_fields (to_record body) (place_run get criteria rows wanted) (returns rows)

  -- The raw registry versions, with those of the page's agent in front.
  unfoldable pub detail_agents :
      (String → Outcome (Value N)) → List (Fields N) → String → Outcome (List (Fields N))
  detail_agents get rows wanted = do
    body ← get ("/api/v1/registry/agents/" ^^ encode_uri_component wanted)
    if_fields (to_record body) (λ agent. returns (with_versions agent rows)) (returns rows)
