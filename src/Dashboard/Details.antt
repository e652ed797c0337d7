-- ===== src/Dashboard/Details.antt =====
-- apps/web/src/lib/api.ts: the bodies that `loadDashboard` reads for the page's candidate,
-- evaluation or registry agent, joined with the criteria, gates and collections.
use agent_promotion_control.Prelude.{
  String, Bool, ◌||◌, not, none, some, Option, List, [], ◌∷◌, ◌++◌, map, length, keep, any, ◌==◌,
  if◌then◌else◌,
}
use agent_promotion_control.Js.{
  Value, num, str, bool, obj, arr, Fields, end, field, ◌!◌, ◌⁇◌, Runtime, items_of, spread,
  array_or_empty, is_false,
}
use agent_promotion_control.Api.{to_record, records, string}
use agent_promotion_control.Dashboard.Reads.{has_key, find_by, read_from, value_of}

abbrev pub array_of : {N : Type 0} → List (Fields N) → Value N
array_of rows = arr (items_of (map obj rows))

abbrev kind_if : {N : Type 0} → Bool → Value N
kind_if weighted = if weighted then str "WEIGHTED" else str "HARD_GATE"

-- `list[0]`.
abbrev pub first_of : {N : Type 0} → List (Fields N) → Option (Fields N)
first_of [] = none
first_of (row ∷ rows) = some row

-- `detailCandidateId` and its like: an empty id counts as none.
abbrev pub unless_absent : {A : Type 0} → Option String → A → (String → A) → A
unless_absent none skipped load = skipped
unless_absent (some id) skipped load = if id == "" then skipped else load id

module _ {N : Type 0} (js : Runtime N) where
  unfoldable pub enrich_gate : List (Fields N) → Fields N → Fields N
  enrich_gate criteria gate =
      let criterion = find_by "id" (string (gate ! "criterion_id") "") criteria in
      spread gate (
        field "criterion" (value_of criterion) (
          field "required_evidence_count"
            (num (js.of_nat (length (array_or_empty (read_from criterion "required_evidence")))))
            (field "meaning" (read_from criterion "description") end)))

  unfoldable pub enrich_gates : List (Fields N) → Fields N → Fields N
  unfolding enrich_gate
  enrich_gates criteria detail =
      spread detail
        (field "gates" (array_of (map (enrich_gate criteria) (records (detail ! "gates")))) end)

module _ {N : Type 0} where
  -- A result of the candidate's latest run.
  unfoldable pub enrich_result :
      List (Fields N) → Fields N → Fields N → Fields N → Fields N → Fields N
  enrich_result criteria gate_verdicts run_detail latest_run result =
      let criterion = find_by "id" (string (result ! "criterion_id") "") criteria in
      spread result (
        field "criterion" (value_of criterion) (
          field "name" (str (string (read_from criterion "name") "")) (
            field "kind" (kind_if (is_false (read_from criterion "hard_gate"))) (
              field "verdict" (gate_verdicts ! string (read_from criterion "key") "") (
                field "evaluator"
                  (result ! "evaluator"
                    ⁇ run_detail ! "evaluator"
                    ⁇ latest_run ! "evaluator"
                    ⁇ latest_run ! "provider")
                  (field "last_run_at" (run_detail ! "completed_at" ⁇ latest_run ! "completed_at")
                    end))))))

  unfoldable pub with_results : List (Fields N) → Fields N → Fields N → Fields N → Fields N
  unfolding enrich_result
  with_results criteria detail run_detail latest_run =
      let gate_verdicts = to_record (to_record (detail ! "readiness") ! "gate_verdicts") in
      spread detail (
        field "results"
          (array_of (
            map (enrich_result criteria gate_verdicts run_detail latest_run)
              (records (run_detail ! "results"))))
          end)

  -- A result of the run that the page shows.
  unfoldable pub enrich_run_result :
      List (Fields N) → List (Fields N) → Fields N → Fields N → Fields N → Fields N
  enrich_run_result criteria gates detail collection_run result =
      let criterion_id = string (result ! "criterion_id") "" in
      let criterion = find_by "id" criterion_id criteria in
      let gate = find_by "criterion_id" criterion_id gates in
      let either = λ (key : String). read_from gate key ⁇ read_from criterion key in
      spread result (
        field "criterion" (value_of criterion) (
          field "name" (str (string (either "name") "")) (
            field "category" (either "category") (
              field "kind"
                (kind_if (
                  is_false (read_from gate "hard_gate")
                  || is_false (read_from criterion "hard_gate")))
                (field "verdict" (read_from gate "verdict") (
                  field "comparison_operator" (either "comparison_operator") (
                    field "threshold" (either "threshold") (
                      field "weight" (either "weight") (
                        field "minimum_samples" (either "minimum_samples") (
                          field "evaluator" (read_from gate "evaluator" ⁇ result ! "provider") (
                            field "evaluator_version" (read_from gate "evaluator_version") (
                              field "last_run_at"
                                (read_from gate "last_result_at"
                                  ⁇ detail ! "completed_at"
                                  ⁇ collection_run ! "completed_at")
                                end))))))))))))

  unfoldable pub enrich_run : List (Fields N) → List (Fields N) → Fields N → Fields N → Fields N
  unfolding enrich_run_result
  enrich_run criteria gates detail collection_run = spread (spread collection_run detail) (
      field "results"
        (array_of (
          map (enrich_run_result criteria gates detail collection_run)
            (records (detail ! "results"))))
        end)

  -- A version of the agent that the page shows.
  unfoldable pub detail_version : Fields N → Fields N → Fields N
  detail_version agent version = spread version (
      field "agent_id" (agent ! "id") (
        field "display_name" (agent ! "display_name") (
          field "registry_key" (agent ! "registry_key") (
            field "stage" (agent ! "stage") (
              field "status" (agent ! "status") (
                field "monitoring_state" (agent ! "monitoring_state") (
                  field "health" (agent ! "health") (
                    field "monitoring_run_count" (agent ! "monitoring_run_count") (
                      field "recent_monitoring_events" (agent ! "recent_monitoring_events") (
                        field "active" (agent ! "active") (
                          field "is_active_version"
                            (bool (
                              string (version ! "id") ""
                              == string (agent ! "active_version_id") ""))
                            end)))))))))))

  -- The agent's versions in front of the others.
  unfoldable pub with_versions : Fields N → List (Fields N) → List (Fields N)
  unfolding detail_version
  with_versions agent rows =
      let versions = map (detail_version agent) (records (agent ! "versions")) in
      versions ++ keep (λ row. not (any (has_key "id" (string (row ! "id") "")) versions)) rows
