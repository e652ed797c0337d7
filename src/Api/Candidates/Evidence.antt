-- ===== src/Api/Candidates/Evidence.antt =====
-- apps/web/src/lib/api.ts: the blockers, the evidence, the decision and the summaries that
-- `normalizeCandidate` reads off a candidate's body.
use agent_promotion_control.Prelude.{
  ℕ, String, Bool, Option, none, some, List, [], ◌∷◌, length, find, keep, ◌or_else◌, true, false,
  ◌&&◌, leb, ◌==◌, if◌then◌else◌,
}
use agent_promotion_control.Js.{
  Value, num, str, Fields, end, field, entries, ◌!◌, ◌⁇◌, is_nullish, Runtime, ◌^^◌, join,
  replace_all, text_or, text_of, prints,
}
use agent_promotion_control.View.{
  BlockerViewModel, DecisionViewModel, EvidenceViewModel, artifact, detector_signal, GateViewModel,
  EvaluationSummaryViewModel, hard_gate, weighted, passed,
}
use agent_promotion_control.Api.Decode.{
  to_record, records, string, number_or_zero, nullable_number, nullable_string, ratio,
}
use agent_promotion_control.Api.Events.{epoch}

abbrev first_of_list : {N : Type 0} → List (Fields N) → Option (Fields N)
first_of_list [] = none
first_of_list (x ∷ xs) = some x

abbrev record_or_empty : {N : Type 0} → Option (Fields N) → Fields N
record_or_empty none = end
record_or_empty (some fs) = fs

-- The first blocker that is active, or else the first.
unfoldable pub primary_blocker : {N : Type 0} → List (Fields N) → Fields N
primary_blocker blockers = record_or_empty (
    find (λ item. string (item ! "state") "ACTIVE" == "ACTIVE") blockers
    or_else first_of_list blockers)

unfoldable pub map_blocker : {N : Type 0} → Runtime N → String → Fields N → ℕ → BlockerViewModel N
map_blocker js id item index = record {
  id = string (item ! "id") (id ^^ "-blocker-" ^^ js.to_text (js.of_nat index));
  code = string (item ! "code") "PROMOTION_BLOCKED";
  category = string (item ! "category") "EVIDENCE";
  title = string (item ! "title" ⁇ item ! "summary") "A promotion condition remains unresolved";
  explanation =
      string (item ! "explanation" ⁇ item ! "message")
        "The active policy requirement is not satisfied.";
  recovery =
      string (item ! "recovery") "Review the requirement, then rerun the active evaluation plan.";
  details = to_record (item ! "details");
}

-- `lifecycleApprovalState`: the API's names, in the words of the views.
unfoldable pub approval_state : String → String
approval_state raw =
    if raw == "SATISFIED" then "APPROVED" else if raw == "LOCKED" then "CONSUMED" else raw

-- `Object.keys(decision).length === 0 ? null : …`.
unfoldable pub map_decision : {N : Type 0} → String → String → Fields N → Option DecisionViewModel
map_decision policy_hash snapshot_hash end = none
map_decision policy_hash snapshot_hash (field k v fs) =
    let decision = field k v fs in
    some (record {
      type = string (decision ! "decision_type" ⁇ decision ! "type") "LIFECYCLE";
      outcome = string (decision ! "outcome") "UNKNOWN";
      rationale = string (decision ! "rationale") "No decision rationale is available.";
      actor = string (decision ! "actor") "unknown actor";
      decided_at = string (decision ! "decided_at" ⁇ decision ! "created_at") epoch;
      policy_hash = string (decision ! "policy_hash") policy_hash;
      evaluation_snapshot_hash = string (decision ! "evaluation_snapshot_hash") snapshot_hash;
    })

abbrev pub is_hard : {N : Type 0} → GateViewModel N → Bool
is_hard gate = elim gate.kind [ hard_gate ↦ true | weighted ↦ false ]

abbrev pub is_passed : {N : Type 0} → GateViewModel N → Bool
is_passed gate = elim gate.verdict [ passed ↦ true | _ ↦ false ]

-- The passed and the required hard gates: the API's number, or else what the gates say, if there
-- is any hard gate.
unfoldable pub hard_gates_passed :
    {N : Type 0} → Runtime N → Value N → List (GateViewModel N) → Option N
hard_gates_passed js given gates =
    let hard = keep is_hard gates in
    if is_nullish given
    then if leb 1 (length hard) then some (js.of_nat (length (keep is_passed hard))) else none
    else some (number_or_zero js given)

unfoldable pub hard_gates_required :
    {N : Type 0} → Runtime N → Value N → List (GateViewModel N) → Option N
hard_gates_required js given gates =
    let hard = keep is_hard gates in
    if is_nullish given
    then if leb 1 (length hard) then some (js.of_nat (length hard)) else none
    else some (number_or_zero js given)

module _ {N : Type 0} where
  values_print : Fields N → Bool
  values_print end = true
  values_print (field key value fs) = prints value && values_print fs

  -- The details of each entry can be converted to texts. They are converted also where the summary does
  -- not need them.
  unfoldable pub details_print : List (Fields N) → Bool
  unfolding values_print
  details_print [] = true
  details_print (entry ∷ entries) =
      values_print (to_record (entry ! "evidence")) && details_print entries

  -- `normalizeCandidate` of this body does not throw.
  unfoldable pub evidence_prints : Fields N → Bool
  unfolding details_print
  evidence_prints source =
      details_print
        (records (source ! "evidence_artifacts" ⁇ source ! "artifacts" ⁇ source ! "evidence"))
      && details_print (records (source ! "detector_evidence"))

module _ {N : Type 0} (js : Runtime N) where
  -- The name that a criterion's code reads as.
  criterion_name : String → String
  criterion_name code = dashes_to_spaces (underscores_to_spaces (js.to_lower_case code))
    where
      underscores_to_spaces : String → String
      underscores_to_spaces = replace_all b'_' " "

      dashes_to_spaces : String → String
      dashes_to_spaces = replace_all b'-' " "

  -- The hard gates of a verdict table, for a body that lists no results.
  unfoldable pub verdict_results : Fields N → List (Fields N)
  unfolding criterion_name
  verdict_results end = []
  verdict_results (field code verdict fs) =
      field "id" (str code) (
        field "name" (str (criterion_name code)) (
          field "kind" (str "HARD_GATE") (
            field "verdict" verdict (
              field "meaning" (str "The central gate engine evaluated this required criterion.")
                end))))
      ∷ verdict_results fs

  -- The texts of the details, where they can be converted.
  detail_texts : List (String × Value N) → List String
  detail_texts [] = []
  detail_texts ((key, value) ∷ rest) =
      (replace_all b'_' " " key ^^ ": " ^^ text_of js value) ∷ detail_texts rest

  -- The details of an evidence entry in one line, or the fallback.
  unfoldable pub details_summary : Fields N → String → String
  unfolding detail_texts
  details_summary details fallback = text_or (join " · " (detail_texts (entries details))) fallback

  unfoldable pub map_artifact : String → Fields N → ℕ → EvidenceViewModel
  map_artifact id entry index =
      let details = to_record (entry ! "evidence") in
      let provider_metadata = to_record (entry ! "provider_metadata") in
      record {
        id = string (entry ! "id") (id ^^ "-evidence-" ^^ js.to_text (js.of_nat index));
        kind = artifact;
        title =
            string (entry ! "title" ⁇ entry ! "name") (
              string (entry ! "artifact_type" ⁇ entry ! "signal_type") "Evaluation" ^^ " artifact");
        source =
            string
              (entry ! "source"
                ⁇ entry ! "provider"
                ⁇ provider_metadata ! "provider"
                ⁇ details ! "source")
              "Artifact store";
        recorded_at = string (entry ! "recorded_at" ⁇ entry ! "created_at") epoch;
        digest = nullable_string (entry ! "digest" ⁇ entry ! "sha256" ⁇ details ! "digest");
        uri = nullable_string (entry ! "uri" ⁇ entry ! "artifact_uri" ⁇ details ! "uri");
        summary =
            string (entry ! "summary" ⁇ entry ! "description" ⁇ details ! "summary")
              (details_summary details "Persisted evidence linked to this candidate.");
        signal_type =
            string (entry ! "artifact_type" ⁇ entry ! "signal_type" ⁇ entry ! "type")
              "EVIDENCE ARTIFACT";
      }

  unfoldable pub map_signal : String → Fields N → ℕ → EvidenceViewModel
  map_signal id entry index =
      let details = to_record (entry ! "evidence") in
      record {
        id = string (entry ! "id") (id ^^ "-signal-" ^^ js.to_text (js.of_nat index));
        kind = detector_signal;
        title =
            string (entry ! "title" ⁇ entry ! "name")
              (string (entry ! "signal_type") "Detector" ^^ " signal");
        source =
            string (entry ! "source" ⁇ entry ! "provider" ⁇ details ! "source")
              "deterministic detector";
        recorded_at = string (entry ! "recorded_at" ⁇ entry ! "created_at") epoch;
        digest = none;
        uri = none;
        summary =
            string (entry ! "summary" ⁇ entry ! "description" ⁇ details ! "summary")
              (details_summary details "Persisted deterministic signal.");
        signal_type = string (entry ! "signal_type" ⁇ entry ! "type") "DETECTOR SIGNAL";
      }

  -- The field `evaluation` of the candidate.
  unfoldable pub map_summary : Fields N → Fields N → ℕ → EvaluationSummaryViewModel N
  map_summary source readiness result_count =
      let zero = js.of_nat 0 in
      let count = num (js.of_nat result_count) in
      record {
        readiness_percentage = number_or_zero js (
            readiness ! "evaluation_readiness"
            ⁇ readiness ! "readiness_percentage"
            ⁇ source ! "evaluation_readiness"
            ⁇ source ! "readiness_percentage");
        hard_gate_readiness =
            ratio js (readiness ! "hard_gate_readiness" ⁇ source ! "hard_gate_readiness") zero;
        weighted_readiness =
            ratio js (readiness ! "weighted_readiness" ⁇ source ! "weighted_readiness") zero;
        sample_completeness =
            ratio js (readiness ! "sample_completeness" ⁇ source ! "sample_completeness") zero;
        evaluation_completeness =
            ratio js (readiness ! "evaluation_completeness" ⁇ source ! "evaluation_completeness")
              zero;
        weighted_score =
            nullable_number js (readiness ! "weighted_score" ⁇ source ! "weighted_score");
        required_weighted_score = number_or_zero js (
            readiness ! "required_weighted_score"
            ⁇ readiness ! "minimum_weighted_score"
            ⁇ source ! "required_weighted_score");
        valid_result_count = number_or_zero js (readiness ! "valid_result_count" ⁇ count);
        required_result_count =
            number_or_zero js (
              readiness ! "required_criterion_count" ⁇ readiness ! "required_result_count" ⁇ count);
      }
