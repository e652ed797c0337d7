-- ===== src/Api/Events.antt =====
-- apps/web/src/lib/api.ts: `mapEvent` and `mapGate`.
use agent_promotion_control.Prelude.{String, some, Option, ◌==◌, if◌then◌else◌}
use agent_promotion_control.Js.{Value, arr, ◌!◌, ◌⁇◌, is_nullish, is_false, Runtime, ◌^^◌}
use agent_promotion_control.View.{
  TimelineEventViewModel, GateViewModel, GateVerdict, passed, failed, remaining, not_applicable,
  GateKind, hard_gate, weighted,
}
use agent_promotion_control.EventCopy.{promotion_event_copy}
use agent_promotion_control.Api.Decode.{
  to_record, string, number, number_or_zero, nullable_number, nullable_string, evaluator_label,
  array_length,
}

-- `new Date(0).toISOString()`.
abbrev pub epoch : String
epoch = "1970-01-01T00:00:00.000Z"

-- The two comparisons that fill the literal types of a gate.
unfoldable pub verdict_of : String → GateVerdict
verdict_of verdict =
    if verdict == "PASSED"
    then passed
    else if verdict == "FAILED"
    then failed
    else if verdict == "NOT_APPLICABLE"
    then not_applicable
    else remaining

unfoldable pub kind_of : String → GateKind
kind_of kind = if kind == "WEIGHTED" then weighted else hard_gate

abbrev is_array : {N : Type 0} → Value N → Value N → Value N
is_array (arr vs) other = arr vs
is_array _ other = other

module _ {N : Type 0} (js : Runtime N) where
  unfoldable pub map_event : Value N → TimelineEventViewModel N
  map_event value =
      let source = to_record value in
      let payload = to_record (source ! "payload") in
      let event_type = string (source ! "event_type" ⁇ source ! "type") "CONTROL_PLANE_EVENT" in
      let copy = promotion_event_copy js event_type payload in
      record {
        id =
            string (source ! "id")
              ("event-" ^^ js.to_text (number_or_zero js (source ! "sequence")));
        sequence = number_or_zero js (source ! "sequence");
        event_type = event_type;
        occurred_at = string (source ! "occurred_at" ⁇ source ! "created_at") epoch;
        actor = string (source ! "actor" ⁇ source ! "actor_id") "system";
        headline = string (source ! "headline") copy.headline;
        detail = string (source ! "detail") copy.detail;
        correlation_id = some (string (source ! "correlation_id") "");
        causation_id = nullable_string (source ! "causation_id");
      }

  -- `first === null || first === undefined ? (second, if there) : number(first)`.
  abbrev first_number : Value N → Value N → Option N
  first_number first second =
      if is_nullish first then nullable_number js second else some (number_or_zero js first)

  -- `uuid` is the value of `crypto.randomUUID()`.
  unfoldable pub map_gate : String → Value N → GateViewModel N
  map_gate uuid value =
      let source = to_record value in
      let criterion = to_record (source ! "criterion") in
      let provider_metadata = to_record (source ! "provider_metadata") in
      let verdict = string (source ! "verdict" ⁇ source ! "gate_verdict") "REMAINING" in
      let default_kind =
        if is_false (source ! "hard_gate" ⁇ criterion ! "hard_gate")
        then "WEIGHTED"
        else "HARD_GATE" in
      let kind = string (source ! "kind" ⁇ criterion ! "kind") default_kind in
      let normalized_score = first_number (source ! "normalized_score") (source ! "score") in
      record {
        id = string (source ! "id" ⁇ criterion ! "id") uuid;
        name = string (source ! "name" ⁇ criterion ! "name") "Unnamed criterion";
        category = string (source ! "category" ⁇ criterion ! "category") "GENERAL";
        kind = kind_of kind;
        weight = first_number (source ! "weight") (criterion ! "weight");
        verdict = verdict_of verdict;
        score = normalized_score;
        normalized_score = normalized_score;
        measurement_value = nullable_number js (source ! "measurement_value");
        measurement_unit = nullable_string (source ! "measurement_unit" ⁇ source ! "unit");
        comparison_operator =
            string (source ! "comparison_operator" ⁇ criterion ! "comparison_operator") "gte";
        threshold = nullable_number js (source ! "threshold" ⁇ criterion ! "threshold");
        samples = number_or_zero js (source ! "samples" ⁇ source ! "sample_count");
        minimum_samples =
            number_or_zero js (source ! "minimum_samples" ⁇ criterion ! "minimum_samples");
        evidence_count =
            number js (source ! "evidence_count")
              (js.of_nat (array_length (source ! "evidence_codes")));
        required_evidence_count = number js (source ! "required_evidence_count") (
            js.of_nat (
              array_length (
                is_array (criterion ! "evidence_requirements") (criterion ! "required_evidence"))));
        evaluator =
            evaluator_label
              (source ! "evaluator"
                ⁇ source ! "evaluator_key"
                ⁇ source ! "provider"
                ⁇ provider_metadata ! "provider")
              (source ! "evaluator_version") "Evaluator unavailable";
        last_run_at =
            nullable_string
              (source ! "last_run_at" ⁇ source ! "completed_at" ⁇ source ! "recorded_at");
        meaning =
            string (source ! "meaning" ⁇ criterion ! "description")
              "Central gate verdict from typed measurements.";
      }
