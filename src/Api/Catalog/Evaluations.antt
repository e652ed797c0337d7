-- ===== src/Api/Catalog/Evaluations.antt =====
-- apps/web/src/lib/api.ts: `mapEvaluation` and `mapEvaluationMeasurement`.
use agent_promotion_control.Prelude.{
  ℕ, String, Bool, true, false, ◌||◌, Option, none, some, List, [], ◌∷◌, map, length, map_index,
  leb, get_or, ◌or_else◌, ◌==◌, if◌then◌else◌,
}
use agent_promotion_control.Js.{
  Value, undefined, obj, Fields, end, ◌!◌, ◌⁇◌, is_true, array_or_empty, Runtime, ◌^^◌, join,
  non_empty, text_or,
}
use agent_promotion_control.View.{
  EvaluationMeasurementViewModel, EvaluationRunViewModel, EvidenceViewModel, artifact,
}
use agent_promotion_control.Api.Decode.{
  to_record, records, string, number, number_or_zero, nullable_number, nullable_string,
  nullable_boolean,
}
use agent_promotion_control.Api.Events.{epoch, map_gate}

unfoldable pub has_text : String → List String → Bool
has_text s [] = false
has_text s (t ∷ ts) = t == s || has_text s ts

-- `[...new Set(texts)]`: each text once, in the order of its first appearance.
unfoldable pub distinct_from : List String → List String → List String
distinct_from seen [] = []
distinct_from seen (s ∷ rest) = elim (has_text s seen) [
  | true ↦ distinct_from seen rest
  | false ↦ s ∷ distinct_from (s ∷ seen) rest
]

unfoldable pub distinct : List String → List String
unfolding distinct_from has_text
distinct texts = distinct_from [] texts

-- `value === undefined`.
abbrev is_undefined : {N : Type 0} → Value N → Bool
is_undefined undefined = true
is_undefined _ = false

abbrev has_fields : {N : Type 0} → Fields N → Bool
has_fields end = false
has_fields _ = true

-- `candidateNames.get(id) ?? "Unknown candidate"`, for the map with these entries.
unfoldable pub name_at : List (String × String) → String → String
name_at [] id = "Unknown candidate"
name_at ((k, name) ∷ names) id = let later = name_at names id in if k == id then name else later

module _ {N : Type 0} (js : Runtime N) where
  unfoldable pub map_evaluation_measurement : String → Fields N → EvaluationMeasurementViewModel N
  map_evaluation_measurement uuid source = record {
    gate = map_gate js uuid (obj source);
    provider = nullable_string (source ! "provider");
    model = nullable_string (source ! "model");
    cost_usd = nullable_number js (source ! "cost_usd");
    latency_milliseconds = nullable_number js (source ! "latency_ms");
    valid = nullable_boolean (source ! "valid");
    stale = nullable_boolean (source ! "stale");
  }

  -- The time between two dates, at least 0, if both are there.
  unfoldable pub computed_duration : Option String → Option String → Option N
  computed_duration (some started) (some finished) =
      some (js.larger (js.of_nat 0) (js.minus (js.of_date finished) (js.of_date started)))
  computed_duration _ _ = none

  unfoldable pub total_samples : N → List (Fields N) → N
  total_samples total [] = total
  total_samples total (result ∷ results) =
      total_samples (js.plus total (number_or_zero js (result ! "sample_count"))) results

  unfoldable pub map_run_artifact : String → Option String → Fields N → ℕ → EvidenceViewModel
  map_run_artifact run_id finished_at entry index = record {
    id = string (entry ! "id") (run_id ^^ "-artifact-" ^^ js.to_text (js.of_nat index));
    kind = artifact;
    title = string (entry ! "title" ⁇ entry ! "name") "Evaluation evidence artifact";
    source =
        string
          (entry ! "source"
            ⁇ entry ! "provider"
            ⁇ to_record (entry ! "provider_metadata") ! "provider")
          "Artifact store";
    recorded_at = string (entry ! "recorded_at" ⁇ entry ! "created_at") (get_or finished_at epoch);
    digest = nullable_string (entry ! "sha256" ⁇ entry ! "digest");
    uri = nullable_string (entry ! "uri" ⁇ entry ! "artifact_uri");
    summary = string (entry ! "summary" ⁇ entry ! "description") (
        string (entry ! "media_type") "Stored output"
        ^^ " · "
        ^^ (if is_true (entry ! "sanitized") then "sanitized" else "original"));
    signal_type = string (entry ! "artifact_type" ⁇ entry ! "type") "EVALUATION ARTIFACT";
  }

  -- The count or the total that the body leaves out, if there is any result.
  abbrev if_any : List (Fields N) → N → Option N
  if_any results value = if leb 1 (length results) then some value else none

  unfoldable pub error_message_of : Fields N → Option String
  error_message_of source =
      let error = to_record (source ! "error") in
      nullable_string (source ! "error_message")
      or_else nullable_string (error ! "message" ⁇ error ! "detail" ⁇ error ! "code")
      or_else (if has_fields error then some (js.stringify (obj error)) else none)

  -- `number(source.duration_ms ?? …)`, where only `undefined` gives the default.
  abbrev unless_undefined : Value N → Option N → Option N
  unless_undefined value default =
      if is_undefined value then default else some (number_or_zero js value)

  unfoldable pub map_evaluation :
      (ℕ → String) → List (String × String) → Value N → EvaluationRunViewModel N
  map_evaluation uuids candidate_names value =
      let source = to_record value in
      let candidate_id = string (source ! "candidate_id") "" in
      let raw_results = records (source ! "results" ⁇ source ! "measurements") in
      let raw_artifacts = records (source ! "evidence_artifacts" ⁇ source ! "artifacts") in
      let provider_names =
        non_empty
          (map (λ provider. string provider "") (array_or_empty (source ! "provider_names"))) in
      let result_models =
        distinct (non_empty (map (λ result. string (result ! "model") "") raw_results)) in
      let started_at = nullable_string (source ! "started_at") in
      let finished_at = nullable_string (source ! "finished_at" ⁇ source ! "completed_at") in
      let state = source ! "state" ⁇ source ! "status" in
      record {
        id = string (source ! "id") ("evaluation-" ^^ text_or candidate_id "unknown");
        candidate_id = candidate_id;
        candidate_name = string (source ! "candidate_name") (name_at candidate_names candidate_id);
        plan_id = string (source ! "plan_id") "";
        plan_name = string (source ! "plan_name" ⁇ source ! "name") "Active evaluation plan";
        state = string state "QUEUED";
        progress_percentage =
            number js (source ! "progress_percentage")
              (js.of_nat (if string state "" == "SUCCEEDED" then 100 else 0));
        started_at = started_at;
        finished_at = finished_at;
        provider =
            string (source ! "provider" ⁇ source ! "evaluator_provider")
              (text_or (join ", " provider_names) "Provider not reported");
        model =
            nullable_string (source ! "model" ⁇ source ! "model_name")
            or_else (if leb 1 (length result_models) then some (join ", " result_models) else none);
        attempt_count = number_or_zero js (source ! "attempt_count");
        max_attempts = number_or_zero js (source ! "max_attempts");
        planned_result_count = number_or_zero js (source ! "planned_result_count");
        heartbeat_at = nullable_string (source ! "heartbeat_at");
        correlation_id = nullable_string (source ! "correlation_id");
        result_count =
            nullable_number js (source ! "result_count")
            or_else if_any raw_results (js.of_nat (length raw_results));
        sample_count =
            nullable_number js (source ! "sample_count")
            or_else if_any raw_results (total_samples (js.of_nat 0) raw_results);
        duration_milliseconds =
            unless_undefined (source ! "duration_ms" ⁇ source ! "duration_milliseconds")
              (computed_duration started_at finished_at);
        latency_milliseconds =
            unless_undefined (source ! "latency_ms" ⁇ source ! "latency_milliseconds") none;
        cost_usd = nullable_number js (source ! "cost_usd");
        error_message = error_message_of source;
        results = map_index (λ result i. map_evaluation_measurement (uuids i) result) raw_results;
        artifacts =
            map_index (map_run_artifact (string (source ! "id") "") finished_at) raw_artifacts;
      }
