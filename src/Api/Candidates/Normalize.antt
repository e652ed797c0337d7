-- ===== src/Api/Candidates/Normalize.antt =====
-- apps/web/src/lib/api.ts: `normalizeCandidate`.
use agent_promotion_control.Prelude.{
  ℕ, String, false, List, [], ◌∷◌, ◌++◌, map, length, map_index, list_or, if◌then◌else◌,
}
use agent_promotion_control.Js.{
  Value, undefined, obj, Fields, ◌!◌, ◌⁇◌, Runtime, ◌^^◌, join, non_empty, text_or, sort, is_truthy,
}
use agent_promotion_control.View.{CandidateViewModel, TimelineEventViewModel, GateViewModel}
use agent_promotion_control.Live.{behind}
use agent_promotion_control.Api.Decode.{
  to_record, records, string, boolean, number, number_or_zero, nullable_string,
}
use agent_promotion_control.Api.Events.{epoch, map_event, map_gate}
use agent_promotion_control.Api.Candidates.Evidence.{
  primary_blocker, map_blocker, approval_state, map_decision, hard_gates_passed,
  hard_gates_required, verdict_results, map_artifact, map_signal, map_summary,
}

unfoldable pub fallback_journey : List String
fallback_journey =
    "DISCOVERED" ∷ "CANDIDATE" ∷ "EVALUATING" ∷ "ELIGIBLE" ∷ "SHADOW" ∷ "PROMOTED" ∷ "MONITORED"
    ∷ []

-- The names of the lifecycle stages, if the body lists any.
unfoldable pub journey_of : {N : Type 0} → Fields N → List String
unfolding fallback_journey
journey_of source =
    list_or
      (non_empty (map (λ item. string (item ! "name") "") (records (source ! "lifecycle_stages"))))
      fallback_journey

-- `list[0]`.
abbrev first_value : {N : Type 0} → List (Fields N) → Value N
first_value [] = undefined
first_value (x ∷ xs) = obj x

-- The latest of the decisions that the body names.
unfoldable pub decision_of : {N : Type 0} → Fields N → Fields N
decision_of source = to_record (
    source ! "latest_eligibility_decision"
    ⁇ source ! "latest_decision"
    ⁇ first_value (records (source ! "decisions")))

module _ {N : Type 0} (js : Runtime N) where
  -- The results that the body lists, or else its verdict table.
  unfoldable pub results_of : Fields N → Fields N → List (Fields N)
  results_of source readiness =
      list_or
        (records (
          source ! "gates"
          ⁇ source ! "results"
          ⁇ source ! "criteria_results"
          ⁇ source ! "gate_results"))
        (verdict_results js (to_record (readiness ! "gate_verdicts")))

  -- `results.map(mapGate)`; `uuids` are the values of `crypto.randomUUID()`.
  unfoldable pub map_gates : (ℕ → String) → List (Fields N) → List (GateViewModel N)
  map_gates uuids results = map_index (λ result i. map_gate js (uuids i) (obj result)) results

  unfoldable pub lineage_of : Fields N → String
  lineage_of source =
      let lineage = to_record (source ! "detector_lineage") in
      string (source ! "detector_revision" ⁇ lineage ! "revision_id") (
        if is_truthy js (source ! "detector_key")
        then string (source ! "detector_key") ""
          ^^ " / revision "
          ^^ string (source ! "detector_version") "1"
        else text_or
            (join " / revision " (
              non_empty (
                string (lineage ! "discovered_by" ⁇ source ! "discovered_by") ""
                ∷ string (lineage ! "revision_id") ""
                ∷ [])))
            (string (source ! "discovery_source") "Deterministic detector / revision unavailable"))

  unfoldable pub policy_name_of : Fields N → Fields N → String
  policy_name_of source policy = string (source ! "policy_name" ⁇ policy ! "name") (
      if is_truthy js (source ! "current_policy_version")
      then "Policy version " ^^ string (source ! "current_policy_version") ""
      else "Unassigned policy")

  -- The candidate that `normalizeCandidate` gives, where `evidence_prints` says that it does not throw.
  unfoldable pub normalize_candidate :
      (ℕ → String) → Value N → List (TimelineEventViewModel N) → CandidateViewModel N
  normalize_candidate uuids value linked_events =
      let source = to_record value in
      let readiness = to_record (source ! "readiness" ⁇ source ! "evaluation") in
      let id = string (source ! "id") ("candidate-" ^^ string (source ! "slug") "unknown") in
      let blocker_list = records (source ! "blockers" ⁇ source ! "active_blockers") in
      let blocker = primary_blocker blocker_list in
      let registry_operation = to_record (source ! "registry_operation") in
      let eligibility = to_record (source ! "promotion_eligibility") in
      let policy = to_record (source ! "policy") in
      let policy_hash = string (source ! "policy_hash" ⁇ policy ! "hash") "unassigned-policy" in
      let snapshot_hash =
        string (source ! "evaluation_snapshot_hash" ⁇ source ! "evidence_snapshot_hash")
          "unavailable-snapshot" in
      let results = results_of source readiness in
      let gates = map_gates uuids results in
      let artifacts =
        records (source ! "evidence_artifacts" ⁇ source ! "artifacts" ⁇ source ! "evidence") in
      let timeline =
        map (λ event. map_event js (obj event))
          (records (source ! "timeline" ⁇ source ! "events")) in
      record {
        id = id;
        slug = string (source ! "slug") id;
        name = string (source ! "name" ⁇ source ! "display_name") "Unnamed candidate";
        component =
            string
              (source ! "component"
                ⁇ source ! "component_name"
                ⁇ source ! "source_component"
                ⁇ source ! "candidate_type")
              "AGENT";
        candidate_type = string (source ! "candidate_type") "AGENT";
        discovery_source =
            string (source ! "discovery_source" ⁇ source ! "discovered_by")
              "Deterministic detector";
        description =
            string (source ! "description" ⁇ source ! "summary")
              "No candidate description is available.";
        surfaced_reason =
            string
              (source ! "surfaced_reason"
                ⁇ source ! "discovery_reason"
                ⁇ source ! "rationale"
                ⁇ source ! "proposed_capability")
              "A deterministic detector surfaced this candidate for review.";
        detector_lineage = lineage_of source;
        stage = string (source ! "lifecycle_stage" ⁇ source ! "stage") "DISCOVERED";
        status = string (source ! "status") "ACTIVE";
        revision = number js (source ! "revision" ⁇ source ! "candidate_revision") (js.of_nat 1);
        policy_name = policy_name_of source policy;
        policy_id =
            nullable_string (source ! "active_policy_id" ⁇ source ! "policy_id" ⁇ policy ! "id");
        policy_key =
            nullable_string
              (source ! "current_policy_key" ⁇ source ! "policy_key" ⁇ policy ! "key");
        policy_hash = policy_hash;
        evaluation_snapshot_hash = snapshot_hash;
        evaluation = map_summary js source readiness (length results);
        promotion_eligible =
            boolean
              (eligibility ! "eligible"
                ⁇ source ! "promotion_eligible"
                ⁇ readiness ! "promotion_eligible")
              false;
        lifecycle_approval_state = approval_state (
            string (eligibility ! "lifecycle_approval_state" ⁇ source ! "lifecycle_approval_state")
              "NOT_REQUIRED");
        required_lifecycle_approvals =
            number_or_zero js (eligibility ! "required_lifecycle_approvals");
        available_lifecycle_approvals =
            number_or_zero js (eligibility ! "available_lifecycle_approvals");
        consumed_lifecycle_approvals =
            number_or_zero js (eligibility ! "consumed_lifecycle_approvals");
        active_blocker_count =
            number js (eligibility ! "active_blocker_count") (js.of_nat (length blocker_list));
        activation_state =
            string
              (eligibility ! "registry_activation_state"
                ⁇ readiness ! "registry_activation_state"
                ⁇ source ! "registry_activation_state"
                ⁇ registry_operation ! "activation_state")
              "NOT_REQUESTED";
        blocker_code = nullable_string (source ! "blocker_code" ⁇ blocker ! "code");
        blocker_summary = nullable_string (
            source ! "blocker_summary"
            ⁇ blocker ! "summary"
            ⁇ blocker ! "message"
            ⁇ blocker ! "title"
            ⁇ blocker ! "explanation");
        blockers = map_index (map_blocker js id) blocker_list;
        latest_decision = map_decision policy_hash snapshot_hash (decision_of source);
        registry_operation_id =
            nullable_string (source ! "registry_operation_id" ⁇ registry_operation ! "id");
        updated_at = string (source ! "updated_at" ⁇ source ! "created_at") epoch;
        latest_evaluation_at =
            nullable_string
              (source ! "latest_evaluation_at" ⁇ source ! "latest_evaluation_completed_at");
        hard_gates_passed = hard_gates_passed js (source ! "hard_gates_passed") gates;
        hard_gates_required = hard_gates_required js (source ! "hard_gates_required") gates;
        journey = journey_of source;
        gates = gates;
        evidence =
            map_index (map_artifact js id) artifacts
            ++ map_index (map_signal js id) (records (source ! "detector_evidence"));
        timeline = sort (behind js) (timeline ++ linked_events);
      }
