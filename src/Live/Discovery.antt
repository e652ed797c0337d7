-- ===== src/Live/Discovery.antt =====
-- packages/promotion-ui/src/live.ts: the candidate that a discovery event brings into the dashboard.
use agent_promotion_control.Prelude.{
  String, Option, none, some, List, [], ◌∷◌, false, get_or, ◌or_else◌, ◌==◌, if◌then◌else◌,
}
use agent_promotion_control.Js.{Fields, ◌!◌, ◌⁇◌, spread, Runtime, ◌^^◌}
use agent_promotion_control.View.{
  CandidateViewModel, TimelineEventViewModel, PromotionEventEnvelope, EvaluationSummaryViewModel,
}
use agent_promotion_control.Format.{humanize}
use agent_promotion_control.Live.Decode.{to_record, text, number, ratio, boolean}

unfoldable pub lifecycle_journey : List String
lifecycle_journey =
    "DISCOVERED" ∷ "CANDIDATE" ∷ "EVALUATING" ∷ "ELIGIBLE" ∷ "SHADOW" ∷ "PROMOTED" ∷ "MONITORED"
    ∷ []

module _ {N : Type 0} (js : Runtime N) where
  -- `read(readiness, …) ?? read(payload, …)`.
  abbrev pub in_either :
      (Fields N → List String → Option N) → Fields N → Fields N → List String → Option N
  in_either read readiness payload keys = read readiness keys or_else read payload keys

  -- `slug ? humanize(slug) : "Discovered candidate"`: an empty slug counts as none.
  name_of : Option String → String
  name_of none = "Discovered candidate"
  name_of (some slug) = if slug == "" then "Discovered candidate" else humanize js slug

  -- The evaluation summary of the new candidate; what is missing counts as 0.
  discovered_evaluation : Fields N → Fields N → EvaluationSummaryViewModel N
  discovered_evaluation readiness payload =
      let zero = js.of_nat 0 in
      record {
        readiness_percentage =
            get_or
              (in_either (number js) readiness payload
                ("evaluation_readiness" ∷ "readiness_percentage" ∷ []))
              zero;
        hard_gate_readiness =
            get_or (in_either (ratio js) readiness payload ("hard_gate_readiness" ∷ [])) zero;
        weighted_readiness =
            get_or (in_either (ratio js) readiness payload ("weighted_readiness" ∷ [])) zero;
        sample_completeness =
            get_or (in_either (ratio js) readiness payload ("sample_completeness" ∷ [])) zero;
        evaluation_completeness =
            get_or (in_either (ratio js) readiness payload ("evaluation_completeness" ∷ [])) zero;
        weighted_score = in_either (number js) readiness payload ("weighted_score" ∷ []);
        required_weighted_score =
            get_or
              (in_either (number js) readiness payload
                ("required_weighted_score" ∷ "minimum_weighted_score" ∷ []))
              zero;
        valid_result_count = get_or (number js readiness ("valid_result_count" ∷ [])) zero;
        required_result_count = get_or (number js readiness ("required_result_count" ∷ [])) zero;
      }

  -- `createDiscoveredCandidate`; `id` is the event's candidate, which the caller has tested.
  unfoldable pub create_discovered_candidate :
      String → PromotionEventEnvelope N → TimelineEventViewModel N → CandidateViewModel N
  unfolding discovered_evaluation name_of lifecycle_journey
  create_discovered_candidate id event recent_event =
      let nested_candidate = to_record (event.payload ! "candidate") in
      let payload = spread nested_candidate event.payload in
      let slug = text payload "slug" or_else text payload "candidate_slug" in
      let signal = get_or (text payload "signal") "deterministic discovery signal" in
      let readiness = to_record (payload ! "readiness" ⁇ payload ! "evaluation") in
      record {
        id = id;
        slug = get_or slug id;
        name = get_or (text payload "name" or_else text payload "candidate_name") (name_of slug);
        component =
            get_or (text payload "component" or_else text payload "candidate_type")
              "DISCOVERY / SIGNAL";
        candidate_type = get_or (text payload "candidate_type") "AUTONOMOUS_AGENT";
        discovery_source =
            get_or (text payload "discovery_source" or_else text payload "discovered_by")
              "Deterministic discovery event";
        description =
            get_or (text payload "summary" or_else text payload "description")
              "A detector surfaced this candidate during the autonomous cycle.";
        surfaced_reason =
            get_or (text payload "rationale" or_else text payload "surfaced_reason")
              (humanize js signal);
        detector_lineage =
            get_or (text payload "discovered_by" or_else text payload "detector_lineage")
              (event.actor ^^ " / deterministic event");
        stage = get_or (text payload "stage") "DISCOVERED";
        status = get_or (text payload "status") "ACTIVE";
        revision =
            get_or (number js payload ("candidate_revision" ∷ "revision" ∷ [])) (js.of_nat 1);
        policy_name = get_or (text payload "policy_name") "Policy assignment pending";
        policy_id = text payload "policy_id";
        policy_key = text payload "policy_key";
        policy_hash =
            get_or (event.policy_hash or_else text payload "policy_hash") "policy hash pending";
        evaluation_snapshot_hash =
            get_or (text payload "evaluation_snapshot_hash") "evaluation snapshot pending";
        evaluation = discovered_evaluation readiness payload;
        promotion_eligible = get_or (boolean payload ("promotion_eligible" ∷ [])) false;
        lifecycle_approval_state = "NOT_REQUIRED";
        required_lifecycle_approvals = js.of_nat 0;
        available_lifecycle_approvals = js.of_nat 0;
        consumed_lifecycle_approvals = js.of_nat 0;
        active_blocker_count = js.of_nat 0;
        activation_state =
            get_or
              (text payload "activation_state" or_else text payload "registry_activation_state")
              "NOT_REQUESTED";
        blocker_code = none;
        blocker_summary = none;
        blockers = [];
        latest_decision = none;
        registry_operation_id = event.registry_operation_id;
        updated_at = event.occurred_at;
        latest_evaluation_at = none;
        hard_gates_passed = none;
        hard_gates_required = none;
        journey = lifecycle_journey;
        gates = [];
        evidence = [];
        timeline = recent_event ∷ [];
      }
