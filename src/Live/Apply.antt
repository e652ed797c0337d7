-- ===== src/Live/Apply.antt =====
-- packages/promotion-ui/src/live.ts: `applyPromotionEvent`.
use agent_promotion_control.Prelude.{
  String, Bool, ◌&&◌, not, Option, none, some, List, [], ◌∷◌, map, get_or, ◌or_else◌, take, any,
  ◌==◌, if◌then◌else◌,
}
use agent_promotion_control.Js.{Fields, ◌!◌, ◌⁇◌, Runtime, sort}
use agent_promotion_control.View.{
  CandidateViewModel, TimelineEventViewModel, PromotionEventEnvelope, EvaluationSummaryViewModel,
  DashboardViewModel,
}
use agent_promotion_control.EventCopy.{promotion_event_copy}
use agent_promotion_control.Live.Decode.{to_record, text, number, ratio, boolean}
use agent_promotion_control.Live.Discovery.{in_either, create_discovered_candidate}

-- `event.causationId ? { causationId } : {}`, and `!event.candidateId`: an empty text counts as none.
abbrev pub truthy : Option String → Option String
truthy none = none
truthy (some s) = if s == "" then none else some s

-- The normalised approval state: the API's names, in the words of the views.
unfoldable pub normalized_approval_state : Option String → Option String
normalized_approval_state none = none
normalized_approval_state (some s) =
    if s == "SATISFIED" then some "APPROVED" else if s == "LOCKED" then some "CONSUMED" else some s

abbrev pub is_candidate : {N : Type 0} → String → CandidateViewModel N → Bool
is_candidate id candidate = candidate.id == id

module _ {N : Type 0} (js : Runtime N) where
  -- The comparator `b.sequence - a.sequence` is positive.
  abbrev pub behind : TimelineEventViewModel N → TimelineEventViewModel N → Bool
  behind a b = js.gt (js.minus b.sequence a.sequence) (js.of_nat 0)

  -- `items.some((item) => item.sequence === event.sequence)`.
  abbrev pub has_sequence : N → List (TimelineEventViewModel N) → Bool
  has_sequence sequence = any λ item. js.same item.sequence sequence

  unfoldable pub to_recent_event : PromotionEventEnvelope N → TimelineEventViewModel N
  to_recent_event event =
      let event_copy = promotion_event_copy js event.event_type event.payload in
      record {
        id = event.id;
        sequence = event.sequence;
        event_type = event.event_type;
        occurred_at = event.occurred_at;
        actor = event.actor;
        headline = event_copy.headline;
        detail = event_copy.detail;
        correlation_id = some event.correlation_id;
        causation_id = truthy event.causation_id;
      }

  -- The window of the 40 newest events; an event whose sequence is there already is dropped.
  unfoldable pub push_recent :
      TimelineEventViewModel N → List (TimelineEventViewModel N) → List (TimelineEventViewModel N)
  push_recent event events =
      if has_sequence event.sequence events then events else take 40 (sort behind (event ∷ events))

  -- The same for a candidate's timeline, which is not cut.
  unfoldable pub push_timeline :
      TimelineEventViewModel N → List (TimelineEventViewModel N) → List (TimelineEventViewModel N)
  push_timeline event events =
      if has_sequence event.sequence events then events else sort behind (event ∷ events)

  unfoldable pub update_evaluation :
      Fields N → EvaluationSummaryViewModel N → EvaluationSummaryViewModel N
  update_evaluation payload evaluation =
      let readiness = to_record (payload ! "readiness" ⁇ payload ! "evaluation") in
      record evaluation {
        readiness_percentage =
            get_or
              (in_either js (number js) readiness payload
                ("evaluation_readiness" ∷ "readiness_percentage" ∷ []))
              evaluation.readiness_percentage;
        hard_gate_readiness =
            get_or (in_either js (ratio js) readiness payload ("hard_gate_readiness" ∷ []))
              evaluation.hard_gate_readiness;
        weighted_readiness =
            get_or (in_either js (ratio js) readiness payload ("weighted_readiness" ∷ []))
              evaluation.weighted_readiness;
        sample_completeness =
            get_or (in_either js (ratio js) readiness payload ("sample_completeness" ∷ []))
              evaluation.sample_completeness;
        evaluation_completeness =
            get_or (in_either js (ratio js) readiness payload ("evaluation_completeness" ∷ []))
              evaluation.evaluation_completeness;
        weighted_score =
            in_either js (number js) readiness payload ("weighted_score" ∷ [])
            or_else evaluation.weighted_score;
      }

  -- The body of the `map` for the candidate that the event names.
  unfoldable pub update_candidate :
      PromotionEventEnvelope N
      → TimelineEventViewModel N
      → CandidateViewModel N
      → CandidateViewModel N
  update_candidate event recent_event candidate =
      let payload = event.payload in
      let eligibility = to_record (payload ! "promotion_eligibility") in
      record candidate {
        stage = get_or (text payload "stage") candidate.stage;
        status = get_or (text payload "status") candidate.status;
        activation_state =
            get_or
              (text eligibility "registry_activation_state"
                or_else text payload "activation_state"
                or_else text payload "registry_activation_state")
              candidate.activation_state;
        registry_operation_id = event.registry_operation_id or_else candidate.registry_operation_id;
        revision =
            get_or (number js payload ("candidate_revision" ∷ "revision" ∷ [])) candidate.revision;
        promotion_eligible =
            get_or
              (boolean eligibility ("eligible" ∷ [])
                or_else boolean payload ("promotion_eligible" ∷ []))
              candidate.promotion_eligible;
        lifecycle_approval_state =
            get_or
              (normalized_approval_state (
                text eligibility "lifecycle_approval_state"
                or_else text payload "lifecycle_approval_state"))
              candidate.lifecycle_approval_state;
        required_lifecycle_approvals =
            get_or (number js eligibility ("required_lifecycle_approvals" ∷ []))
              candidate.required_lifecycle_approvals;
        available_lifecycle_approvals =
            get_or (number js eligibility ("available_lifecycle_approvals" ∷ []))
              candidate.available_lifecycle_approvals;
        consumed_lifecycle_approvals =
            get_or (number js eligibility ("consumed_lifecycle_approvals" ∷ []))
              candidate.consumed_lifecycle_approvals;
        active_blocker_count =
            get_or (number js eligibility ("active_blocker_count" ∷ []))
              candidate.active_blocker_count;
        updated_at = event.occurred_at;
        timeline = push_timeline recent_event candidate.timeline;
        evaluation = update_evaluation payload candidate.evaluation;
      }

  unfoldable pub update_candidates :
      String
      → PromotionEventEnvelope N
      → TimelineEventViewModel N
      → List (CandidateViewModel N)
      → List (CandidateViewModel N)
  update_candidates id event recent_event candidates =
      let updated =
        map
          (λ candidate.
            if is_candidate id candidate
            then update_candidate event recent_event candidate
            else candidate)
          candidates in
      if not (any (is_candidate id) candidates) && event.event_type == "CANDIDATE_DISCOVERED"
      then create_discovered_candidate js id event recent_event ∷ updated
      else updated

  -- What follows the early return for an event that names no candidate.
  unfoldable pub apply_to :
      Option String → DashboardViewModel N → PromotionEventEnvelope N → DashboardViewModel N
  apply_to none dashboard event = record dashboard {
    generated_at = event.occurred_at;
    recent_events = push_recent (to_recent_event event) dashboard.recent_events;
  }
  apply_to (some id) dashboard event =
      let recent_event = to_recent_event event in
      record dashboard {
        generated_at = event.occurred_at;
        candidates = update_candidates id event recent_event dashboard.candidates;
        recent_events = push_recent recent_event dashboard.recent_events;
      }

  unfoldable pub apply_promotion_event :
      DashboardViewModel N → PromotionEventEnvelope N → DashboardViewModel N
  unfolding apply_to
  apply_promotion_event dashboard event = apply_to (truthy event.candidate_id) dashboard event
