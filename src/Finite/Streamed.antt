-- ===== src/Finite/Streamed.antt =====
-- packages/promotion-ui/src/live.ts: the numbers that events write into a dashboard.
use agent_promotion_control.Prelude.{
  String, none, some, Option, List, [], ◌∷◌, map, All, All-take, ◌&&◌, not, any, ◌==◌, if-either,
  if◌then◌else◌,
}
use agent_promotion_control.Js.{Fields, Runtime}
use agent_promotion_control.View.{
  TimelineEventViewModel, PromotionEventEnvelope, EvaluationSummaryViewModel, CandidateViewModel,
  DashboardViewModel,
}
use agent_promotion_control.Js.Sorting.{All-sort}
use agent_promotion_control.Live.{
  create_discovered_candidate, behind, has_sequence, to_recent_event, push_recent, push_timeline,
  update_evaluation, is_candidate, update_candidate, update_candidates, truthy, apply_to,
  apply_promotion_event,
}
use agent_promotion_control.Live.Window.{IsFinite}
use agent_promotion_control.Finite.{
  KeepsFinite, IsFiniteNumber, IsFiniteSummary, IsFiniteCandidate, IsFiniteDashboard,
}
use agent_promotion_control.Finite.Told.{
  get_or-IsFinite, or_else-IsFinite, number-IsFinite, told_number, told_ratio,
}

module _ {N : Type 0} {js : Runtime N} (laws : KeepsFinite N js) where
  update_evaluation-IsFinite :
      (payload : Fields N) (e : EvaluationSummaryViewModel N)
      → IsFiniteSummary js e
      → IsFiniteSummary js (update_evaluation js payload e)
  unfolding update_evaluation
  update_evaluation-IsFinite payload e h = record {
    readiness_percentage = told_number js _ payload _ _ h.readiness_percentage;
    hard_gate_readiness = told_ratio laws _ payload _ _ h.hard_gate_readiness;
    weighted_readiness = told_ratio laws _ payload _ _ h.weighted_readiness;
    sample_completeness = told_ratio laws _ payload _ _ h.sample_completeness;
    evaluation_completeness = told_ratio laws _ payload _ _ h.evaluation_completeness;
    weighted_score =
        or_else-IsFinite js _ _
          (or_else-IsFinite js _ _ (number-IsFinite js _ _) (number-IsFinite js payload _))
          h.weighted_score;
    required_weighted_score = h.required_weighted_score;
    valid_result_count = h.valid_result_count;
    required_result_count = h.required_result_count;
  }

  push_timeline-IsFinite :
      (event : TimelineEventViewModel N) (events : List (TimelineEventViewModel N))
      → IsFinite js event
      → All (IsFinite js) events
      → All (IsFinite js) (push_timeline js event events)
  unfolding push_timeline
  push_timeline-IsFinite event events h hs =
      if-either (All (IsFinite js)) (has_sequence js event.sequence events) (λ known. hs)
        (λ new. All-sort (behind js) (IsFinite js) _ (h, hs))

  push_recent-IsFinite :
      (event : TimelineEventViewModel N) (events : List (TimelineEventViewModel N))
      → IsFinite js event
      → All (IsFinite js) events
      → All (IsFinite js) (push_recent js event events)
  unfolding push_recent
  push_recent-IsFinite event events h hs =
      if-either (All (IsFinite js)) (has_sequence js event.sequence events) (λ known. hs)
        (λ new. All-take (IsFinite js) 40 _ (All-sort (behind js) (IsFinite js) _ (h, hs)))

  update_candidate-IsFinite :
      (event : PromotionEventEnvelope N) (recent : TimelineEventViewModel N)
      (c : CandidateViewModel N)
      → IsFinite js recent
      → IsFiniteCandidate js c
      → IsFiniteCandidate js (update_candidate js event recent c)
  unfolding update_candidate
  update_candidate-IsFinite event recent c fin h = record {
    revision = get_or-IsFinite js _ _ (number-IsFinite js event.payload _) h.revision;
    evaluation = update_evaluation-IsFinite event.payload c.evaluation h.evaluation;
    required_lifecycle_approvals =
        get_or-IsFinite js _ _ (number-IsFinite js _ _) h.required_lifecycle_approvals;
    available_lifecycle_approvals =
        get_or-IsFinite js _ _ (number-IsFinite js _ _) h.available_lifecycle_approvals;
    consumed_lifecycle_approvals =
        get_or-IsFinite js _ _ (number-IsFinite js _ _) h.consumed_lifecycle_approvals;
    active_blocker_count = get_or-IsFinite js _ _ (number-IsFinite js _ _) h.active_blocker_count;
    hard_gates_passed = h.hard_gates_passed;
    hard_gates_required = h.hard_gates_required;
    gates = h.gates;
    timeline = push_timeline-IsFinite recent c.timeline fin h.timeline;
  }

  create_discovered_candidate-IsFinite :
      (id : String) (event : PromotionEventEnvelope N) (recent : TimelineEventViewModel N)
      → IsFinite js recent
      → IsFiniteCandidate js (create_discovered_candidate js id event recent)
  unfolding create_discovered_candidate
  create_discovered_candidate-IsFinite id event recent fin =
      let zero_finite = laws.of_nat_finite 0 in
      record {
        revision = get_or-IsFinite js _ _ (number-IsFinite js _ _) (laws.of_nat_finite 1);
        evaluation = record {
          readiness_percentage = told_number js _ _ _ _ zero_finite;
          hard_gate_readiness = told_ratio laws _ _ _ _ zero_finite;
          weighted_readiness = told_ratio laws _ _ _ _ zero_finite;
          sample_completeness = told_ratio laws _ _ _ _ zero_finite;
          evaluation_completeness = told_ratio laws _ _ _ _ zero_finite;
          weighted_score =
              or_else-IsFinite js _ _ (number-IsFinite js _ _) (number-IsFinite js _ _);
          required_weighted_score = told_number js _ _ _ _ zero_finite;
          valid_result_count = get_or-IsFinite js _ _ (number-IsFinite js _ _) zero_finite;
          required_result_count = get_or-IsFinite js _ _ (number-IsFinite js _ _) zero_finite;
        };
        required_lifecycle_approvals = zero_finite;
        available_lifecycle_approvals = zero_finite;
        consumed_lifecycle_approvals = zero_finite;
        active_blocker_count = zero_finite;
        hard_gates_passed = tt;
        hard_gates_required = tt;
        gates = tt;
        timeline = (fin, tt);
      }

  map_IsFinite :
      (id : String) (event : PromotionEventEnvelope N) (recent : TimelineEventViewModel N)
      (cs : List (CandidateViewModel N))
      → IsFinite js recent
      → All (IsFiniteCandidate js) cs
      → All
          (IsFiniteCandidate js)
          (map (λ c. if is_candidate id c then update_candidate js event recent c else c) cs)
  map_IsFinite id event recent [] fin h = tt
  map_IsFinite id event recent (c ∷ cs) fin (p, h) = (
    if-either (IsFiniteCandidate js) (is_candidate id c)
        (λ named. update_candidate-IsFinite event recent c fin p) (λ other. p),
    map_IsFinite id event recent cs fin h,
  )

  update_candidates-IsFinite :
      (id : String) (event : PromotionEventEnvelope N) (recent : TimelineEventViewModel N)
      (cs : List (CandidateViewModel N))
      → IsFinite js recent
      → All (IsFiniteCandidate js) cs
      → All (IsFiniteCandidate js) (update_candidates js id event recent cs)
  unfolding update_candidates
  update_candidates-IsFinite id event recent cs fin h =
      if-either (All (IsFiniteCandidate js))
        (not (any (is_candidate id) cs) && event.event_type == "CANDIDATE_DISCOVERED")
        (λ discovered. (
          create_discovered_candidate-IsFinite id event recent fin,
          map_IsFinite id event recent cs fin h,
        ))
        (λ known. map_IsFinite id event recent cs fin h)

  apply_to-IsFinite :
      (id : Option String) (d : DashboardViewModel N) (event : PromotionEventEnvelope N)
      → IsFiniteNumber js event.sequence
      → IsFiniteDashboard js d
      → IsFiniteDashboard js (apply_to js id d event)
  unfolding apply_to to_recent_event
  apply_to-IsFinite none d event fin h = record {
    candidates = h.candidates;
    recent_events = push_recent-IsFinite _ d.recent_events fin h.recent_events;
  }
  apply_to-IsFinite (some id) d event fin h = record {
    candidates = update_candidates-IsFinite id event _ d.candidates fin h.candidates;
    recent_events = push_recent-IsFinite _ d.recent_events fin h.recent_events;
  }

  -- Where numerals, and hundredths of finite numbers, are finite, a dashboard in which every number of
  -- the candidates (the raw details of a blocker aside) and of the recent events is finite remains so
  -- under an event with a finite sequence number, whatever else the event carries.
  pub apply_promotion_event-IsFinite :
      (d : DashboardViewModel N) (event : PromotionEventEnvelope N)
      → IsFiniteNumber js event.sequence
      → IsFiniteDashboard js d
      → IsFiniteDashboard js (apply_promotion_event js d event)
  unfolding apply_promotion_event
  apply_promotion_event-IsFinite d event = apply_to-IsFinite (truthy event.candidate_id) d event
