-- ===== src/Views/Overview.antt =====
-- packages/promotion-ui/src/views/overview.tsx: the counts, the funnel and the queue.
use agent_promotion_control.Prelude.{
  ℕ, String, Bool, ◌&&◌, ◌||◌, some, List, [], ◌∷◌, map, keep, take, length, ltb, nat_eq, ◌==◌,
  if◌then◌else◌,
}
use agent_promotion_control.Js.{Runtime, ◌^^◌, sort}
use agent_promotion_control.View.{
  CandidateViewModel, TimelineEventViewModel, EvaluationRunViewModel, ScheduledJobViewModel,
  DashboardViewModel,
}
use agent_promotion_control.Format.{
  VisualTone, neutral, decision, comparison, degraded, format_utc, two_digits,
}

unfoldable pub lifecycle_stages : List String
lifecycle_stages =
    "DISCOVERED" ∷ "CANDIDATE" ∷ "EVALUATING" ∷ "ELIGIBLE" ∷ "SHADOW" ∷ "PROMOTED" ∷ "MONITORED"
    ∷ []

pub record MetricCard : Type 0 where
  pub label : String
  pub value : String
  pub meaning : String
  pub tone : VisualTone

abbrev pub count_of {κ} : {A : Type κ} → (A → Bool) → List A → ℕ
count_of p xs = length (keep p xs)

module _ {N : Type 0} where
  abbrev pub is_blocked : CandidateViewModel N → Bool
  is_blocked candidate = candidate.status == "BLOCKED"

  abbrev pub awaits_decision : CandidateViewModel N → Bool
  awaits_decision candidate =
      candidate.promotion_eligible && candidate.activation_state == "NOT_REQUESTED"

  abbrev is_running : EvaluationRunViewModel N → Bool
  is_running run = run.state == "RUNNING" || run.state == "QUEUED"

  abbrev is_promotion : TimelineEventViewModel N → Bool
  is_promotion event = event.event_type == "PROMOTED"

  abbrev is_connected : ScheduledJobViewModel N → Bool
  is_connected job = job.connection_state == "CONNECTED"

  abbrev pub priority : CandidateViewModel N → ℕ
  priority candidate =
      if candidate.status == "BLOCKED"
      then 0
      else if candidate.status == "PROMOTION_PENDING"
      then 1
      else 2

  -- The comparator is positive. `locale_after a b` is `a.localeCompare(b) > 0`.
  abbrev pub queue_after :
      (String → String → Bool) → CandidateViewModel N → CandidateViewModel N → Bool
  queue_after locale_after left right =
      ltb (priority right) (priority left)
      || (nat_eq (priority left) (priority right) && locale_after right.updated_at left.updated_at)

  unfoldable pub queue :
      (String → String → Bool) → List (CandidateViewModel N) → List (CandidateViewModel N)
  queue locale_after candidates = take 6 (sort (queue_after locale_after) candidates)

  -- The stages of the funnel, each with the number of its candidates.
  unfoldable pub funnel : List (CandidateViewModel N) → List (String × ℕ)
  unfolding lifecycle_stages
  funnel candidates =
      map (λ stage. (stage, count_of (λ candidate. candidate.stage == stage) candidates))
        lifecycle_stages

module _ {N : Type 0} (js : Runtime N) (calendar : N → String) where
  abbrev velocity : List (TimelineEventViewModel N) → String
  velocity [] = "No activation appears in the current event window."
  velocity (event ∷ events) =
      "Latest visible activation: " ^^ format_utc js calendar (some event.occurred_at) ^^ "."

  unfoldable pub metric_cards : DashboardViewModel N → List MetricCard
  metric_cards dashboard =
      let blocked = count_of is_blocked dashboard.candidates in
      let running = count_of is_running dashboard.evaluations in
      let promotions = keep is_promotion dashboard.recent_events in
      let connected = count_of is_connected dashboard.schedules in
      record {
        label = "Awaiting lifecycle decision";
        value = two_digits js (count_of awaits_decision dashboard.candidates);
        meaning = "Eligible candidates with complete evidence.";
        tone = decision;
      }
      ∷ record {
        label = "Blocked candidates";
        value = two_digits js blocked;
        meaning = "A failed or remaining requirement stops promotion.";
        tone = if ltb 0 blocked then degraded else neutral;
      }
      ∷ record {
        label = "Worker queue";
        value = two_digits js running;
        meaning = "Evaluation and publication work awaiting leases.";
        tone = if ltb 0 running then comparison else neutral;
      }
      ∷ record {
        label = "Immutable versions";
        value = two_digits js (length dashboard.registry_agents);
        meaning = "Registry activations completed by the worker.";
        tone = neutral;
      }
      ∷ record {
        label = "Promotion velocity";
        value = two_digits js (length promotions);
        meaning = velocity promotions;
        tone = comparison;
      }
      ∷ record {
        label = "Automation health";
        value =
            js.to_text (js.of_nat connected)
            ^^ "/"
            ^^ js.to_text (js.of_nat (length dashboard.schedules));
        meaning = "Named schedule owners currently connected.";
        tone = if nat_eq connected (length dashboard.schedules) then neutral else degraded;
      }
      ∷ []
