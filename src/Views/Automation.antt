-- ===== src/Views/Automation.antt =====
-- packages/promotion-ui/src/views/automation.tsx: the demo cycle, and what a schedule shows.
-- `on_mutation` and `mutate` are the callback and the data source that the view is given, `uuid` is
-- the value of `crypto.randomUUID()`, `type_error` the message of a call on a missing one.
use agent_promotion_control.Prelude.{
  String, Bool, ◌&&◌, ◌||◌, not, true, false, Option, none, some, List, [], ◌∷◌, keep, find,
  is_some, ◌or_else◌, ◌==◌, if◌then◌else◌,
}
use agent_promotion_control.Js.{Value, Runtime, ◌^^◌, includes, sort}
use agent_promotion_control.View.{
  CandidateViewModel, TimelineEventViewModel, PromotionMutation, demo_cycle,
  LifecycleDecisionResult, ScheduledJobViewModel,
}
use agent_promotion_control.Fetch.{Outcome, returns, throws}
use agent_promotion_control.Api.{has_text}
use agent_promotion_control.Format.{humanize}

unfoldable pub cycle_event_types : List String
cycle_event_types =
    "CANDIDATE_DISCOVERED" ∷ "EVALUATION_PLANNED" ∷ "EVALUATION_STARTED" ∷ "EVALUATION_COMPLETED"
    ∷ "ELIGIBILITY_DECIDED" ∷ "PROMOTION_APPROVED" ∷ "PROMOTION_REGISTRY_QUEUED" ∷ "PROMOTED"
    ∷ "POST_PROMOTION_MONITORING_OBSERVED" ∷ []

module _ {N : Type 0} where
  unfoldable pub cycle_candidate : List (CandidateViewModel N) → Option (CandidateViewModel N)
  cycle_candidate candidates =
      find (λ candidate. candidate.slug == "change-risk-coordinator") candidates
      or_else find (λ candidate. includes candidate.description "autonomous cycle") candidates

  unfoldable pub cycle_mutation : String → PromotionMutation N
  cycle_mutation uuid = record {
    resource = demo_cycle;
    id = "autonomous-cycle";
    expected_candidate_revision = none;
    body = none;
    idempotency_key = uuid;
  }

  -- `onGovernedMutation!(mutation)` or `dataSource!.mutate(mutation)`, and the message after it.
  unfoldable pub dispatched :
      {A : Type 0}
      → Option (PromotionMutation N → Outcome A)
      → String
      → PromotionMutation N
      → String
  dispatched none type_error mutation = type_error
  dispatched (some send) type_error mutation = elim (send mutation) [
    | throws message ↦ message
    | returns value ↦
        "Dispatched the demo cycle. Durable job runs will appear through the event stream."
  ]

  -- `runCycle`, with the message that it leaves if it gets beyond its two tests.
  unfoldable pub run_cycle :
      Bool
      → Option (PromotionMutation N → Outcome (LifecycleDecisionResult N))
      → Option (PromotionMutation N → Outcome (Value N))
      → Bool
      → String
      → String
      → Option String
  unfolding cycle_mutation dispatched
  run_cycle demo_mode on_mutation mutate embedded type_error uuid =
      if not demo_mode
      then none
      else if (not (is_some mutate) && not (is_some on_mutation))
          || (embedded && not (is_some on_mutation))
      then none
      else if embedded
      then some (dispatched on_mutation type_error (cycle_mutation uuid))
      else some (dispatched mutate type_error (cycle_mutation uuid))

-- The button is not disabled.
unfoldable pub can_run : {A B : Type 0} → Bool → Bool → Bool → Option A → Option B → Bool
can_run demo_mode running embedded on_mutation mutate = not (
    not demo_mode
    || running
    || (if embedded then not (is_some on_mutation) else not (is_some mutate)))

unfoldable pub run_label : {A : Type 0} → Bool → Bool → Bool → Option A → String
run_label demo_mode running embedded on_mutation =
    if not demo_mode
    then "Demo cycle unavailable"
    else if running
    then "Dispatching cycle…"
    else if embedded && not (is_some on_mutation)
    then "Attention callback required"
    else "Run autonomous cycle"

unfoldable pub dispatch_cell : Option Bool → String
dispatch_cell none = "Not reported"
dispatch_cell (some true) = "Enabled by owner"
dispatch_cell (some false) = "Disabled by owner"

module _ {N : Type 0} (js : Runtime N) where
  -- The comparator `left.sequence - right.sequence` is positive.
  abbrev pub ahead : TimelineEventViewModel N → TimelineEventViewModel N → Bool
  ahead left right = js.gt (js.minus left.sequence right.sequence) (js.of_nat 0)

  unfoldable pub cycle_events : CandidateViewModel N → List (TimelineEventViewModel N)
  unfolding cycle_event_types
  cycle_events candidate =
      sort ahead (keep (λ event. has_text event.event_type cycle_event_types) candidate.timeline)

  abbrev or_text : Option String → String → String
  or_text none d = d
  or_text (some s) d = if s == "" then d else humanize js s

  -- The last line of a schedule: its connection's message, or its last result.
  unfoldable pub schedule_note : ScheduledJobViewModel N → String
  schedule_note job =
      if job.connection_state == "DISCONNECTED"
      then job.connection_message
      else "Last result: " ^^ or_text job.last_run_state "Not reported"

  unfoldable pub duration_cell : ScheduledJobViewModel N → String
  duration_cell job = elim job.last_duration_seconds [
    | none ↦ "Not reported"
    | some seconds ↦ js.to_fixed seconds ^^ " seconds"
  ]

  unfoldable pub activity_cell : ScheduledJobViewModel N → String
  activity_cell job = or_text job.current_activity "No active run reported"
