-- ===== src/Examples/Live.antt =====
-- Runs of `applyPromotionEvent`, and the theorems about it at these runs.
use agent_promotion_control.Prelude.{
  ℕ, String, ◌≡◌, refl, true, false, none, some, List, [], ◌∷◌, map, arith,
}
use agent_promotion_control.Js.{
  bool, str, obj, Fields, end, field, ◌^^◌, split, join, trim, insert_sorted, sort,
}
use agent_promotion_control.View.{
  CandidateViewModel, TimelineEventViewModel, PromotionEventEnvelope, DashboardViewModel,
}
use agent_promotion_control.Format.{humanize}
use agent_promotion_control.EventCopy.{promotion_event_copy}
use agent_promotion_control.Live.{
  to_record, text, boolean, numeric_value, number, ratio, truthy, create_discovered_candidate,
  to_recent_event, push_recent, push_timeline, normalized_approval_state, update_evaluation,
  update_candidate, update_candidates, apply_promotion_event,
}
use agent_promotion_control.Live.Window.{IsTimeline}
use agent_promotion_control.Live.Orderly.{IsOrderly, apply_promotion_event-IsOrderly}
use agent_promotion_control.Live.Replay.{is_discovery, apply_promotion_event_idem}
use agent_promotion_control.Live.Lookup.{
  candidate_at, entry_after, IsKept, apply_promotion_event_lem,
}
use agent_promotion_control.Examples.Machine.{machine, machine-IsOrdered, print}

abbrev event : ℕ → String → Fields ℕ → PromotionEventEnvelope ℕ
event n event_type payload = record {
  id = "e";
  sequence = n;
  schema_version = 1;
  event_type = event_type;
  occurred_at = "2026-08-01";
  actor = "detector";
  candidate_id = some "c1";
  evaluation_run_id = none;
  schedule_run_id = none;
  registry_operation_id = none;
  correlation_id = "k";
  causation_id = none;
  policy_hash = none;
  payload = payload;
}

abbrev pub discovered : PromotionEventEnvelope ℕ
discovered = event 5 "CANDIDATE_DISCOVERED" (
    field "slug" (str "risk_bot")
      (field "promotion_eligibility" (obj (field "eligible" (bool true) end)) end))

abbrev suspended : PromotionEventEnvelope ℕ
suspended = event 7 "CANDIDATE_SUSPENDED" (field "status" (str "SUSPENDED") end)

abbrev pub empty_dashboard : DashboardViewModel ℕ
empty_dashboard = record {
  generated_at = "";
  candidates = [];
  evaluations = [];
  policies = [];
  schedules = [];
  registry_agents = [];
  recent_events = [];
  live_connected = true;
  demo_mode = false;
}

abbrev pub one_candidate : DashboardViewModel ℕ
one_candidate = apply_promotion_event machine empty_dashboard discovered

unfoldable pub live : Unit {0}
unfolding apply_promotion_event update_candidates create_discovered_candidate update_candidate
    update_evaluation to_recent_event push_recent push_timeline normalized_approval_state to_record
    text boolean numeric_value number ratio promotion_event_copy humanize sort insert_sorted ◌^^◌
    split join trim print
live = tt

abbrev summary : DashboardViewModel ℕ → List (String × String × String)
summary d = map (λ (c : CandidateViewModel ℕ). (c.name, c.stage, c.status)) d.candidates

live_run :
    summary (apply_promotion_event machine one_candidate suspended)
    ≡ ("Risk Bot", "DISCOVERED", "SUSPENDED") ∷ []
unfolding live
live_run = refl

pub empty-IsOrderly : IsOrderly machine 80 empty_dashboard
empty-IsOrderly = record {
  window = record { finite = tt; descending = tt };
  short = omega arith;
  timelines = tt;
  distinct = tt;
}

apply_promotion_event-IsOrderly_example : IsOrderly machine 80 one_candidate
apply_promotion_event-IsOrderly_example =
    apply_promotion_event-IsOrderly machine-IsOrdered 80 empty_dashboard discovered (omega arith)
      refl empty-IsOrderly

empty-IsTimeline : IsTimeline machine []
empty-IsTimeline = empty-IsOrderly.window

no_discovery :
    (id : String)
    → truthy suspended.candidate_id ≡ some id
    → is_discovery id suspended one_candidate.candidates ≡ false
no_discovery id h = ground arith

first-IsTimeline : IsTimeline machine one_candidate.recent_events
first-IsTimeline =
    (apply_promotion_event-IsOrderly machine-IsOrdered 80 empty_dashboard discovered (omega arith)
      refl empty-IsOrderly).window

apply_promotion_event_idem_example :
    apply_promotion_event machine (apply_promotion_event machine one_candidate suspended) suspended
    ≡ apply_promotion_event machine one_candidate suspended
apply_promotion_event_idem_example =
    apply_promotion_event_idem machine-IsOrdered one_candidate suspended refl first-IsTimeline
      no_discovery

abbrev first_event : TimelineEventViewModel ℕ
first_event = to_recent_event machine discovered

-- A discovery that is applied again makes the candidate eligible that it created as not eligible.
replayed :
    let created = create_discovered_candidate machine "c1" discovered first_event in
    (created.promotion_eligible ≡ false)
    × ((update_candidate machine discovered first_event created).promotion_eligible ≡ true)
unfolding live
replayed = (refl, refl)

apply_promotion_event_lem_example :
    ((k : String)
      → candidate_at k (apply_promotion_event machine one_candidate suspended).candidates
        ≡ entry_after machine (some "c1") k suspended (candidate_at k one_candidate.candidates))
    × IsKept one_candidate (apply_promotion_event machine one_candidate suspended)
apply_promotion_event_lem_example = apply_promotion_event_lem machine one_candidate suspended
