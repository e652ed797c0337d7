-- ===== src/Screens/Labels.antt =====
-- packages/promotion-ui/src/views: the whole outlines of overview.tsx and automation.tsx, the main
-- heading of each view, and the elements that label others.
use mathlib.Core.List.{append-nil, append_assoc}
use agent_promotion_control.Prelude.{
  ◌≡◌, refl, ℕ, String, Bool, not, true, false, Option, none, some, List, [], ◌∷◌, ◌++◌,
  if◌then◌else◌, if-either, Bool-cases, ◌==◌, inl, inr,
}
use agent_promotion_control.Js.{Runtime}
use agent_promotion_control.View.{
  CandidateViewModel, ScheduledJobViewModel, TimelineEventViewModel, DashboardViewModel,
}
use agent_promotion_control.Views.{can_run, cycle_candidate, queue}
use agent_promotion_control.Markup.{nothing, optional}
use agent_promotion_control.Markup.Outline.{
  Mark, main_heading, declared, referred, press, outline, IsQuiet,
}
use agent_promotion_control.Markup.Quiet.{marks_of, unless_empty-IsQuiet}
use agent_promotion_control.Markup.Marks.{main_headings, declares, resolves_in}
use agent_promotion_control.Markup.Sound.{IsSound, marks_of-IsSound}
use agent_promotion_control.Components.{Rendering, screen_intro}
use agent_promotion_control.Components.Outlines.{component_outlines}
use agent_promotion_control.Decision.Panel.{Transports}
use agent_promotion_control.Screens.Overview.{overview_view, snapshot_mark}
use agent_promotion_control.Screens.Automation.{
  run_button, cycle_terms, schedule_notice, message_line, cycle_section, schedule_facts, note_line,
  run_history, schedule_card, automation_view,
}
use agent_promotion_control.Screens.Front.{
  queue_marks, event_marks, overview_metrics-IsQuiet, outline-funnel_section, outline-queue_section,
  outline-events_section, outline-versions_section, outline-schedules_section,
}

-- The list has something.
abbrev pub has_any {ℓ} : {A : Type ℓ} → List A → Bool
has_any [] = false
has_any (x ∷ xs) = true

module _ {N E : Type 0} (js : Runtime N) (rt : Rendering N) where
  abbrev pub overview_marks :
      (String → E) → List (CandidateViewModel N) → List (TimelineEventViewModel N) → List (Mark E)
  overview_marks navigate candidates events =
      main_heading
        ∷ referred "lifecycle-funnel"
        ∷ declared "lifecycle-funnel"
        ∷ referred "review-queue"
        ∷ press (navigate "/candidates")
        ∷ queue_marks js rt navigate candidates
      ++ (referred "recent-events" ∷ press (navigate "/audit") ∷ event_marks js rt events)
      ++ press (navigate "/registry") ∷ press (navigate "/automation") ∷ []

  snapshot_mark-IsQuiet :
      (dashboard : DashboardViewModel N) → IsQuiet {E = E} (snapshot_mark js rt dashboard)
  unfolding snapshot_mark outline
  snapshot_mark-IsQuiet dashboard = refl

  pub outline-overview_view :
      (locale_after : String → String → Bool) (navigate : String → E)
      (dashboard : DashboardViewModel N)
      → outline (overview_view js rt locale_after navigate dashboard)
        ≡ overview_marks navigate (queue locale_after dashboard.candidates) dashboard.recent_events
  unfolding overview_view outline
  outline-overview_view locale_after navigate dashboard = simp (
    append-nil,
    append_assoc,
    component_outlines,
    snapshot_mark-IsQuiet,
    overview_metrics-IsQuiet js rt,
    outline-funnel_section js rt,
    outline-queue_section js rt,
    outline-events_section js rt,
    outline-versions_section js rt,
    outline-schedules_section js rt,
  )

  abbrev pub button_mark : E → Bool → List (Mark E)
  button_mark run off = if off then [] else press run ∷ []

  schedule_facts-IsQuiet :
      (job : ScheduledJobViewModel N) → IsQuiet {E = E} (schedule_facts js rt job)
  unfolding schedule_facts outline
  schedule_facts-IsQuiet job = refl

  note_line-IsQuiet : (job : ScheduledJobViewModel N) → IsQuiet {E = E} (note_line js rt job)
  unfolding note_line outline
  note_line-IsQuiet job =
      if-either IsQuiet (job.connection_state == "DISCONNECTED") (λ h. refl) (λ h. refl)

  run_history-IsQuiet : (job : ScheduledJobViewModel N) → IsQuiet {E = E} (run_history js rt job)
  unfolding run_history outline
  run_history-IsQuiet job = simp component_outlines

  schedule_card-IsQuiet :
      (job : ScheduledJobViewModel N) (i : ℕ) → IsQuiet {E = E} (schedule_card js rt job i)
  unfolding schedule_card outline
  schedule_card-IsQuiet job i = simp (
    component_outlines,
    schedule_facts-IsQuiet,
    note_line-IsQuiet,
    unless_empty-IsQuiet job.recent_runs nothing (run_history js rt job) refl
        (run_history-IsQuiet job),
  )

  abbrev pub cycle_marks : Option (CandidateViewModel N) → List (Mark E)
  cycle_marks none = []
  cycle_marks (some c) = referred "live-autonomous-cycle" ∷ declared "live-autonomous-cycle" ∷ []

  outline-cycle_section :
      (c : CandidateViewModel N)
      → outline {E = E} (cycle_section js rt c)
        ≡ referred "live-autonomous-cycle" ∷ declared "live-autonomous-cycle" ∷ []
  unfolding cycle_section outline
  outline-cycle_section c = simp component_outlines

  outline-cycle :
      (c : Option (CandidateViewModel N))
      → outline {E = E} (optional c (cycle_section js rt)) ≡ cycle_marks c
  unfolding outline
  outline-cycle none = refl
  outline-cycle (some c) = outline-cycle_section c

  schedule_notice-IsQuiet : (demo_mode : Bool) → IsQuiet {E = E} (schedule_notice demo_mode)
  unfolding schedule_notice cycle_terms outline
  schedule_notice-IsQuiet true = refl
  schedule_notice-IsQuiet false = refl

  message_line-IsQuiet : (message : String) → IsQuiet {E = E} (message_line message)
  unfolding message_line outline
  message_line-IsQuiet message = refl

  outline-run_button :
      (run : E) (ts : Transports N) (running demo_mode : Bool)
      → outline (run_button run ts running demo_mode)
        ≡ button_mark run (not (can_run demo_mode running ts.embedded ts.on_mutation ts.mutate))
  unfolding run_button outline can_run
  outline-run_button run ts running demo_mode =
      elim (Bool-cases (not (can_run demo_mode running ts.embedded ts.on_mutation ts.mutate))) [
        | inl off ↦ rw off refl
        | inr enabled ↦ rw enabled refl
      ]

  pub outline-automation_view :
      (run : E) (ts : Transports N) (running : Bool) (message : String)
      (dashboard : DashboardViewModel N)
      → outline (automation_view js rt run ts running message dashboard)
        ≡ main_heading
            ∷ button_mark run
                (not (can_run dashboard.demo_mode running ts.embedded ts.on_mutation ts.mutate))
          ++ cycle_marks (cycle_candidate dashboard.candidates)
  unfolding automation_view screen_intro outline
  outline-automation_view run ts running message dashboard = simp (
    append-nil, component_outlines, outline-run_button, schedule_notice-IsQuiet,
    message_line-IsQuiet, outline-cycle, schedule_card-IsQuiet,
  )

  -- The links of a list.
  pub presses-IsSound :
      {A : Type 0} (whole : List (Mark E)) (call : A → E) (xs : List A)
      → IsSound whole (marks_of (λ x. press (call x) ∷ []) xs)
  unfolding main_headings resolves_in
  presses-IsSound whole call xs =
      marks_of-IsSound whole (λ x. press (call x) ∷ []) xs (λ x. (refl, refl))

  pub declares-presses :
      {A : Type 0} (id : String) (call : A → E) (xs : List A)
      → declares id (marks_of (λ x. press (call x) ∷ []) xs) ≡ false
  unfolding declares
  declares-presses id call [] = refl
  declares-presses id call (x ∷ xs) = declares-presses id call xs
