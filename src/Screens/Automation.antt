-- ===== src/Screens/Automation.antt =====
-- packages/promotion-ui/src/views/automation.tsx: the demo cycle and the schedules. `running` and
-- `message` are the state of the view, `run` the call of `runCycle`.
use agent_promotion_control.Prelude.{
  ℕ, String, Bool, not, true, false, some, [], ◌∷◌, take, get_or, ◌==◌, if◌then◌else◌,
}
use agent_promotion_control.Js.{Runtime, ◌^^◌}
use agent_promotion_control.View.{CandidateViewModel, ScheduledJobViewModel, DashboardViewModel}
use agent_promotion_control.Live.{truthy}
use agent_promotion_control.Format.{
  humanize, format_percent, format_utc, activation_tone, connection_tone, position,
}
use agent_promotion_control.Copy.Body.{governed_copy_body}
use agent_promotion_control.Views.{
  cycle_candidate, cycle_events, can_run, run_label, dispatch_cell, schedule_note, duration_cell,
  activity_cell,
}
use agent_promotion_control.Markup.{
  class_name, identifier, labelled_by, disabled, named, on_press, Node, text, el, styled, plain,
  line, styled_line, nothing, optional, each, each_index, unless_empty, fact,
}
use agent_promotion_control.Components.{
  Rendering, hidden, button_type, screen_intro, status_mark, empty_state,
}
use agent_promotion_control.Decision.Panel.{Transports}
use agent_promotion_control.Screens.Registry.{sheet_row, number_or}

module _ {N E : Type 0} where
  unfoldable pub run_button : E → Transports N → Bool → Bool → Node E
  unfolding can_run run_label
  run_button run ts running demo_mode =
      el "button"
        (class_name "pcp-primary-action"
          ∷ button_type
          ∷ on_press (some run)
          ∷ disabled (not (can_run demo_mode running ts.embedded ts.on_mutation ts.mutate))
          ∷ [])
        (text (run_label demo_mode running ts.embedded ts.on_mutation) ∷ [])

module _ {E : Type 0} where
  -- What the command does and how it is undone, or that there is none.
  unfoldable pub cycle_terms : Bool → Node E
  unfolding governed_copy_body
  cycle_terms true = plain "p" (
      line "b" "Consequence:"
      ∷ text (" " ^^ governed_copy_body.actions.run_cycle.consequence ^^ " ")
      ∷ line "b" "Undo:"
      ∷ text (" " ^^ governed_copy_body.actions.run_cycle.undo)
      ∷ [])
  cycle_terms false = line "p" "Demo mutations are disabled in this environment."

  unfoldable pub schedule_notice : Bool → Node E
  unfolding cycle_terms
  schedule_notice demo_mode = styled "div" "pcp-schedule-notice" (
      el "span" (class_name "pcp-drafting-cross" ∷ hidden ∷ []) []
      ∷ plain "div" (
          line "strong" "This control plane does not execute cron."
          ∷ line "p" (
              if demo_mode
              then "The demo command, command-line interface, application programming interface, or named external scheduler triggers each job."
              else "A command-line interface, application programming interface, or named external scheduler triggers each job.")
          ∷ cycle_terms demo_mode
          ∷ [])
      ∷ [])

  unfoldable pub message_line : String → Node E
  message_line message =
      el "p" (class_name "pcp-action-result" ∷ named "role" "status" ∷ []) (text message ∷ [])

module _ {N E : Type 0} (js : Runtime N) (rt : Rendering N) where
  unfoldable pub cycle_section : CandidateViewModel N → Node E
  unfolding cycle_events
  cycle_section c =
      el "section"
        (class_name "pcp-cycle-progress"
          ∷ labelled_by "live-autonomous-cycle"
          ∷ named "aria-live" "polite"
          ∷ [])
        (plain "header" (
            plain "div" (
              styled_line "p" "pcp-eyebrow" "LIVE WORKER EVIDENCE"
              ∷ el "h2" (identifier "live-autonomous-cycle" ∷ [])
                  (text "Live autonomous cycle" ∷ [])
              ∷ line "p"
                  "The autonomous cycle advances this candidate through durable worker events."
              ∷ line "p" "Follow each event below; no page reload is required."
              ∷ [])
            ∷ status_mark (activation_tone c.activation_state) false (humanize js c.stage)
            ∷ [])
          ∷ styled "div" "pcp-cycle-candidate" (
              sheet_row "Candidate" c.name
              ∷ sheet_row "Evaluation evidence"
                  (format_percent js c.evaluation.readiness_percentage)
              ∷ sheet_row "Registry activation" (humanize js c.activation_state)
              ∷ [])
          ∷ plain "ol" (
              each (cycle_events js c) (λ event. plain "li" (
                line "span" ("#" ^^ js.to_text event.sequence)
                ∷ line "strong" (humanize js event.event_type)
                ∷ []))
              ∷ [])
          ∷ [])

  unfoldable pub schedule_facts : ScheduledJobViewModel N → Node E
  unfolding dispatch_cell
  schedule_facts job = plain "dl" (
      fact "Job type" (humanize js job.job_type)
      ∷ fact "Dispatch state" (dispatch_cell job.enabled)
      ∷ fact "Trigger owner" job.trigger_owner
      ∷ fact "Owner reference" job.owner_reference
      ∷ fact "Schedule" (job.schedule_expression ^^ " · " ^^ job.timezone)
      ∷ fact "Last observed run" (format_utc js rt.calendar job.last_observed_run_at)
      ∷ fact "Next expected trigger" (
          if get_or job.next_expected_trigger_at "" == ""
          then "No trigger is expected"
          else format_utc js rt.calendar job.next_expected_trigger_at)
      ∷ fact "Grace window" (js.to_text job.grace_window_minutes ^^ " minutes")
      ∷ fact "Observed runs" (number_or js "Not reported" job.run_count)
      ∷ fact "Observed failures" (number_or js "Not reported" job.failure_count)
      ∷ fact "Current activity" (activity_cell js job)
      ∷ fact "Last duration" (duration_cell js job)
      ∷ [])

  -- The last line of a schedule: its connection's message if it is disconnected.
  unfoldable pub note_line : ScheduledJobViewModel N → Node E
  note_line job =
      if job.connection_state == "DISCONNECTED"
      then styled "p" "pcp-inline-blocker"
          (el "span" (hidden ∷ []) (text "!" ∷ []) ∷ text (" " ^^ schedule_note js job) ∷ [])
      else styled_line "p" "pcp-quiet-state" (schedule_note js job)

  unfoldable pub run_history : ScheduledJobViewModel N → Node E
  run_history job =
      el "ol"
        (class_name "pcp-schedule-history" ∷ named "aria-label" (job.name ^^ " recent runs") ∷ [])
        (each (take 3 job.recent_runs) (λ run. plain "li" (
            line "strong" (humanize js run.state)
            ∷ line "span" (
                run.triggered_by
                ^^ " · "
                ^^ format_utc js rt.calendar (some run.observed_at)
                ^^ " · attempt "
                ^^ js.to_text run.attempt_count)
            ∷ []))
          ∷ [])

  unfoldable pub schedule_card : ScheduledJobViewModel N → ℕ → Node E
  schedule_card job i =
      el "article" (named "data-connection" (js.to_lower_case job.connection_state) ∷ []) (
        plain "header" (
          styled_line "span" "pcp-card-index" (position js i)
          ∷ status_mark (connection_tone job.connection_state) true
              (humanize js job.connection_state)
          ∷ [])
        ∷ styled_line "p" "pcp-eyebrow" job.trigger_mode
        ∷ line "h2" job.name
        ∷ line "p" job.description
        ∷ schedule_facts job
        ∷ note_line job
        ∷ unless_empty job.recent_runs nothing (run_history job)
        ∷ [])

  unfoldable pub automation_view : E → Transports N → Bool → String → DashboardViewModel N → Node E
  automation_view run ts running message dashboard = styled "div" "pcp-view" (
      screen_intro "AUTOMATION / OBSERVED SCHEDULES" "Trigger ownership"
        governed_copy_body.screens.automation.line1 governed_copy_body.screens.automation.line2
        (some (run_button run ts running dashboard.demo_mode))
      ∷ schedule_notice dashboard.demo_mode
      ∷ optional (truthy (some message)) message_line
      ∷ optional (cycle_candidate dashboard.candidates) cycle_section
      ∷ unless_empty dashboard.schedules (empty_state "No observed schedules are configured.")
          (styled "div" "pcp-schedule-grid" (each_index dashboard.schedules schedule_card ∷ []))
      ∷ [])
