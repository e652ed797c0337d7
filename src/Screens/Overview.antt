-- ===== src/Screens/Overview.antt =====
-- packages/promotion-ui/src/views/overview.tsx: the cards, the funnel, the review queue, the event
-- line, the recent versions and the automation owners.
use agent_promotion_control.Prelude.{
  String, Bool, true, none, some, List, [], ◌∷◌, take, length, ltb, ◌-◌, get_or, ◌==◌,
  if◌then◌else◌,
}
use agent_promotion_control.Js.{Runtime, ◌^^◌}
use agent_promotion_control.View.{
  CandidateViewModel, RegistryAgentViewModel, ScheduledJobViewModel, DashboardViewModel,
}
use agent_promotion_control.Format.{
  humanize, format_percent, format_utc, blocker_tone, activation_tone, connection_tone, position,
}
use agent_promotion_control.Routes.{candidate_route}
use agent_promotion_control.Copy.Body.{governed_copy_body}
use agent_promotion_control.Views.{metric_cards, funnel, queue, lifecycle_stages}
use agent_promotion_control.Markup.{
  class_name, identifier, labelled_by, Node, el, styled, plain, line, styled_line, when, each,
  each_index, unless_empty,
}
use agent_promotion_control.Components.{
  Rendering, hidden, screen_intro, status_mark, section_heading, empty_state, draft_link,
  metric_card,
}
use agent_promotion_control.Decision.Page.Records.{timeline_item}
use agent_promotion_control.Screens.Registry.{version_mark}

module _ {N E : Type 0} (js : Runtime N) (rt : Rendering N) where
  unfoldable pub snapshot_mark : DashboardViewModel N → Node E
  snapshot_mark dashboard = styled "div" "pcp-as-of" (
      line "span" "SNAPSHOT / UTC"
      ∷ line "strong" (format_utc js rt.calendar (some dashboard.generated_at))
      ∷ [])

  unfoldable pub overview_metrics : DashboardViewModel N → Node E
  unfolding metric_cards
  overview_metrics dashboard = styled "div" "pcp-metric-grid pcp-metric-grid-three" (
      each (metric_cards js rt.calendar dashboard)
        (λ card. metric_card js rt card.label card.value card.meaning card.tone none)
      ∷ [])

  unfoldable pub funnel_section : DashboardViewModel N → Node E
  unfolding funnel lifecycle_stages
  funnel_section dashboard =
      el "section" (class_name "pcp-section" ∷ labelled_by "lifecycle-funnel" ∷ []) (
        section_heading "01" "Lifecycle position"
          (some "Candidate stage and operational status remain separate.") none
        ∷ el "div" (class_name "pcp-funnel" ∷ identifier "lifecycle-funnel" ∷ []) (
            each_index (funnel dashboard.candidates) (λ (stage, count) i.
              styled "div" "pcp-funnel-step" (
                styled_line "span" "pcp-funnel-index" (position js i)
                ∷ line "strong" (js.to_text (js.of_nat count))
                ∷ line "span" (humanize js stage)
                ∷ when (ltb i (length lifecycle_stages - 1)) (el "i" (hidden ∷ []) [])
                ∷ []))
            ∷ [])
        ∷ [])

  unfoldable pub queue_row : (String → E) → CandidateViewModel N → Node E
  queue_row navigate c = styled "article" "pcp-candidate-row" (
      styled "div" "pcp-row-main" (
        styled_line "span" "pcp-component-code" c.component
        ∷ line "h3" c.name
        ∷ line "p" c.surfaced_reason
        ∷ [])
      ∷ styled "div" "pcp-row-state" (
          status_mark (blocker_tone js c) true (humanize js c.status)
          ∷ line "span" (format_percent js c.evaluation.readiness_percentage ^^ " evidence ready")
          ∷ status_mark (activation_tone c.activation_state) true (humanize js c.activation_state)
          ∷ [])
      ∷ draft_link (navigate (candidate_route c.id)) (some ("Open " ^^ c.name)) "Inspect"
      ∷ [])

  unfoldable pub queue_list : (String → E) → List (CandidateViewModel N) → Node E
  unfolding queue_row
  queue_list navigate candidates =
      el "div" (class_name "pcp-candidate-list" ∷ identifier "review-queue" ∷ [])
        (each candidates (queue_row navigate) ∷ [])

  unfoldable pub queue_section :
      (String → String → Bool) → (String → E) → DashboardViewModel N → Node E
  unfolding queue_list
  queue_section locale_after navigate dashboard =
      el "section" (class_name "pcp-section" ∷ labelled_by "review-queue" ∷ []) (
        section_heading "02" "Review queue" (some "Blocked and pending candidates appear first.")
          (some (draft_link (navigate "/candidates") none "All candidates"))
        ∷ unless_empty (queue locale_after dashboard.candidates)
            (empty_state "No candidates are available for review.")
            (queue_list navigate (queue locale_after dashboard.candidates))
        ∷ [])

  unfoldable pub event_line : DashboardViewModel N → Node E
  event_line dashboard =
      el "ol" (class_name "pcp-event-list" ∷ identifier "recent-events" ∷ [])
        (each (take 7 dashboard.recent_events) (timeline_item js rt) ∷ [])

  unfoldable pub events_section : (String → E) → DashboardViewModel N → Node E
  unfolding event_line
  events_section navigate dashboard =
      el "section" (class_name "pcp-section" ∷ labelled_by "recent-events" ∷ []) (
        section_heading "03" "Durable event line"
          (some "Sequence-backed events remain authoritative after reconnects.")
          (some (draft_link (navigate "/audit") none "Full audit"))
        ∷ unless_empty dashboard.recent_events
            (empty_state "No promotion events have been recorded.") (event_line dashboard)
        ∷ [])

  unfoldable pub recent_version : RegistryAgentViewModel N → Node E
  recent_version agent = plain "li" (
      plain "div" (
        line "strong" agent.name
        ∷ line "span" (
            "Version "
            ^^ js.to_text agent.version
            ^^ " · "
            ^^ format_utc js rt.calendar (some agent.promoted_at))
        ∷ [])
      ∷ version_mark js rt true agent
      ∷ [])

  unfoldable pub versions_section : (String → E) → DashboardViewModel N → Node E
  unfolding recent_version
  versions_section navigate dashboard = styled "section" "pcp-section" (
      section_heading "04" "Recently promoted"
        (some "Only worker-activated immutable versions appear here.")
        (some (draft_link (navigate "/registry") none "Open registry"))
      ∷ unless_empty dashboard.registry_agents
          (empty_state "No recent registry activation is visible.")
          (styled "ol" "pcp-compact-operations"
            (each (take 4 dashboard.registry_agents) recent_version ∷ []))
      ∷ [])

  unfoldable pub schedule_owner : ScheduledJobViewModel N → Node E
  schedule_owner job = plain "li" (
      plain "div" (
        line "strong" job.name
        ∷ line "span" (
            job.trigger_owner
            ^^ " · Next expected: "
            ^^ (if get_or job.next_expected_trigger_at "" == ""
                then "No trigger expected"
                else format_utc js rt.calendar job.next_expected_trigger_at))
        ∷ [])
      ∷ status_mark (connection_tone job.connection_state) true (humanize js job.connection_state)
      ∷ [])

  unfoldable pub schedules_section : (String → E) → DashboardViewModel N → Node E
  unfolding schedule_owner
  schedules_section navigate dashboard = styled "section" "pcp-section" (
      section_heading "05" "Named automation owners"
        (some "Next expected times describe external triggers, not internal cron.")
        (some (draft_link (navigate "/automation") none "Open automation"))
      ∷ unless_empty dashboard.schedules (empty_state "No observed schedules are configured.") (
          styled "ol" "pcp-compact-operations"
            (each (take 4 dashboard.schedules) schedule_owner ∷ []))
      ∷ [])

  unfoldable pub overview_view :
      (String → String → Bool) → (String → E) → DashboardViewModel N → Node E
  overview_view locale_after navigate dashboard = styled "div" "pcp-view" (
      screen_intro "OVERVIEW / EVIDENCE TO ACTIVATION" "Promotion control plane"
        governed_copy_body.screens.overview.line1 governed_copy_body.screens.overview.line2
        (some (snapshot_mark dashboard))
      ∷ overview_metrics dashboard
      ∷ funnel_section dashboard
      ∷ styled "div" "pcp-dashboard-columns"
          (queue_section locale_after navigate dashboard ∷ events_section navigate dashboard ∷ [])
      ∷ styled "div" "pcp-overview-operations"
          (versions_section navigate dashboard ∷ schedules_section navigate dashboard ∷ [])
      ∷ [])
