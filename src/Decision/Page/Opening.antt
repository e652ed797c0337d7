-- ===== src/Decision/Page/Opening.antt =====
-- packages/promotion-ui/src/views/candidate-detail.tsx: the view without a candidate, and above the
-- matrix: the introduction, the origin, the three metrics, the journey and the blocker.
use agent_promotion_control.Prelude.{false, none, some, [], ◌∷◌, if◌then◌else◌}
use agent_promotion_control.Js.{Runtime, ◌^^◌}
use agent_promotion_control.View.{CandidateViewModel, BlockerViewModel}
use agent_promotion_control.Live.{truthy}
use agent_promotion_control.Format.{
  neutral, comparison, degraded, humanize, format_percent, format_utc, blocker_tone,
  activation_tone, position,
}
use agent_promotion_control.Copy.Body.{GovernedScreenCopy, governed_copy_body}
use agent_promotion_control.Views.{detail_value, journey_marks}
use agent_promotion_control.Markup.{
  class_name, identifier, labelled_by, named, flag, on_press, Node, text, el, styled, plain, line,
  styled_line, when, optional, each_index, fact,
}
use agent_promotion_control.Components.{
  Rendering, tone_name, hidden, button_type, screen_intro, status_mark, section_heading, draft_link,
  technical_ref, metric_card,
}
use agent_promotion_control.Decision.{has_blocker}
use agent_promotion_control.Decision.Panel.{
  Screen, registry_pending, registry_failure, blocker, candidate, active_copy, first,
  blocker_notice, activation_meaning,
}
use agent_promotion_control.Decision.Page.{Press, go}

unfoldable pub screen_copy : Screen → GovernedScreenCopy
unfolding governed_copy_body
screen_copy registry_pending = governed_copy_body.screens.registry_pending
screen_copy registry_failure = governed_copy_body.screens.registry_failure
screen_copy blocker = governed_copy_body.screens.blocker
screen_copy candidate = governed_copy_body.screens.candidate

-- `if (!candidate) return …`.
unfoldable pub unavailable_candidate : Node Press
unavailable_candidate = styled "div" "pcp-view" (
    screen_intro "CANDIDATE / NOT FOUND" "Candidate unavailable"
      "This candidate record is not present in the current control-plane snapshot."
      "Return to the inventory and select an available candidate for review." none
    ∷ draft_link (go "/candidates") none "Return to candidates"
    ∷ [])

module _ {N : Type 0} (js : Runtime N) (rt : Rendering N) where
  unfoldable pub breadcrumbs : CandidateViewModel N → Node Press
  breadcrumbs c = styled "div" "pcp-breadcrumbs" (
      el "button" (button_type ∷ on_press (some (go "/candidates")) ∷ []) (text "Candidates" ∷ [])
      ∷ el "span" (hidden ∷ []) (text "/" ∷ [])
      ∷ line "span" c.name
      ∷ [])

  unfoldable pub intro_status : CandidateViewModel N → Node Press
  intro_status c = styled "div" "pcp-intro-status" (
      status_mark (blocker_tone js c) false (humanize js c.status)
      ∷ line "span" ("Revision " ^^ js.to_text c.revision)
      ∷ [])

  unfoldable pub introduction : CandidateViewModel N → Node Press
  unfolding screen_copy intro_status
  introduction c =
      screen_intro (c.component ^^ " / " ^^ js.to_upper_case (humanize js c.stage)) c.name
        (screen_copy (active_copy c)).line1 (screen_copy (active_copy c)).line2
        (some (intro_status c))

  unfoldable pub origin : CandidateViewModel N → Node Press
  origin c = styled "section" "pcp-candidate-origin" (
      plain "div" (
        styled_line "p" "pcp-label" "WHY THIS CANDIDATE SURFACED"
        ∷ line "h2" c.surfaced_reason
        ∷ line "p" c.description
        ∷ [])
      ∷ plain "dl" (
          fact "Detector lineage" c.detector_lineage
          ∷ fact "Policy" c.policy_name
          ∷ fact "Last material change" (format_utc js rt.calendar (some c.updated_at))
          ∷ [])
      ∷ [])

  unfoldable pub metrics : CandidateViewModel N → Node Press
  metrics c = styled "div" "pcp-metric-grid pcp-metric-grid-three" (
      metric_card js rt "Evaluation readiness" (format_percent js c.evaluation.readiness_percentage)
        "Evidence completeness only. Approval and activation are separate." comparison
        (some c.evaluation.readiness_percentage)
      ∷ metric_card js rt "Promotion eligibility"
          (if c.promotion_eligible then "Eligible" else "Not eligible")
          (if c.promotion_eligible
            then "Evidence and lifecycle requirements permit a decision."
            else "A required gate, sample, result, or approval remains.")
          (if c.promotion_eligible then neutral else degraded) none
      ∷ metric_card js rt "Registry activation" (humanize js c.activation_state)
          (activation_meaning c) (activation_tone c.activation_state) none
      ∷ [])

  unfoldable pub lifecycle_journey : CandidateViewModel N → Node Press
  unfolding journey_marks
  lifecycle_journey c = styled "section" "pcp-section" (
      section_heading "01" "Lifecycle journey" (some "The current stage has a solid drafting mark.")
        none
      ∷ styled "ol" "pcp-journey" (
          each_index (journey_marks c.stage c.journey) (λ (stage, current, complete) i.
            el "li" (flag "data-current" current ∷ flag "data-complete" complete ∷ [])
              (line "span" (position js i) ∷ line "strong" (humanize js stage) ∷ []))
          ∷ [])
      ∷ [])

  unfoldable pub blocker_facts : BlockerViewModel N → Node Press
  unfolding detail_value
  blocker_facts b = styled "dl" "pcp-blocker-facts" (
      optional
        (truthy
          (detail_value js b.details ("current_measurement" ∷ "current_value" ∷ "observed" ∷ [])))
        (fact "Current measurement")
      ∷ optional
          (truthy (detail_value js b.details ("threshold" ∷ "required_threshold" ∷ "limit" ∷ [])))
          (fact "Required threshold")
      ∷ fact "Recovery action" b.recovery
      ∷ [])

  unfoldable pub blocker_section : CandidateViewModel N → Node Press
  unfolding tone_name blocker_facts
  blocker_section c =
      let (heading, explanation) = blocker_notice governed_copy_body.screens.blocker.line2 c in
      el "section"
        (class_name "pcp-blocker"
          ∷ named "data-tone" (tone_name (blocker_tone js c))
          ∷ labelled_by "candidate-blocker"
          ∷ [])
        (el "span" (class_name "pcp-blocker-mark" ∷ hidden ∷ []) (text "!" ∷ [])
          ∷ plain "div" (
              styled_line "p" "pcp-label" "REQUIRED ACTION"
              ∷ el "h2" (identifier "candidate-blocker" ∷ []) (text heading ∷ [])
              ∷ line "p" explanation
              ∷ optional (first c.blockers) blocker_facts
              ∷ optional (truthy c.blocker_code) (technical_ref "Blocker code")
              ∷ [])
          ∷ [])

  unfoldable pub blocker_part : CandidateViewModel N → Node Press
  unfolding blocker_section
  blocker_part c = when (has_blocker c) (blocker_section c)
