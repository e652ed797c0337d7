-- ===== src/Decision/Page/Aside.antt =====
-- packages/promotion-ui/src/views/candidate-detail.tsx: the decision panel.
use agent_promotion_control.Prelude.{String, true, none, some, [], ◌∷◌, if◌then◌else◌}
use agent_promotion_control.Js.{Runtime, ◌^^◌}
use agent_promotion_control.View.{CandidateViewModel, DecisionViewModel, LifecycleDecisionResult}
use agent_promotion_control.Live.{truthy}
use agent_promotion_control.Format.{humanize, format_utc}
use agent_promotion_control.Copy.Body.{governed_copy_body}
use agent_promotion_control.Markup.{
  class_name, href, disabled, named, on_press, Node, text, el, styled, plain, line, styled_line,
  optional, fact, fact_of,
}
use agent_promotion_control.Components.{
  Rendering, button_type, cold_read, section_heading, technical_ref,
}
use agent_promotion_control.Decision.Panel.{
  Transports, PanelButton, promote, retry, unavailable, panel_button, approval_coverage,
}
use agent_promotion_control.Decision.Dialogs.{DetailState}
use agent_promotion_control.Decision.Page.{Press, open_decision, open_retry, Surroundings}

unfoldable pub button_node : PanelButton → Node Press
unfolding governed_copy_body
button_node promote =
    el "button" (class_name "pcp-primary-action" ∷ button_type ∷ on_press (some open_decision) ∷ [])
      (text governed_copy_body.actions.promote.label ∷ [])
button_node (retry off label) =
    el "button"
      (class_name "pcp-primary-action"
        ∷ button_type
        ∷ on_press (some open_retry)
        ∷ disabled off
        ∷ [])
      (text label ∷ [])
button_node (unavailable label) =
    el "button" (class_name "pcp-primary-action" ∷ button_type ∷ disabled true ∷ [])
      (text label ∷ [])

unfoldable pub rationale_copy : Node Press
unfolding governed_copy_body
rationale_copy =
    cold_read governed_copy_body.screens.promotion_rationale.line1
      governed_copy_body.screens.promotion_rationale.line2

unfoldable pub authority_notice : {E : Type 0} → Node E
unfolding governed_copy_body
authority_notice = styled_line "p" "pcp-authority-notice" governed_copy_body.authority_notice

-- What the last decision or retry left.
unfoldable pub action_result : {N : Type 0} → LifecycleDecisionResult N → Node Press
action_result result =
    el "p"
      (class_name "pcp-action-result"
        ∷ named "role" "status"
        ∷ named "data-accepted" (if result.accepted then "true" else "false")
        ∷ [])
      (text result.message ∷ [])

module _ {N : Type 0} (js : Runtime N) (rt : Rendering N) where
  unfoldable pub decision_facts : CandidateViewModel N → Node Press
  decision_facts c = styled "dl" "pcp-decision-facts" (
      fact_of "Evidence snapshot" (technical_ref "SHA-256" c.evaluation_snapshot_hash ∷ [])
      ∷ fact_of "Policy snapshot" (technical_ref "SHA-256" c.policy_hash ∷ [])
      ∷ fact "Lifecycle approval" (humanize js c.lifecycle_approval_state)
      ∷ fact "Approval coverage" (approval_coverage js rt.times c)
      ∷ fact "Consumed approvals" (js.to_text c.consumed_lifecycle_approvals)
      ∷ fact "Active blockers" (js.to_text c.active_blocker_count)
      ∷ [])

  unfoldable pub recorded_decision : DecisionViewModel → Node Press
  recorded_decision d = styled "div" "pcp-recorded-decision" (
      styled_line "p" "pcp-label" "LATEST RECORDED DECISION"
      ∷ line "strong" (humanize js d.type ^^ " · " ^^ humanize js d.outcome)
      ∷ line "p" d.rationale
      ∷ line "span" (d.actor ^^ " · " ^^ format_utc js rt.calendar (some d.decided_at))
      ∷ plain "div" (
          technical_ref "Policy" d.policy_hash
          ∷ technical_ref "Evidence" d.evaluation_snapshot_hash
          ∷ [])
      ∷ [])

  abbrev pub attention_anchor : String → Node Press
  attention_anchor link =
      el "a" (class_name "pcp-secondary-action" ∷ href link ∷ [])
        (text "Open Attention decision surface" ∷ [])

  unfoldable pub decision_panel :
      Transports N → Surroundings → CandidateViewModel N → DetailState N → Node Press
  unfolding button_node rationale_copy authority_notice action_result decision_facts
      recorded_decision
  decision_panel ts around c s = styled "aside" "pcp-section pcp-decision-panel" (
      section_heading "03" "Lifecycle decision" none none
      ∷ rationale_copy
      ∷ authority_notice
      ∷ decision_facts c
      ∷ optional c.latest_decision recorded_decision
      ∷ optional (if ts.embedded then truthy around.attention_link else none) attention_anchor
      ∷ button_node (panel_button ts s.submitting c)
      ∷ optional s.result action_result
      ∷ [])
