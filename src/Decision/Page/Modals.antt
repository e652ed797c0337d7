-- ===== src/Decision/Page/Modals.antt =====
-- packages/promotion-ui/src/views/candidate-detail.tsx: the dialog of the decision and the dialog of
-- the retry. Pressing the backdrop itself closes a dialog, unless something is being submitted.
use agent_promotion_control.Prelude.{
  String, Bool, ◌||◌, none, some, List, [], ◌∷◌, ltb, if◌then◌else◌,
}
use agent_promotion_control.Js.{trim, utf16_length}
use agent_promotion_control.View.{CandidateViewModel}
use agent_promotion_control.Js.{◌^^◌}
use agent_promotion_control.Copy.Body.{GovernedActionCopy, governed_copy_body}
use agent_promotion_control.Markup.{
  class_name, identifier, labelled_by, disabled, named, on_press, on_change, Node, text, el, styled,
  plain, line, styled_line, optional,
}
use agent_promotion_control.Components.{button_type, cold_read}
use agent_promotion_control.Decision.Dialogs.{DetailState}
use agent_promotion_control.Decision.Page.{
  Press, close_decision, close_retry, confirm_decision, confirm_retry, write, Surroundings,
}
use agent_promotion_control.Decision.Page.Aside.{rationale_copy, authority_notice, action_result}

-- A dialog on its backdrop, with the identifier of its title.
abbrev pub dialog : Bool → Press → String → List (Node Press) → Node Press
dialog submitting close title_id children =
    el "div"
      (class_name "pcp-dialog-backdrop"
        ∷ named "role" "presentation"
        ∷ on_press (if submitting then none else some close)
        ∷ [])
      (el "section"
          (named "tabIndex" "-1"
            ∷ class_name "pcp-dialog"
            ∷ named "role" "dialog"
            ∷ named "aria-modal" "true"
            ∷ labelled_by title_id
            ∷ [])
          children
        ∷ [])

abbrev consequence : GovernedActionCopy → Node Press
consequence action = styled "p" "pcp-action-consequence" (
    line "strong" "Consequence:"
    ∷ text (" " ^^ action.consequence)
    ∷ plain "br" []
    ∷ line "strong" "Undo:"
    ∷ text (" " ^^ action.undo)
    ∷ [])

-- The button that cancels, and the one that confirms.
abbrev pub actions : Bool → Bool → Press → Press → String → Node Press
actions submitting off cancel confirm label = styled "div" "pcp-dialog-actions" (
    el "button"
      (class_name "pcp-secondary-action"
        ∷ button_type
        ∷ on_press (some cancel)
        ∷ disabled submitting
        ∷ [])
      (text "Cancel without changes" ∷ [])
    ∷ el "button"
        (class_name "pcp-primary-action"
          ∷ button_type
          ∷ on_press (some confirm)
          ∷ disabled off
          ∷ [])
        (text label ∷ [])
    ∷ [])

module _ {N : Type 0} where
  unfoldable pub rationale_field : Surroundings → DetailState N → Node Press
  rationale_field around s = el "label" (named "htmlFor" around.rationale_id ∷ []) (
      line "span" "Decision rationale"
      ∷ el "textarea"
          (identifier around.rationale_id
            ∷ named "value" s.rationale
            ∷ on_change write
            ∷ named "rows" "5"
            ∷ named "placeholder" "Explain why this exact tested version should enter the registry."
            ∷ [])
          []
      ∷ [])

  unfoldable pub decision_dialog : Surroundings → CandidateViewModel N → DetailState N → Node Press
  unfolding governed_copy_body rationale_field
  decision_dialog around c s = dialog s.submitting close_decision "promotion-dialog-title" (
      styled_line "p" "pcp-eyebrow" "PROMOTION LIFECYCLE APPROVAL"
      ∷ el "h2" (identifier "promotion-dialog-title" ∷ [])
          (text ("Queue " ^^ c.name ^^ " for registry publication") ∷ [])
      ∷ rationale_copy
      ∷ authority_notice
      ∷ rationale_field around s
      ∷ consequence governed_copy_body.actions.promote
      ∷ optional s.result action_result
      ∷ actions s.submitting (s.submitting || ltb (utf16_length (trim s.rationale)) 20)
          close_decision confirm_decision
          (if s.submitting then "Recording decision…" else governed_copy_body.actions.promote.label)
      ∷ [])

  unfoldable pub retry_dialog : DetailState N → Node Press
  unfolding governed_copy_body
  retry_dialog s = dialog s.submitting close_retry "retry-dialog-title" (
      styled_line "p" "pcp-eyebrow" "REGISTRY RECOVERY"
      ∷ el "h2" (identifier "retry-dialog-title" ∷ []) (text "Retry registry publication" ∷ [])
      ∷ cold_read governed_copy_body.screens.registry_failure.line1
          governed_copy_body.screens.registry_failure.line2
      ∷ consequence governed_copy_body.actions.retry_registry
      ∷ actions s.submitting s.submitting close_retry confirm_retry
          (if s.submitting then "Queuing retry…" else "Confirm registry retry")
      ∷ [])
