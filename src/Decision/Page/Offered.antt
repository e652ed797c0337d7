-- ===== src/Decision/Page/Offered.antt =====
-- packages/promotion-ui/src/views/candidate-detail.tsx: the controls that the whole view offers in a
-- state.
use agent_promotion_control.Prelude.{test_laws, ◌≡◌, ◌∙◌, refl, String, ◌&&◌, ◌||◌, not}
use agent_promotion_control.Js.{Runtime}
use agent_promotion_control.View.{CandidateViewModel}
use agent_promotion_control.Markup.Outline.{outline}
use agent_promotion_control.Markup.Marks.{offers}
use agent_promotion_control.Components.{Rendering}
use agent_promotion_control.Decision.Panel.{Transports, panel_button}
use agent_promotion_control.Decision.Dialogs.{DetailState}
use agent_promotion_control.Decision.Page.{
  Press, go, open_decision, close_decision, close_retry, confirm_decision, confirm_retry, write,
  Surroundings,
}
use agent_promotion_control.Decision.Page.Whole.{detail_view}
use agent_promotion_control.Decision.Page.Controls.{
  button_marks, decision_marks, retry_marks, outline-detail_view,
}
use agent_promotion_control.Decision.Page.Presses.{
  is_press, offers-detail_marks, offers-button_marks, is_short, offers-decision_marks,
  offers-retry_marks,
}

module _ {N : Type 0} (js : Runtime N) (rt : Rendering N) where
  offered :
      (ts : Transports N) (around : Surroundings) (c : CandidateViewModel N) (s : DetailState N)
      (e : Press)
      → offers (is_press e) (outline (detail_view js rt ts around c s)) ≡ (
          is_press e (go "/candidates")
          || offers (is_press e) (button_marks (panel_button ts s.submitting c))
          || (s.dialog_open && offers (is_press e) (decision_marks around s))
          || (s.retry_dialog_open && offers (is_press e) (retry_marks s)))
  offered ts around c s e =
      rw (outline-detail_view js rt ts around c s) (offers-detail_marks (is_press e) ts around c s)

  pub offers-confirm_decision :
      (ts : Transports N) (around : Surroundings) (c : CandidateViewModel N) (s : DetailState N)
      → offers (is_press confirm_decision) (outline (detail_view js rt ts around c s))
        ≡ (s.dialog_open && not (s.submitting || is_short s))
  unfolding is_press
  offers-confirm_decision ts around c s =
      offered ts around c s confirm_decision
      ∙ simp (
        offers-decision_marks,
        offers-retry_marks,
        offers-button_marks (is_press confirm_decision) refl refl,
        test_laws,
      )

  pub offers-confirm_retry :
      (ts : Transports N) (around : Surroundings) (c : CandidateViewModel N) (s : DetailState N)
      → offers (is_press confirm_retry) (outline (detail_view js rt ts around c s))
        ≡ (s.retry_dialog_open && not s.submitting)
  unfolding is_press
  offers-confirm_retry ts around c s =
      offered ts around c s confirm_retry
      ∙ simp (
        offers-decision_marks,
        offers-retry_marks,
        offers-button_marks (is_press confirm_retry) refl refl,
        test_laws,
      )

  pub offers-close_decision :
      (ts : Transports N) (around : Surroundings) (c : CandidateViewModel N) (s : DetailState N)
      → offers (is_press close_decision) (outline (detail_view js rt ts around c s))
        ≡ (s.dialog_open && not s.submitting)
  unfolding is_press
  offers-close_decision ts around c s =
      offered ts around c s close_decision
      ∙ simp (
        offers-decision_marks,
        offers-retry_marks,
        offers-button_marks (is_press close_decision) refl refl,
        test_laws,
      )

  pub offers-close_retry :
      (ts : Transports N) (around : Surroundings) (c : CandidateViewModel N) (s : DetailState N)
      → offers (is_press close_retry) (outline (detail_view js rt ts around c s))
        ≡ (s.retry_dialog_open && not s.submitting)
  unfolding is_press
  offers-close_retry ts around c s =
      offered ts around c s close_retry
      ∙ simp (
        offers-decision_marks,
        offers-retry_marks,
        offers-button_marks (is_press close_retry) refl refl,
        test_laws,
      )

  pub offers-write :
      (ts : Transports N) (around : Surroundings) (c : CandidateViewModel N) (s : DetailState N)
      (a : String)
      → offers (is_press (write a)) (outline (detail_view js rt ts around c s)) ≡ s.dialog_open
  unfolding is_press
  offers-write ts around c s a =
      offered ts around c s (write a)
      ∙ simp (
        offers-decision_marks,
        offers-retry_marks,
        offers-button_marks (is_press (write a)) refl refl,
        test_laws,
      )

  -- Both presses of the panel's button.
  pub offers-panel :
      (ts : Transports N) (around : Surroundings) (c : CandidateViewModel N) (s : DetailState N)
      → offers (is_press open_decision) (outline (detail_view js rt ts around c s))
        ≡ offers (is_press open_decision) (button_marks (panel_button ts s.submitting c))
  unfolding is_press
  offers-panel ts around c s =
      offered ts around c s open_decision
      ∙ simp (offers-decision_marks, offers-retry_marks, test_laws)
