-- ===== src/Decision/Page/Presses.antt =====
-- packages/promotion-ui/src/views/candidate-detail.tsx: what pressing a control does to the state, and
-- the controls that each part of the view offers.
use agent_promotion_control.Prelude.{
  or-false, and-false, ◌≡◌, ◌∙◌, refl, String, Bool, ◌&&◌, ◌||◌, not, true, false, Option, none,
  some, List, ltb, ◌==◌, Bool-cases, inl, inr,
}
use agent_promotion_control.Js.{trim, utf16_length}
use agent_promotion_control.View.{CandidateViewModel, EvidenceViewModel}
use agent_promotion_control.Live.{truthy}
use agent_promotion_control.Markup.Marks.{offers, offers-append, offers-if, offers-marks_of}
use agent_promotion_control.Decision.{has_blocker}
use agent_promotion_control.Decision.Panel.{
  Transports, PanelButton, promote, retry, unavailable, panel_button,
}
use agent_promotion_control.Decision.Dialogs.{
  DetailState, open_panel, edit, cancel_decision, cancel_retry, press_decide, press_retry, handle,
}
use agent_promotion_control.Decision.Page.{
  Press, go, open_decision, open_retry, close_decision, close_retry, confirm_decision,
  confirm_retry, write, Surroundings,
}
use agent_promotion_control.Decision.Page.Outlines.{uri_marks, artifact_marks}
use agent_promotion_control.Decision.Page.Controls.{
  unless_off, button_marks, attention_marks, decision_marks, retry_marks, blocker_marks,
  detail_marks,
}

-- A press on the same control: the panel has one button, and the text area takes any text.
unfoldable pub is_press : Press → Press → Bool
is_press (go path) (go other) = path == other
is_press open_decision open_decision = true
is_press open_decision open_retry = true
is_press open_retry open_decision = true
is_press open_retry open_retry = true
is_press close_decision close_decision = true
is_press close_retry close_retry = true
is_press confirm_decision confirm_decision = true
is_press confirm_retry confirm_retry = true
is_press (write a) (write b) = true
is_press _ _ = false

-- A control of a dialog that ends it or submits it.
unfoldable pub is_modal : Press → Bool
is_modal close_decision = true
is_modal close_retry = true
is_modal confirm_decision = true
is_modal confirm_retry = true
is_modal _ = false

module _ {N : Type 0} where
  -- What a press does to the state of the view; a press that leaves the view does nothing to it.
  unfoldable pub perform :
      Transports N → String → CandidateViewModel N → Press → DetailState N → DetailState N
  unfolding handle
  perform ts uuid c (go path) s = s
  perform ts uuid c open_decision s = handle ts (open_panel c) s
  perform ts uuid c open_retry s = handle ts (open_panel c) s
  perform ts uuid c close_decision s = handle ts cancel_decision s
  perform ts uuid c close_retry s = handle ts cancel_retry s
  perform ts uuid c confirm_decision s = handle ts (press_decide c) s
  perform ts uuid c confirm_retry s = handle ts (press_retry uuid c) s
  perform ts uuid c (write rationale) s = handle ts (edit rationale) s

  offers-blocker_marks :
      (accepts : Press → Bool) (c : CandidateViewModel N) → offers accepts (blocker_marks c) ≡ false
  unfolding offers blocker_marks
  offers-blocker_marks accepts c = elim (Bool-cases (has_blocker c)) [
    | inl h ↦ rw h refl
    | inr h ↦ rw h refl
  ]

offers-uri_marks :
    (accepts : Press → Bool) (uri : Option String) → offers accepts (uri_marks uri) ≡ false
unfolding offers
offers-uri_marks accepts none = refl
offers-uri_marks accepts (some uri) = refl

offers-artifact_marks :
    (accepts : Press → Bool) (artifacts : List EvidenceViewModel)
    → offers accepts (artifact_marks artifacts) ≡ false
offers-artifact_marks accepts artifacts =
    offers-marks_of accepts (λ e. uri_marks (truthy e.uri)) artifacts
      (λ e. offers-uri_marks accepts (truthy e.uri))

module _ {N : Type 0} where
  offers-attention_marks :
      (accepts : Press → Bool) (ts : Transports N) (around : Surroundings)
      → offers accepts (attention_marks ts around) ≡ false
  unfolding offers attention_marks
  offers-attention_marks accepts ts around = elim (Bool-cases ts.embedded) [
    | inl h ↦ rw h (offers-uri_marks accepts (truthy around.attention_link))
    | inr h ↦ rw h refl
  ]

  -- The controls come from the breadcrumbs, the panel's button and the dialogs that are open.
  pub offers-detail_marks :
      (accepts : Press → Bool) (ts : Transports N) (around : Surroundings)
      (c : CandidateViewModel N) (s : DetailState N)
      → offers accepts (detail_marks ts around c s) ≡ (
          accepts (go "/candidates")
          || offers accepts (button_marks (panel_button ts s.submitting c))
          || (s.dialog_open && offers accepts (decision_marks around s))
          || (s.retry_dialog_open && offers accepts (retry_marks s)))
  unfolding offers
  offers-detail_marks accepts ts around c s = simp (
    or-false, offers-append, offers-if, offers-blocker_marks, offers-attention_marks,
    offers-artifact_marks,
  )

offers-unless_off :
    (accepts : Press → Bool) (off : Bool) (e : Press)
    → offers accepts (unless_off off e) ≡ (not off && accepts e)
unfolding offers
offers-unless_off accepts true e = refl
offers-unless_off accepts false e = or-false (accepts e)

-- The panel's button is the only control of the panel.
pub offers-button_marks :
    (accepts : Press → Bool)
    → accepts open_decision ≡ false
    → accepts open_retry ≡ false
    → (b : PanelButton) → offers accepts (button_marks b) ≡ false
unfolding offers
offers-button_marks accepts opens retries promote = rw opens refl
offers-button_marks accepts opens retries (retry off label) =
    offers-unless_off accepts off open_retry ∙ rw retries (and-false (not off))
offers-button_marks accepts opens retries (unavailable label) = refl

module _ {N : Type 0} where
  -- The tests that `submitDecision` and the dialog's buttons make.
  abbrev pub is_short : DetailState N → Bool
  is_short s = ltb (utf16_length (trim s.rationale)) 20

  pub offers-decision_marks :
      (accepts : Press → Bool) (around : Surroundings) (s : DetailState N)
      → offers accepts (decision_marks around s) ≡ (
          (not s.submitting && accepts close_decision)
          || (accepts (write "") || (not s.submitting && accepts close_decision))
          || (not (s.submitting || is_short s) && accepts confirm_decision))
  unfolding decision_marks offers
  offers-decision_marks accepts around s = simp (offers-append, offers-unless_off)

  pub offers-retry_marks :
      (accepts : Press → Bool) (s : DetailState N)
      → offers accepts (retry_marks s) ≡ (
          (not s.submitting && accepts close_retry)
          || (not s.submitting && accepts close_retry)
          || (not s.submitting && accepts confirm_retry))
  unfolding retry_marks offers
  offers-retry_marks accepts s = simp (offers-append, offers-unless_off)
