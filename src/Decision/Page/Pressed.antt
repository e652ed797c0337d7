-- ===== src/Decision/Page/Pressed.antt =====
-- packages/promotion-ui/src/views/candidate-detail.tsx: what the view offers is what its handlers act
-- on.
use mathlib.Core.Bool.{true≢false}
use agent_promotion_control.Prelude.{
  ℕ, ltb, leb, arith, is_some, ◌==◌, Option, none, some, inl, inr, Bool-cases, if◌then◌else◌, ◌≡◌,
  ◌∙◌, refl, ap, sym, String, Bool, ◌&&◌, ◌||◌, not, true, false, ◌∷◌, if-either, and-false,
}
use agent_promotion_control.Js.{Runtime, trim, utf16_length}
use agent_promotion_control.View.{CandidateViewModel}
use agent_promotion_control.Markup.Outline.{outline}
use agent_promotion_control.Markup.Marks.{offers}
use agent_promotion_control.Components.{Rendering}
use agent_promotion_control.Decision.{decision_request, can_promote}
use agent_promotion_control.Decision.Panel.{Transports, retry, unavailable, panel_button}
use agent_promotion_control.Decision.Dialogs.{DetailState, deciding, handle, begin_decision}
use agent_promotion_control.Decision.Page.{
  Press, go, open_decision, open_retry, close_decision, close_retry, confirm_decision,
  confirm_retry, write, Surroundings,
}
use agent_promotion_control.Decision.Page.Whole.{detail_view}
use agent_promotion_control.Decision.Page.Controls.{button_marks}
use agent_promotion_control.Decision.Page.Presses.{is_press, is_modal, perform, is_short}
use agent_promotion_control.Decision.Page.Offered.{
  offers-panel, offers-confirm_decision, offers-confirm_retry, offers-close_decision,
  offers-close_retry, offers-write,
}

decision_guard :
    (d submitting short : Bool)
    → (d && not (submitting || short)) ≡ not (not d || submitting || short)
decision_guard true submitting short = refl
decision_guard false submitting short = refl

long_enough :
    (d submitting : Bool) (n : ℕ)
    → (d && not (submitting || ltb n 20)) ≡ (d && not submitting && leb 20 n)
long_enough d submitting n = ground arith

retry_offers :
    {A B : Type 0} (submitting embedded : Bool) (callback : Option A) (source : Option B)
    (label : String)
    → offers (is_press open_decision) (
        button_marks (
          retry
            (submitting || (if embedded then not (is_some callback) else not (is_some source)))
            label))
      ≡ (not submitting && (if embedded then is_some callback else is_some source))
unfolding offers is_press
retry_offers true embedded callback source label = refl
retry_offers false true none source label = refl
retry_offers false true (some send) source label = refl
retry_offers false false callback none label = refl
retry_offers false false callback (some send) label = refl

none_offers :
    (pending lacking : Bool) (first second third : String)
    → offers (is_press open_decision) (
        button_marks (
          if pending
          then unavailable first
          else if lacking
          then unavailable second
          else unavailable third))
      ≡ false
unfolding offers
none_offers true lacking first second third = refl
none_offers false true first second third = refl
none_offers false false first second third = refl

module _ {N : Type 0} where
  panel_offers :
      (ts : Transports N) (submitting : Bool) (c : CandidateViewModel N)
      → offers (is_press open_decision) (button_marks (panel_button ts submitting c)) ≡ (
          (can_promote c && (not ts.embedded || is_some ts.on_decision))
          || (c.activation_state == "FAILED"
              && not submitting
              && (if ts.embedded then is_some ts.on_mutation else is_some ts.mutate)))
  unfolding offers panel_button is_press
  panel_offers ts submitting c =
      elim (Bool-cases (can_promote c && (not ts.embedded || is_some ts.on_decision))) [
        | inl ready ↦ rw ready refl
        | inr other ↦ elim (Bool-cases (c.activation_state == "FAILED")) [
          | inl failed ↦
              rw (other, failed)
                (retry_offers submitting ts.embedded ts.on_mutation ts.mutate (
                  if ts.embedded && not (is_some ts.on_mutation)
                  then "Attention callback required"
                  else "Retry registry publication"))
          | inr active ↦ rw (other, active) (none_offers (c.activation_state == "PENDING") _ _ _ _)
        ]
      ]

module _ {N : Type 0} (js : Runtime N) (rt : Rendering N) where
  -- Which of its controls the view offers.
  abbrev pub OffersExactly :
      Transports N → Surroundings → CandidateViewModel N → DetailState N → Type 0
  OffersExactly ts around c s =
      let offered =
        λ (e : Press). offers (is_press e) (outline (detail_view js rt ts around c s)) in
      (offered open_decision ≡ (
        (can_promote c && (not ts.embedded || is_some ts.on_decision))
        || (c.activation_state == "FAILED"
            && not s.submitting
            && (if ts.embedded then is_some ts.on_mutation else is_some ts.mutate))))
      × (offered confirm_decision
          ≡ (s.dialog_open && not s.submitting && leb 20 (utf16_length (trim s.rationale))))
      × (offered confirm_retry ≡ (s.retry_dialog_open && not s.submitting))
      × (offered close_decision ≡ (s.dialog_open && not s.submitting))
      × (offered close_retry ≡ (s.retry_dialog_open && not s.submitting))
      × ((text : String) → offered (write text) ≡ s.dialog_open)

  -- Whatever the candidate, the transports and the state, the view offers the control that opens
  -- the panel's dialog exactly where the candidate may be promoted and, in an embedding, there is a
  -- callback for decisions, or its activation has failed, nothing is on its way and there is the
  -- callback or the data source that the embedding asks for; it offers to confirm the decision
  -- exactly where its dialog is open, nothing is on its way and the trimmed rationale has 20
  -- characters, to confirm the retry where its dialog is open and nothing is on its way, to close a
  -- dialog where it is open and nothing is on its way, and to write the rationale where the
  -- decision's dialog is open.
  pub detail_view-offers :
      (ts : Transports N) (around : Surroundings) (c : CandidateViewModel N) (s : DetailState N)
      → OffersExactly ts around c s
  detail_view-offers ts around c s = (
    offers-panel js rt ts around c s ∙ panel_offers ts s.submitting c,
    offers-confirm_decision js rt ts around c s
        ∙ long_enough s.dialog_open s.submitting (utf16_length (trim s.rationale)),
    offers-confirm_retry js rt ts around c s,
    offers-close_decision js rt ts around c s,
    offers-close_retry js rt ts around c s,
    λ text. offers-write js rt ts around c s text,
  )

  -- While something is awaited, no dialog can be submitted or closed.
  modal_while_awaited :
      (ts : Transports N) (around : Surroundings) (c : CandidateViewModel N) (s : DetailState N)
      (e : Press)
      → s.submitting ≡ true
      → is_modal e ≡ true
      → offers (is_press e) (outline (detail_view js rt ts around c s)) ≡ false
  unfolding is_modal
  modal_while_awaited ts around c s close_decision busy h =
      offers-close_decision js rt ts around c s ∙ rw busy (and-false s.dialog_open)
  modal_while_awaited ts around c s close_retry busy h =
      offers-close_retry js rt ts around c s ∙ rw busy (and-false s.retry_dialog_open)
  modal_while_awaited ts around c s confirm_decision busy h =
      offers-confirm_decision js rt ts around c s ∙ rw busy (and-false s.dialog_open)
  modal_while_awaited ts around c s confirm_retry busy h =
      offers-confirm_retry js rt ts around c s ∙ rw busy (and-false s.retry_dialog_open)
  modal_while_awaited ts around c s (go path) busy h = cc
  modal_while_awaited ts around c s open_decision busy h = cc
  modal_while_awaited ts around c s open_retry busy h = cc
  modal_while_awaited ts around c s (write rationale) busy h = cc

  -- If the view offers the decision, a press submits it for the candidate on the screen with the
  -- rationale as it is typed; while it is awaited the view offers no way to submit or to close a
  -- dialog.
  pub confirm_decision-perform :
      (ts : Transports N) (around : Surroundings) (uuid : String) (c : CandidateViewModel N)
      (s : DetailState N) (e : Press)
      → offers (is_press confirm_decision) (outline (detail_view js rt ts around c s)) ≡ true
      → is_modal e ≡ true
      → let after = perform ts uuid c confirm_decision s in
        (after.awaited ≡ deciding (decision_request c s.rationale) ∷ s.awaited)
        × (after.submitting ≡ true)
        × (offers (is_press e) (outline (detail_view js rt ts around c after)) ≡ false)
  unfolding perform handle begin_decision
  confirm_decision-perform ts around uuid c s e h modal =
      if-either
        (λ after.
          (after.awaited ≡ deciding (decision_request c s.rationale) ∷ s.awaited)
          × (after.submitting ≡ true)
          × (offers (is_press e) (outline (detail_view js rt ts around c after)) ≡ false))
        (not s.dialog_open || s.submitting || is_short s)
        (λ refused. absurd (
          true≢false (
            sym h
            ∙ offers-confirm_decision js rt ts around c s
            ∙ decision_guard s.dialog_open s.submitting (is_short s)
            ∙ ap not refused)))
        (λ taken. (refl, refl, modal_while_awaited ts around c _ e refl modal))
