-- ===== src/Decision/Exclusive.antt =====
-- packages/promotion-ui/src/views/candidate-detail.tsx: at most one request is on its way.
use mathlib.Core.Path.{subst}
use agent_promotion_control.Prelude.{
  ℕ, zero, suc, ◌≤◌, ◌≡◌, ◌⊎◌, inl, inr, refl, sym, ap, ◌∙◌, arith, Bool, ◌&&◌, ◌||◌, true, false,
  not, some, [], ◌∷◌, is_some, Option, List, if-either, ltb, if◌then◌else◌,
}
use agent_promotion_control.Js.{trim, utf16_length}
use agent_promotion_control.View.{LifecycleDecisionResult}
use agent_promotion_control.Fetch.{Outcome, returns, throws}
use agent_promotion_control.Decision.{or_failed, retry_end, decision_request, retry_mutation}
use agent_promotion_control.Decision.Panel.{
  Transports, PanelButton, promote, retry, unavailable, panel_button,
}
use agent_promotion_control.Decision.Dialogs.{
  Pending, deciding, retrying, DetailState, Event, open_panel, edit, cancel_decision, cancel_retry,
  escape, press_decide, press_retry, answered, press_panel, begin_decision, begin_retry, finish,
  settle, picked, finish_picked, handle, Reached, start, next,
}

module _ {N : Type 0} where
  -- The dialog that a request was sent from is open, and a decision has its rationale.
  abbrev pub IsShown : Pending N → DetailState N → Type 0
  IsShown (deciding request) s = (s.dialog_open ≡ true) × (20 ≤ utf16_length request.rationale)
  IsShown (retrying mutation) s = s.retry_dialog_open ≡ true

  abbrev pub IsIdle : DetailState N → Type 0
  IsIdle s = (s.submitting ≡ false) × (s.awaited ≡ [])

  abbrev pub IsBusy : DetailState N → Type 0
  IsBusy s = (s.submitting ≡ true) × ((p : Pending N) × (s.awaited ≡ p ∷ []) × IsShown p s)

  abbrev pub IsExclusive : DetailState N → Type 0
  IsExclusive s = IsIdle s ⊎ IsBusy s

  press_panel-IsShown :
      (b : PanelButton) (p : Pending N) (s : DetailState N)
      → IsShown p s
      → IsShown p (press_panel b s)
  unfolding press_panel
  press_panel-IsShown promote (deciding r) s h = (refl, h.1)
  press_panel-IsShown promote (retrying m) s h = h
  press_panel-IsShown (retry true label) p s h = h
  press_panel-IsShown (retry false label) (deciding r) s h = h
  press_panel-IsShown (retry false label) (retrying m) s h = refl
  press_panel-IsShown (unavailable label) p s h = h

  press_panel-keeps :
      (b : PanelButton) (s : DetailState N)
      → ((press_panel b s).submitting ≡ s.submitting) × ((press_panel b s).awaited ≡ s.awaited)
  unfolding press_panel
  press_panel-keeps promote s = (refl, refl)
  press_panel-keeps (retry true label) s = (refl, refl)
  press_panel-keeps (retry false label) s = (refl, refl)
  press_panel-keeps (unavailable label) s = (refl, refl)

  press_panel-IsExclusive :
      (b : PanelButton) (s : DetailState N) → IsExclusive s → IsExclusive (press_panel b s)
  press_panel-IsExclusive b s h =
      let (busy, same) = press_panel-keeps b s in
      elim h [
        | inl (off, none_awaited) ↦ inl (busy ∙ off, same ∙ none_awaited)
        | inr (on, (p, one, shown)) ↦
            inr (busy ∙ on, (p, same ∙ one, press_panel-IsShown b p s shown))
      ]

  -- A state that is exclusive and not submitting awaits nothing.
  idle_awaits_none : (s : DetailState N) → IsExclusive s → s.submitting ≡ false → s.awaited ≡ []
  idle_awaits_none s (inl (off, empty)) h = empty
  idle_awaits_none s (inr (on, rest)) h = cc

  abbrev no_transport : Transports N → Bool
  no_transport ts =
      (not (is_some ts.mutate) && not (is_some ts.on_mutation))
      || (ts.embedded && not (is_some ts.on_mutation))

  begin_decision-IsExclusive :
      (c : _) (s : DetailState N) → IsExclusive s → IsExclusive (begin_decision c s)
  unfolding begin_decision decision_request
  begin_decision-IsExclusive c s h =
      if-either IsExclusive
        (not s.dialog_open || s.submitting || ltb (utf16_length (trim s.rationale)) 20)
        (λ stopped. h)
        (λ sent.
          let (opened, off, long) = sent_decision s.dialog_open s.submitting _ sent in
          let request = deciding (decision_request c s.rationale) in
          inr (refl, (request, ap (◌∷◌ request) (idle_awaits_none s h off), (opened, long))))
    where
      sent_decision :
          (opened on : Bool) (n : ℕ)
          → (not opened || on || ltb n 20) ≡ false
          → (opened ≡ true) × (on ≡ false) × (20 ≤ n)
      sent_decision opened on n h = ground arith

  begin_retry-IsExclusive :
      (ts : Transports N) (uuid : _) (c : _) (s : DetailState N)
      → IsExclusive s
      → IsExclusive (begin_retry ts uuid c s)
  unfolding begin_retry
  begin_retry-IsExclusive ts uuid c s h =
      if-either IsExclusive (not s.retry_dialog_open || s.submitting) (λ stopped. h)
        (λ shown.
          if-either IsExclusive (no_transport ts) (λ missing. h)
            (λ given.
              let (opened, off) = sent_retry s.retry_dialog_open s.submitting shown in
              let request = retrying (retry_mutation uuid c) in
              inr (refl, (request, ap (◌∷◌ request) (idle_awaits_none s h off), opened))))
    where
      sent_retry : (opened on : Bool) → (not opened || on) ≡ false → (opened ≡ true) × (on ≡ false)
      sent_retry opened on h = ground arith

  abbrev pub is_thrown : Outcome (LifecycleDecisionResult N) → Bool
  is_thrown (returns result) = false
  is_thrown (throws message) = true

  abbrev IsAnswered : Outcome (LifecycleDecisionResult N) → DetailState N → Type 0
  IsAnswered answer after =
      IsIdle after
      × (after.result ≡ some (or_failed answer))
      × ((after.dialog_open ≡ true) ⊎ (after.retry_dialog_open ≡ is_thrown answer))

  finish-IsAnswered :
      (p : Pending N) (answer : Outcome (LifecycleDecisionResult N)) (s : DetailState N)
      → IsShown p s
      → IsAnswered answer (finish p answer (record s { awaited = [] }))
  unfolding finish retry_end
  finish-IsAnswered (deciding r) answer s h = ((refl, refl), refl, inl h.0)
  finish-IsAnswered (retrying m) (returns v) s h = ((refl, refl), refl, inr (rw h refl))
  finish-IsAnswered (retrying m) (throws e) s h = ((refl, refl), refl, inr (rw h refl))

  finish-IsIdle :
      (p : Pending N) (answer : Outcome (LifecycleDecisionResult N)) (s : DetailState N)
      → s.awaited ≡ []
      → IsIdle (finish p answer s) × (is_some (finish p answer s).result ≡ true)
  unfolding finish
  finish-IsIdle (deciding r) answer s h = ((refl, h), refl)
  finish-IsIdle (retrying m) answer s h = ((refl, h), refl)

  settle-IsExclusive :
      (i : ℕ) (answer : Outcome (LifecycleDecisionResult N)) (s : DetailState N)
      → IsExclusive s
      → IsExclusive (settle i answer s)
  unfolding settle
  settle-IsExclusive i answer s h = elim h [
    | inl (off, empty) ↦ by_picked (ap (picked i) empty) (inl (off, empty))
    | inr (on, (p, one, shown)) ↦ by_picked (ap (picked i) one) (answer_one i p on one shown)
  ]
    where
      by_picked :
          {o : Option (Pending N × List (Pending N))}
          → picked i s.awaited ≡ o
          → IsExclusive (finish_picked answer s o)
          → IsExclusive (finish_picked answer s (picked i s.awaited))
      by_picked e = subst (λ o. IsExclusive (finish_picked answer s o)) (sym e)

      answer_one :
          (j : ℕ) (p : Pending N)
          → s.submitting ≡ true
          → s.awaited ≡ p ∷ []
          → IsShown p s
          → IsExclusive (finish_picked answer s (picked j (p ∷ [])))
      answer_one zero p on one shown =
          inl (finish-IsIdle p answer (record s { awaited = [] }) refl).0
      answer_one (suc j) p on one shown = inr (on, (p, one, shown))

  -- A field that only the rendering reads, and only while nothing is awaited.
  dismissed-IsExclusive :
      (opened opened_retry : Bool) (s : DetailState N)
      → IsExclusive s
      → IsExclusive (
          if s.submitting
          then s
          else record s { dialog_open = opened; retry_dialog_open = opened_retry })
  dismissed-IsExclusive opened opened_retry s h =
      if-either IsExclusive s.submitting (λ on. h) (λ off. inl (off, idle_awaits_none s h off))

  edit-IsExclusive :
      (text : _) (s : DetailState N)
      → IsExclusive s
      → IsExclusive (if s.dialog_open then record s { rationale = text } else s)
  edit-IsExclusive text s h = if-either IsExclusive s.dialog_open (λ opened. edited h) (λ closed. h)
    where
      edited : IsExclusive s → IsExclusive (record s { rationale = text })
      edited (inl idle) = inl idle
      edited (inr (on, (deciding r, one, shown))) = inr (on, (deciding r, one, shown))
      edited (inr (on, (retrying m, one, shown))) = inr (on, (retrying m, one, shown))

  handle-IsExclusive :
      (ts : Transports N) (e : Event N) (s : DetailState N)
      → IsExclusive s
      → IsExclusive (handle ts e s)
  unfolding handle
  handle-IsExclusive ts (open_panel c) s h =
      press_panel-IsExclusive (panel_button ts s.submitting c) s h
  handle-IsExclusive ts (edit text) s h = edit-IsExclusive text s h
  handle-IsExclusive ts cancel_decision s h = dismissed-IsExclusive false s.retry_dialog_open s h
  handle-IsExclusive ts cancel_retry s h = dismissed-IsExclusive s.dialog_open false s h
  handle-IsExclusive ts escape s h = dismissed-IsExclusive false false s h
  handle-IsExclusive ts (press_decide c) s h = begin_decision-IsExclusive c s h
  handle-IsExclusive ts (press_retry uuid c) s h = begin_retry-IsExclusive ts uuid c s h
  handle-IsExclusive ts (answered i answer) s h = settle-IsExclusive i answer s h

  -- In every state that the view reaches, either nothing is on its way and it is not submitting, or
  -- it is submitting and one request is on its way, the dialog that it was sent from is open, and if
  -- it is a decision its rationale has 20 characters or more.
  pub Reached-IsExclusive : (s : DetailState N) → Reached s → IsExclusive s
  Reached-IsExclusive s start = inl (refl, refl)
  Reached-IsExclusive s (next {s = before} ts e h) =
      handle-IsExclusive ts e before (Reached-IsExclusive before h)

  -- In every state that the view reaches, if it is submitting, the answer to its request, whether
  -- that is a result or an error, leaves it not submitting with nothing on its way and the answer's
  -- result to show, and either the decision's dialog is open, or the retry's dialog is open exactly
  -- if the answer is an error.
  pub answered-IsIdle :
      (ts : Transports N) (answer : Outcome (LifecycleDecisionResult N)) (s : DetailState N)
      → Reached s
      → s.submitting ≡ true
      → let after = handle ts (answered 0 answer) s in
        IsIdle after
        × (after.result ≡ some (or_failed answer))
        × ((after.dialog_open ≡ true) ⊎ (after.retry_dialog_open ≡ is_thrown answer))
  unfolding handle settle
  answered-IsIdle ts answer s h on = elim (Reached-IsExclusive s h) [
    | inl (off, empty) ↦ cc
    | inr (_, (p, one, shown)) ↦
        subst (λ o. IsAnswered answer (finish_picked answer s o)) (sym (ap (picked 0) one))
          (finish-IsAnswered p answer s shown)
  ]
