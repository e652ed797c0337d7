-- ===== src/Decision/Dialogs.antt =====
-- packages/promotion-ui/src/views/candidate-detail.tsx: the state of the view and what each event
-- does to it. An event handler sees the state that is rendered, so a disabled button and a dialog
-- that is closed give no event. The candidate is the one rendered when the event happens.
use agent_promotion_control.Prelude.{
  ℕ, zero, suc, String, Bool, ◌&&◌, ◌||◌, not, true, false, Option, none, some, List, [], ◌∷◌, ltb,
  is_some, if◌then◌else◌,
}
use agent_promotion_control.Js.{trim, utf16_length}
use agent_promotion_control.View.{
  CandidateViewModel, PromotionMutation, LifecycleDecisionRequest, LifecycleDecisionResult,
}
use agent_promotion_control.Fetch.{Outcome}
use agent_promotion_control.Decision.{decision_request, retry_mutation, or_failed, retry_end}
use agent_promotion_control.Decision.Panel.{
  Transports, PanelButton, promote, retry, unavailable, panel_button,
}

-- An `await` that has no answer yet: the decision's, or the retry's.
pub data Pending (N : Type 0) : Type 0 where
  deciding : LifecycleDecisionRequest N → Pending N
  retrying : PromotionMutation N → Pending N

pub record DetailState (N : Type 0) : Type 0 where
  pub dialog_open : Bool
  pub retry_dialog_open : Bool
  pub rationale : String
  pub submitting : Bool
  pub result : Option (LifecycleDecisionResult N)
  pub awaited : List (Pending N)

pub data Event (N : Type 0) : Type 0 where
  open_panel : CandidateViewModel N → Event N
  edit : String → Event N
  cancel_decision cancel_retry escape : Event N
  press_decide : CandidateViewModel N → Event N
  press_retry : (uuid : String) → CandidateViewModel N → Event N
  answered : ℕ → Outcome (LifecycleDecisionResult N) → Event N

module _ {N : Type 0} where
  abbrev pub fresh : DetailState N
  fresh = record {
    dialog_open = false;
    retry_dialog_open = false;
    rationale = "";
    submitting = false;
    result = none;
    awaited = [];
  }

  -- The button of the panel.
  unfoldable pub press_panel : PanelButton → DetailState N → DetailState N
  press_panel promote s = record s { dialog_open = true }
  press_panel (retry disabled label) s =
      if disabled then s else record s { retry_dialog_open = true }
  press_panel (unavailable label) s = s

  -- `submitDecision` up to its `await`.
  unfoldable pub begin_decision : CandidateViewModel N → DetailState N → DetailState N
  begin_decision c s =
      if not s.dialog_open || s.submitting || ltb (utf16_length (trim s.rationale)) 20
      then s
      else record s {
        submitting = true;
        result = none;
        awaited = deciding (decision_request c s.rationale) ∷ s.awaited;
      }

  -- `retryRegistry` up to its `await`.
  unfoldable pub begin_retry :
      Transports N → String → CandidateViewModel N → DetailState N → DetailState N
  begin_retry ts uuid c s =
      if not s.retry_dialog_open || s.submitting
      then s
      else if (not (is_some ts.mutate) && not (is_some ts.on_mutation))
          || (ts.embedded && not (is_some ts.on_mutation))
      then s
      else record s {
        submitting = true;
        result = none;
        awaited = retrying (retry_mutation uuid c) ∷ s.awaited;
      }

  -- What follows the `await`, its `catch` and `finally` included.
  unfoldable pub finish :
      Pending N → Outcome (LifecycleDecisionResult N) → DetailState N → DetailState N
  finish (deciding request) answer s = record s {
    submitting = false;
    result = some (or_failed answer);
  }
  finish (retrying mutation) answer s =
      let end = retry_end answer in
      record s {
        submitting = false;
        result = some end.result;
        retry_dialog_open = s.retry_dialog_open && end.dialog_open;
      }

  -- The i-th of those awaited, and the others.
  abbrev pub picked : ℕ → List (Pending N) → Option (Pending N × List (Pending N))
  picked i [] = none
  picked zero (p ∷ ps) = some (p, ps)
  picked (suc i) (p ∷ ps) = elim (picked i ps) [ none ↦ none | some (q, rest) ↦ some (q, p ∷ rest) ]

  abbrev pub finish_picked :
      Outcome (LifecycleDecisionResult N)
      → DetailState N
      → Option (Pending N × List (Pending N))
      → DetailState N
  finish_picked answer s none = s
  finish_picked answer s (some (p, rest)) = finish p answer (record s { awaited = rest })

  unfoldable pub settle : ℕ → Outcome (LifecycleDecisionResult N) → DetailState N → DetailState N
  unfolding finish
  settle i answer s = finish_picked answer s (picked i s.awaited)

  unfoldable pub handle : Transports N → Event N → DetailState N → DetailState N
  unfolding press_panel begin_decision begin_retry settle
  handle ts (open_panel c) s = press_panel (panel_button ts s.submitting c) s
  handle ts (edit text) s = if s.dialog_open then record s { rationale = text } else s
  handle ts cancel_decision s = if s.submitting then s else record s { dialog_open = false }
  handle ts cancel_retry s = if s.submitting then s else record s { retry_dialog_open = false }
  handle ts escape s =
      if s.submitting then s else record s { dialog_open = false; retry_dialog_open = false }
  handle ts (press_decide c) s = begin_decision c s
  handle ts (press_retry uuid c) s = begin_retry ts uuid c s
  handle ts (answered i answer) s = settle i answer s

  -- The states that the view can be in. What it is given to send with may change.
  pub data Reached : DetailState N → Type 0 where
    start : Reached fresh
    next :
        {s : DetailState N} (ts : Transports N) (e : Event N) → Reached s → Reached (handle ts e s)
