-- ===== src/Examples/Detail.antt =====
-- The candidate's view: its panel and its dialogs, step by step.
use agent_promotion_control.Prelude.{ℕ, ◌≡◌, ◌⊎◌, refl, true, false, none, some, []}
use agent_promotion_control.Js.{str, obj, end, trim, trim_start, trim_end, is_space, utf16_length}
use agent_promotion_control.View.{CandidateViewModel, LifecycleDecisionResult}
use agent_promotion_control.Fetch.{Outcome, returns, throws}
use agent_promotion_control.Api.{normalize_candidate}
use agent_promotion_control.Decision.{or_failed, can_promote, approvals_satisfied, has_blocker}
use agent_promotion_control.Decision.Panel.{Transports, panel_button}
use agent_promotion_control.Decision.Dialogs.{
  DetailState, edit, press_decide, open_panel, answered, fresh, handle, press_panel, begin_decision,
  Reached, start, next,
}
use agent_promotion_control.Decision.Exclusive.{
  IsExclusive, IsIdle, is_thrown, Reached-IsExclusive, answered-IsIdle,
}
use agent_promotion_control.Decision.Buttons.{IsJustified, panel_button-IsJustified}
use agent_promotion_control.Examples.Machine.{machine}

abbrev plain : CandidateViewModel ℕ
plain = normalize_candidate machine (λ i. "uuid") (obj end) []

abbrev ready : CandidateViewModel ℕ
ready = record plain {
  promotion_eligible = true;
  lifecycle_approval_state = "APPROVED";
  activation_state = "NOT_REQUESTED";
  blocker_code = none;
  blocker_summary = none;
}

abbrev standalone : Transports ℕ
standalone = record {
  on_decision = none;
  on_mutation = none;
  mutate = some (λ m. returns (str "queued"));
  embedded = false;
}

abbrev opened : DetailState ℕ
opened = handle standalone (open_panel ready) fresh

abbrev written : DetailState ℕ
written = handle standalone (edit "Every gate has passed twice.") opened

abbrev submitted : DetailState ℕ
submitted = handle standalone (press_decide ready) written

submitted-Reached : Reached submitted
submitted-Reached = next standalone (press_decide ready) (
    next standalone (edit "Every gate has passed twice.")
      (next standalone (open_panel ready) start))

submitted_on : submitted.submitting ≡ true
unfolding handle begin_decision press_panel panel_button can_promote approvals_satisfied has_blocker
    trim trim_start trim_end is_space utf16_length
submitted_on = refl

Reached-IsExclusive_example : IsExclusive submitted
Reached-IsExclusive_example = Reached-IsExclusive submitted submitted-Reached

abbrev refused : Outcome (LifecycleDecisionResult ℕ)
refused = throws "The candidate has changed."

answered-IsIdle_example :
    let after = handle standalone (answered 0 refused) submitted in
    IsIdle after
    × (after.result ≡ some (or_failed refused))
    × ((after.dialog_open ≡ true) ⊎ (after.retry_dialog_open ≡ is_thrown refused))
answered-IsIdle_example =
    answered-IsIdle standalone refused submitted submitted-Reached submitted_on

panel_button-IsJustified_example :
    IsJustified standalone false ready (panel_button standalone false ready)
panel_button-IsJustified_example = panel_button-IsJustified standalone false ready
