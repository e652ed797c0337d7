-- ===== src/Decision/Panel.antt =====
-- packages/promotion-ui/src/views/candidate-detail.tsx: the texts of the screen, the blocker and the
-- gates, and the button of the decision panel.
use mathlib.Core.Option
use agent_promotion_control.Prelude.{
  String, Bool, ◌&&◌, ◌||◌, not, true, false, Option, none, some, List, [], ◌∷◌, keep, get_or,
  is_some, ◌==◌, ◌or_else◌, if◌then◌else◌,
}
use agent_promotion_control.Js.{Value, Runtime, ◌^^◌}
use agent_promotion_control.View.{
  CandidateViewModel, GateViewModel, hard_gate, weighted, EvidenceViewModel, EvidenceKind, artifact,
  detector_signal, BlockerViewModel, PromotionMutation, LifecycleDecisionRequest,
  LifecycleDecisionResult,
}
use agent_promotion_control.Format.{format_percent, format_utc}
use agent_promotion_control.Fetch.{Outcome}
use agent_promotion_control.Decision.{has_blocker, can_promote}

-- What the view is given to send with; the callbacks and the data source may be missing.
pub record Transports (N : Type 0) : Type 0 where
  pub on_decision : Option (LifecycleDecisionRequest N → Outcome (LifecycleDecisionResult N))
  pub on_mutation : Option (PromotionMutation N → Outcome (LifecycleDecisionResult N))
  pub mutate : Option (PromotionMutation N → Outcome (Value N))
  pub embedded : Bool

-- The screens of the governed copy that the view speaks from.
pub data Screen : Type 0 where
  registry_pending registry_failure blocker candidate : Screen

-- The button of the panel: it opens the decision's dialog, or the retry's, or is disabled.
pub data PanelButton : Type 0 where
  promote : PanelButton
  retry : (disabled : Bool) → (label : String) → PanelButton
  unavailable : (label : String) → PanelButton

-- `first` of an array.
abbrev pub first {ℓ} : {A : Type ℓ} → List A → Option A
first [] = none
first (x ∷ xs) = some x

abbrev is_artifact : EvidenceKind → Bool
is_artifact artifact = true
is_artifact detector_signal = false

unfoldable pub evidence_artifacts : List EvidenceViewModel → List EvidenceViewModel
evidence_artifacts evidence = keep (λ e. is_artifact e.kind) evidence

unfoldable pub detector_signals : List EvidenceViewModel → List EvidenceViewModel
detector_signals evidence = keep (λ e. not (is_artifact e.kind)) evidence

module _ {N : Type 0} where
  unfoldable pub active_copy : CandidateViewModel N → Screen
  active_copy c =
      if c.activation_state == "PENDING"
      then registry_pending
      else if c.activation_state == "FAILED"
      then registry_failure
      else if has_blocker c
      then blocker
      else candidate

  unfoldable pub panel_button : Transports N → Bool → CandidateViewModel N → PanelButton
  panel_button ts submitting c =
      if can_promote c && (not ts.embedded || is_some ts.on_decision)
      then promote
      else if c.activation_state == "FAILED"
      then retry
          (submitting
            || (if ts.embedded then not (is_some ts.on_mutation) else not (is_some ts.mutate)))
          (if ts.embedded && not (is_some ts.on_mutation)
            then "Attention callback required"
            else "Retry registry publication")
      else if c.activation_state == "PENDING"
      then unavailable "Registry publication pending"
      else if ts.embedded && not (is_some ts.on_decision)
      then unavailable "Attention callback required"
      else unavailable "Promotion unavailable"

  -- The heading and the text of the blocker: the first blocker's, or the candidate's own.
  unfoldable pub blocker_notice : String → CandidateViewModel N → String × String
  blocker_notice line2 c =
      let primary = first c.blockers in
      (
        get_or (Option.map (λ (b : BlockerViewModel N). b.title) primary or_else c.blocker_summary)
            "A required promotion condition remains unresolved.",
        get_or (Option.map (λ (b : BlockerViewModel N). b.explanation) primary) line2,
      )

  unfoldable pub activation_meaning : CandidateViewModel N → String
  activation_meaning c =
      if c.activation_state == "SUCCEEDED"
      then "The worker published an immutable agent version."
      else if c.activation_state == "PENDING"
      then "The worker must succeed before promotion completes."
      else if c.activation_state == "FAILED"
      then "Publication failed. The candidate remains eligible but blocked."
      else "No registry publication request exists."

module _ {N : Type 0} (js : Runtime N) (times : N → N → N) where
  -- A share as a percentage.
  abbrev as_percent : N → String
  as_percent share = format_percent js (times share (js.of_nat 100))

  -- The cells of a gate: its weight, its normalized score, and its last run.
  unfoldable pub weight_cell : GateViewModel N → String
  weight_cell gate = elim gate.kind [
    | hard_gate ↦ "Weight: Not applicable"
    | weighted ↦ "Weight: " ^^ get_or (Option.map as_percent gate.weight) "Not applicable"
  ]

  unfoldable pub normalized_cell : GateViewModel N → String
  normalized_cell gate = elim gate.normalized_score [
    | none ↦ "No normalized score"
    | some score ↦ as_percent score ^^ " normalized"
  ]

  unfoldable pub coverage_cell : GateViewModel N → String × String
  coverage_cell gate = (
    js.to_text gate.samples ^^ " of " ^^ js.to_text gate.minimum_samples ^^ " samples",
    js.to_text gate.evidence_count
        ^^ " of "
        ^^ js.to_text gate.required_evidence_count
        ^^ " evidence items",
  )

  unfoldable pub last_run_cell : (N → String) → GateViewModel N → String
  last_run_cell calendar gate =
      if get_or gate.last_run_at "" == ""
      then "No completed run"
      else format_utc js calendar gate.last_run_at

  unfoldable pub approval_coverage : CandidateViewModel N → String
  approval_coverage c =
      js.to_text (js.plus c.available_lifecycle_approvals c.consumed_lifecycle_approvals)
      ^^ " of "
      ^^ js.to_text c.required_lifecycle_approvals
      ^^ " required"
