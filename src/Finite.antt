-- ===== src/Finite.antt =====
-- packages/promotion-ui/src/types.ts: what it means that a number of a view model is a number. The
-- type `number` of the source has NaN and the infinities; the views print what they are given.
pub mod Decoded
pub mod Told
pub mod Streamed
pub mod Loaded
use agent_promotion_control.Prelude.{ℕ, ◌≡◌, true, Option, none, some, All}
use agent_promotion_control.Js.{Runtime}
use agent_promotion_control.Live.Window.{IsFinite}
use agent_promotion_control.View.{
  GateViewModel, EvaluationSummaryViewModel, CandidateViewModel, DashboardViewModel,
}

-- The documented behaviour of doubles that the readers rest on: the numerals of the source and the
-- lengths of arrays are finite, and so is a hundredth of a finite number.
pub record KeepsFinite (N : Type 0) (js : Runtime N) : Type 0 where
  pub of_nat_finite : (n : ℕ) → js.is_finite (js.of_nat n) ≡ true
  pub over_finite :
      (a : N) → js.is_finite a ≡ true → js.is_finite (js.over a (js.of_nat 100)) ≡ true

module _ {N : Type 0} (js : Runtime N) where
  abbrev pub IsFiniteNumber : N → Type 0
  IsFiniteNumber n = js.is_finite n ≡ true

  -- A number that may be missing.
  abbrev pub IsFiniteOption : Option N → Type 0
  IsFiniteOption none = Unit
  IsFiniteOption (some n) = IsFiniteNumber n

  pub record IsFiniteGate (gate : GateViewModel N) : Type 0 where
    pub weight : IsFiniteOption gate.weight
    pub score : IsFiniteOption gate.score
    pub normalized_score : IsFiniteOption gate.normalized_score
    pub measurement_value : IsFiniteOption gate.measurement_value
    pub threshold : IsFiniteOption gate.threshold
    pub samples : IsFiniteNumber gate.samples
    pub minimum_samples : IsFiniteNumber gate.minimum_samples
    pub evidence_count : IsFiniteNumber gate.evidence_count
    pub required_evidence_count : IsFiniteNumber gate.required_evidence_count

  pub record IsFiniteSummary (summary : EvaluationSummaryViewModel N) : Type 0 where
    pub readiness_percentage : IsFiniteNumber summary.readiness_percentage
    pub hard_gate_readiness : IsFiniteNumber summary.hard_gate_readiness
    pub weighted_readiness : IsFiniteNumber summary.weighted_readiness
    pub sample_completeness : IsFiniteNumber summary.sample_completeness
    pub evaluation_completeness : IsFiniteNumber summary.evaluation_completeness
    pub weighted_score : IsFiniteOption summary.weighted_score
    pub required_weighted_score : IsFiniteNumber summary.required_weighted_score
    pub valid_result_count : IsFiniteNumber summary.valid_result_count
    pub required_result_count : IsFiniteNumber summary.required_result_count

  -- Every number of a candidate, other than those in the details of its blockers, which are the
  -- values of the body.
  pub record IsFiniteCandidate (c : CandidateViewModel N) : Type 0 where
    pub revision : IsFiniteNumber c.revision
    pub evaluation : IsFiniteSummary c.evaluation
    pub required_lifecycle_approvals : IsFiniteNumber c.required_lifecycle_approvals
    pub available_lifecycle_approvals : IsFiniteNumber c.available_lifecycle_approvals
    pub consumed_lifecycle_approvals : IsFiniteNumber c.consumed_lifecycle_approvals
    pub active_blocker_count : IsFiniteNumber c.active_blocker_count
    pub hard_gates_passed : IsFiniteOption c.hard_gates_passed
    pub hard_gates_required : IsFiniteOption c.hard_gates_required
    pub gates : All IsFiniteGate c.gates
    pub timeline : All (IsFinite js) c.timeline

  -- The candidates and the recent events of a dashboard.
  pub record IsFiniteDashboard (d : DashboardViewModel N) : Type 0 where
    pub candidates : All IsFiniteCandidate d.candidates
    pub recent_events : All (IsFinite js) d.recent_events
