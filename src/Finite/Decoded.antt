-- ===== src/Finite/Decoded.antt =====
-- apps/web/src/lib/api.ts: the numbers that are read off an unchecked body.
use agent_promotion_control.Prelude.{
  ℕ, suc, String, some, List, [], ◌∷◌, ◌++◌, map, map_index_from, All, inl, inr, Bool-cases,
  if-either, if◌then◌else◌, leb, length, keep, arith,
}
use agent_promotion_control.Js.{Value, num, str, obj, Fields, is_nullish, Runtime}
use agent_promotion_control.View.{TimelineEventViewModel, GateViewModel}
use agent_promotion_control.Api.{
  number, number_or_zero, nullable_number, ratio, map_event, map_gate, map_summary, is_hard,
  hard_gates_passed, hard_gates_required, map_gates, normalize_candidate,
}
use agent_promotion_control.Js.Sorting.{All-sort}
use agent_promotion_control.Live.{behind}
use agent_promotion_control.Live.Window.{IsFinite}
use agent_promotion_control.Finite.{
  KeepsFinite, IsFiniteNumber, IsFiniteOption, IsFiniteGate, IsFiniteSummary, IsFiniteCandidate,
}

module _ {N : Type 0} (js : Runtime N) where
  pub number-IsFinite :
      (v : Value N) (fallback : N)
      → IsFiniteNumber js fallback
      → IsFiniteNumber js (number js v fallback)
  unfolding number
  number-IsFinite (num n) fallback h = ground arith
  number-IsFinite (str s) fallback h = ground arith
  number-IsFinite _ fallback h = h

module _ {N : Type 0} {js : Runtime N} (laws : KeepsFinite N js) where
  number_or_zero-IsFinite : (v : Value N) → IsFiniteNumber js (number_or_zero js v)
  unfolding number_or_zero
  number_or_zero-IsFinite v = number-IsFinite js v _ (laws.of_nat_finite 0)

  nullable_number-IsFinite : (v : Value N) → IsFiniteOption js (nullable_number js v)
  unfolding nullable_number
  nullable_number-IsFinite v = elim (Bool-cases (is_nullish v)) [
    | inl missing ↦ rw missing tt
    | inr given ↦ rw given (number_or_zero-IsFinite v)
  ]

  ratio-IsFinite :
      (v : Value N) (fallback : N)
      → IsFiniteNumber js fallback
      → IsFiniteNumber js (ratio js v fallback)
  unfolding ratio
  ratio-IsFinite v fallback h =
      let read = number-IsFinite js v fallback h in
      elim (Bool-cases (js.gt (number js v fallback) (js.of_nat 1))) [
        | inl percentage ↦ rw percentage (laws.over_finite _ read)
        | inr share ↦ rw share read
      ]

  first_number-IsFinite :
      (first second : Value N)
      → IsFiniteOption js
          (if is_nullish first then nullable_number js second else some (number_or_zero js first))
  first_number-IsFinite first second = elim (Bool-cases (is_nullish first)) [
    | inl missing ↦ rw missing (nullable_number-IsFinite second)
    | inr given ↦ rw given (number_or_zero-IsFinite first)
  ]

  map_gate-IsFinite : (uuid : String) (v : Value N) → IsFiniteGate js (map_gate js uuid v)
  unfolding map_gate
  map_gate-IsFinite uuid v = record {
    weight = first_number-IsFinite _ _;
    score = first_number-IsFinite _ _;
    normalized_score = first_number-IsFinite _ _;
    measurement_value = nullable_number-IsFinite _;
    threshold = nullable_number-IsFinite _;
    samples = number_or_zero-IsFinite _;
    minimum_samples = number_or_zero-IsFinite _;
    evidence_count = number-IsFinite js _ _ (laws.of_nat_finite _);
    required_evidence_count = number-IsFinite js _ _ (laws.of_nat_finite _);
  }

  map_gates-IsFinite :
      (uuids : ℕ → String) (i : ℕ) (results : List (Fields N))
      → All
          (IsFiniteGate js)
          (map_index_from i (λ result j. map_gate js (uuids j) (obj result)) results)
  map_gates-IsFinite uuids i [] = tt
  map_gates-IsFinite uuids i (result ∷ results) =
      (map_gate-IsFinite (uuids i) (obj result), map_gates-IsFinite uuids (suc i) results)

  map_summary-IsFinite :
      (source readiness : Fields N) (n : ℕ) → IsFiniteSummary js (map_summary js source readiness n)
  unfolding map_summary
  map_summary-IsFinite source readiness n =
      let zero_finite = laws.of_nat_finite 0 in
      record {
        readiness_percentage = number_or_zero-IsFinite _;
        hard_gate_readiness = ratio-IsFinite _ _ zero_finite;
        weighted_readiness = ratio-IsFinite _ _ zero_finite;
        sample_completeness = ratio-IsFinite _ _ zero_finite;
        evaluation_completeness = ratio-IsFinite _ _ zero_finite;
        weighted_score = nullable_number-IsFinite _;
        required_weighted_score = number_or_zero-IsFinite _;
        valid_result_count = number_or_zero-IsFinite _;
        required_result_count = number_or_zero-IsFinite _;
      }

  hard_gates_passed-IsFinite :
      (v : Value N) (gates : List (GateViewModel N))
      → IsFiniteOption js (hard_gates_passed js v gates)
  unfolding hard_gates_passed
  hard_gates_passed-IsFinite v gates =
      if-either (IsFiniteOption js) (is_nullish v)
        (λ missing.
          if-either (IsFiniteOption js) (leb 1 (length (keep is_hard gates)))
            (λ h. laws.of_nat_finite _) (λ h. tt))
        (λ given. number_or_zero-IsFinite v)

  hard_gates_required-IsFinite :
      (v : Value N) (gates : List (GateViewModel N))
      → IsFiniteOption js (hard_gates_required js v gates)
  unfolding hard_gates_required
  hard_gates_required-IsFinite v gates =
      if-either (IsFiniteOption js) (is_nullish v)
        (λ missing.
          if-either (IsFiniteOption js) (leb 1 (length (keep is_hard gates)))
            (λ h. laws.of_nat_finite _) (λ h. tt))
        (λ given. number_or_zero-IsFinite v)

  -- The events of a body, followed by those that are linked.
  events_IsFinite :
      (bodies : List (Fields N)) (linked : List (TimelineEventViewModel N))
      → All (IsFinite js) linked
      → All (IsFinite js) (map (λ event. map_event js (obj event)) bodies ++ linked)
  unfolding map_event
  events_IsFinite [] linked h = h
  events_IsFinite (body ∷ bodies) linked h =
      (number_or_zero-IsFinite _, events_IsFinite bodies linked h)

  -- Whatever value the control plane answers with, every number of the candidate that it is read as
  -- is finite, other than the raw details of its blockers, where the sequence numbers of the linked
  -- events are.
  pub normalize_candidate-IsFinite :
      (uuids : ℕ → String) (value : Value N) (linked : List (TimelineEventViewModel N))
      → All (IsFinite js) linked
      → IsFiniteCandidate js (normalize_candidate js uuids value linked)
  unfolding normalize_candidate map_gates
  normalize_candidate-IsFinite uuids value linked h = record {
    revision = number-IsFinite js _ _ (laws.of_nat_finite 1);
    evaluation = map_summary-IsFinite _ _ _;
    required_lifecycle_approvals = number_or_zero-IsFinite _;
    available_lifecycle_approvals = number_or_zero-IsFinite _;
    consumed_lifecycle_approvals = number_or_zero-IsFinite _;
    active_blocker_count = number-IsFinite js _ _ (laws.of_nat_finite _);
    hard_gates_passed = hard_gates_passed-IsFinite _ _;
    hard_gates_required = hard_gates_required-IsFinite _ _;
    gates = map_gates-IsFinite uuids 0 _;
    timeline = All-sort (behind js) (IsFinite js) _ (events_IsFinite _ linked h);
  }
