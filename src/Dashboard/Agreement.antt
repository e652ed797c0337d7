-- ===== src/Dashboard/Agreement.antt =====
-- packages/promotion-ui/src/live.ts against apps/web/src/lib/api.ts: the promotion eligibility that an
-- event carries and the one that a candidate's body holds are read alike.
use agent_promotion_control.Prelude.{ℕ, ◌≡◌, refl, String, Bool, true, some, List, arith}
use agent_promotion_control.Js.{bool, num, str, obj, Fields, ◌!◌, Runtime}
use agent_promotion_control.View.{
  CandidateViewModel, TimelineEventViewModel, PromotionEventEnvelope,
}
use agent_promotion_control.Live
use agent_promotion_control.Live.{
  normalized_approval_state, update_candidate, text, boolean, numeric_value,
}
use agent_promotion_control.Api
use agent_promotion_control.Api.{
  approval_state, normalize_candidate, to_record, string, number_or_zero,
}

-- The two spellings of the approval state.
approval_state-agrees : (s : String) → normalized_approval_state (some s) ≡ some (approval_state s)
unfolding normalized_approval_state approval_state
approval_state-agrees s = ground arith

module _ {N : Type 0} (js : Runtime N) where
  -- An eligibility record that reports every field, with finite numbers.
  pub record IsReported (e : Fields N) : Type 0 where
    pub eligible : Bool
    pub state : String
    pub activation : String
    pub required : N
    pub available : N
    pub consumed : N
    pub blockers : N
    pub has_eligible : e ! "eligible" ≡ bool eligible
    pub has_state : e ! "lifecycle_approval_state" ≡ str state
    pub has_activation : e ! "registry_activation_state" ≡ str activation
    pub has_required : e ! "required_lifecycle_approvals" ≡ num required
    pub has_available : e ! "available_lifecycle_approvals" ≡ num available
    pub has_consumed : e ! "consumed_lifecycle_approvals" ≡ num consumed
    pub has_blockers : e ! "active_blocker_count" ≡ num blockers
    pub required_finite : js.is_finite required ≡ true
    pub available_finite : js.is_finite available ≡ true
    pub consumed_finite : js.is_finite consumed ≡ true
    pub blockers_finite : js.is_finite blockers ≡ true

  -- Two candidates with the same standing for a promotion.
  pub record SameStanding (a b : CandidateViewModel N) : Type 0 where
    pub eligible : a.promotion_eligible ≡ b.promotion_eligible
    pub state : a.lifecycle_approval_state ≡ b.lifecycle_approval_state
    pub activation : a.activation_state ≡ b.activation_state
    pub required : a.required_lifecycle_approvals ≡ b.required_lifecycle_approvals
    pub available : a.available_lifecycle_approvals ≡ b.available_lifecycle_approvals
    pub consumed : a.consumed_lifecycle_approvals ≡ b.consumed_lifecycle_approvals
    pub blockers : a.active_blocker_count ≡ b.active_blocker_count

  -- Where an event's payload and a candidate's body hold the same `promotion_eligibility`, which
  -- reports every field with finite numbers, any candidate that the
  -- event updates has the same standing as the candidate of the body.
  pub update_candidate-normalize_candidate :
      (uuids : ℕ → String) (body : Fields N) (linked : List (TimelineEventViewModel N))
      (event : PromotionEventEnvelope N) (recent : TimelineEventViewModel N)
      (c : CandidateViewModel N) (e : Fields N)
      → event.payload ! "promotion_eligibility" ≡ obj e
      → body ! "promotion_eligibility" ≡ obj e
      → IsReported e
      → SameStanding
          (update_candidate js event recent c)
          (normalize_candidate js uuids (obj body) linked)
  unfolding update_candidate normalize_candidate Live.to_record Live.number Live.text Live.boolean
      numeric_value Api.to_record Api.number Api.boolean number_or_zero string
  update_candidate-normalize_candidate uuids body linked event recent c e live loaded r = record {
    eligible = rw (live, loaded, r.has_eligible) refl;
    state = rw (live, loaded, r.has_state, approval_state-agrees r.state) refl;
    activation = rw (live, loaded, r.has_activation) refl;
    required = rw (live, loaded, r.has_required, r.required_finite) refl;
    available = rw (live, loaded, r.has_available, r.available_finite) refl;
    consumed = rw (live, loaded, r.has_consumed, r.consumed_finite) refl;
    blockers = rw (live, loaded, r.has_blockers, r.blockers_finite) refl;
  }
