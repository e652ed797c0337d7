-- ===== src/Examples/Views.antt =====
-- The list views on small dashboards.
use mathlib.Core.List.{Perm}
use agent_promotion_control.Prelude.{
  ℕ, ◌≤◌, ◌≡◌, ◌⊎◌, ◌↔◌, ◌++◌, refl, String, Bool, true, false, Option, none, some, List, [], ◌∷◌,
  All, keep, length, ◌&&◌, ◌==◌, arith, eq_iff,
}
use agent_promotion_control.Js.{Value, obj, str, field, end}
use agent_promotion_control.Js.Sorting.{IsOrderedBy}
use agent_promotion_control.View.{CandidateViewModel, PromotionMutation, LifecycleDecisionResult}
use agent_promotion_control.Fetch.{Outcome, returns}
use agent_promotion_control.Api.{normalize_candidate}
use agent_promotion_control.Views.{
  initial_filters, type_option, detector_option, shown_candidates, queue, run_cycle, can_run,
}
use agent_promotion_control.Views.Search.{shown_candidates_lem}
use agent_promotion_control.Views.Queue.{IsAhead, queue-IsUrgent}
use agent_promotion_control.Views.Cycle.{IsSent, run_cycle_lem}
use agent_promotion_control.Examples.Machine.{machine}

abbrev eligible : CandidateViewModel ℕ
eligible =
    normalize_candidate machine (λ i. "uuid")
      (obj (field "id" (str "c1") (field "stage" (str "ELIGIBLE") end))) []

abbrev blocked : CandidateViewModel ℕ
blocked =
    normalize_candidate machine (λ i. "uuid")
      (obj (field "id" (str "c2") (field "status" (str "BLOCKED") end))) []

abbrev both : List (CandidateViewModel ℕ)
both = eligible ∷ blocked ∷ []

shown_candidates_lem_example :
    (shown_candidates machine initial_filters both ≡ both)
    × (shown_candidates machine (record initial_filters { source = type_option "AGENT" }) both
        ≡ keep (λ c. c.candidate_type == "AGENT") both)
    × (shown_candidates machine (record initial_filters { source = detector_option "AGENT" }) both
        ≡ keep (λ c. c.detector_lineage == "AGENT") both)
    × (shown_candidates machine (record initial_filters { stage = "AGENT" }) both
        ≡ keep (λ c. c.stage == "AGENT") both)
    × (shown_candidates machine (record initial_filters { disposition = "PROMOTION_READY" }) both
        ≡ keep (λ c. c.promotion_eligible && c.activation_state == "NOT_REQUESTED") both)
    × (shown_candidates machine (record initial_filters { disposition = "BLOCKED" }) both
        ≡ keep (λ c. c.status == "BLOCKED") both)
    × (shown_candidates machine (record initial_filters { disposition = "PROMOTION_PENDING" }) both
        ≡ keep (λ c. c.activation_state == "PENDING") both)
shown_candidates_lem_example =
    shown_candidates_lem machine refl "AGENT" both (ground (arith, eq_iff "AGENT" "ALL"))

abbrev stage_of : CandidateViewModel ℕ → String
stage_of c = c.stage

abbrev never_after : String → String → Bool
never_after a b = false

queue-IsUrgent_example :
    (length (queue never_after both) ≤ 6)
    × IsOrderedBy IsAhead (queue never_after both)
    × ((hidden : List (CandidateViewModel ℕ)) × Perm (queue never_after both ++ hidden) both
        × All (λ c. All (IsAhead c) hidden) (queue never_after both))
queue-IsUrgent_example = queue-IsUrgent never_after both

abbrev callback : Option (PromotionMutation ℕ → Outcome (LifecycleDecisionResult ℕ))
callback = none

abbrev source : Option (PromotionMutation ℕ → Outcome (Value ℕ))
source = some (λ m. returns (str "queued"))

run_cycle_lem_example :
    ((true ≡ true) ⊎ (run_cycle true callback source false "TypeError" "k" ≡ none))
    × ((can_run true false false callback source ≡ true)
        ↔ ((true ≡ true) × (false ≡ false) × IsSent false callback source "TypeError" "k"))
run_cycle_lem_example = run_cycle_lem true false false callback source "TypeError" "k"
