-- ===== src/Decision.antt =====
-- packages/promotion-ui/src/views/candidate-detail.tsx: when a candidate may be promoted, and what
-- submitting the decision or retrying the registry does. The two ways to send are the callbacks that
-- the view is given, each none if it is missing; `uuid` is the value of `crypto.randomUUID()`.
pub mod Laws
pub mod Page
pub mod Panel
pub mod Dialogs
pub mod Exclusive
pub mod Buttons
use agent_promotion_control.Prelude.{
  String, Bool, ◌&&◌, ◌||◌, not, true, false, Option, none, some, List, [], ◌∷◌, get_or, is_some,
  ltb, ◌==◌, if◌then◌else◌,
}
use agent_promotion_control.Js.{
  Value, undefined, null, num, str, Fields, end, field, property, ◌⁇◌, Runtime, trim, utf16_length,
  is_truthy,
}
use agent_promotion_control.View.{
  CandidateViewModel, PromotionMutation, promotion, promotion_retry, LifecycleDecisionRequest,
  LifecycleDecisionResult,
}
use agent_promotion_control.Live.{truthy}
use agent_promotion_control.Fetch.{Outcome, returns, throws, ◌>>=◌}

module _ {N : Type 0} where
  unfoldable pub has_blocker : CandidateViewModel N → Bool
  has_blocker candidate =
      is_some (truthy candidate.blocker_code) || is_some (truthy candidate.blocker_summary)

  unfoldable pub approvals_satisfied : CandidateViewModel N → Bool
  approvals_satisfied candidate =
      candidate.lifecycle_approval_state == "NOT_REQUIRED"
      || candidate.lifecycle_approval_state == "APPROVED"

  unfoldable pub can_promote : CandidateViewModel N → Bool
  unfolding has_blocker approvals_satisfied
  can_promote candidate =
      candidate.promotion_eligible
      && approvals_satisfied candidate
      && not (has_blocker candidate)
      && candidate.activation_state == "NOT_REQUESTED"

  unfoldable pub decision_request : CandidateViewModel N → String → LifecycleDecisionRequest N
  decision_request candidate rationale = record {
    candidate = candidate;
    target_stage = "PROMOTED";
    policy_hash = candidate.policy_hash;
    evaluation_snapshot_hash = candidate.evaluation_snapshot_hash;
    rationale = trim rationale;
    expected_candidate_revision = candidate.revision;
  }

  unfoldable pub decision_mutation : String → CandidateViewModel N → String → PromotionMutation N
  decision_mutation uuid candidate rationale = record {
    resource = promotion;
    id = candidate.id;
    expected_candidate_revision = some candidate.revision;
    body =
        some (
          field "actor" (str "standalone-reviewer") (field "rationale" (str (trim rationale)) end));
    idempotency_key = uuid;
  }

  unfoldable pub retry_mutation : String → CandidateViewModel N → PromotionMutation N
  retry_mutation uuid candidate = record {
    resource = promotion_retry;
    id = get_or candidate.registry_operation_id candidate.id;
    expected_candidate_revision = some candidate.revision;
    body = some (field "actor" (str "standalone-reviewer") end);
    idempotency_key = uuid;
  }

  -- A result without the two optional fields.
  abbrev pub result_of : Bool → String → LifecycleDecisionResult N
  result_of accepted message = record {
    accepted = accepted;
    operation_id = none;
    candidate_revision = none;
    message = message;
  }

  -- The `catch`: the error's message, and not accepted.
  abbrev pub or_failed : Outcome (LifecycleDecisionResult N) → LifecycleDecisionResult N
  or_failed (returns result) = result
  or_failed (throws message) = result_of false message

  -- `submitDecision`, with its result if it gets beyond the first test. `read_result` makes a
  -- result of what the data source answers.
  unfoldable pub submit_decision :
      Option (LifecycleDecisionRequest N → Outcome (LifecycleDecisionResult N))
      → Option (PromotionMutation N → Outcome (Value N))
      → (Value N → Outcome (LifecycleDecisionResult N))
      → String
      → CandidateViewModel N
      → String
      → Option (LifecycleDecisionResult N)
  unfolding decision_request decision_mutation
  submit_decision on_decision mutate read_result uuid candidate rationale =
      if ltb (utf16_length (trim rationale)) 20
      then none
      else some (elim on_decision [
        | some decide ↦ or_failed (decide (decision_request candidate rationale))
        | none ↦ elim mutate [
          | some send ↦
              or_failed (send (decision_mutation uuid candidate rationale) >>= read_result)
          | none ↦
              result_of false
                "No decision transport exists. The system left the candidate unchanged."
        ]
      ])

module _ {N : Type 0} (js : Runtime N) where
  -- `operationId ? { operationId } : {}` of a text, and the same of a number.
  abbrev text_if_truthy : Value N → Option String
  text_if_truthy (str s) = truthy (some s)
  text_if_truthy _ = none

  abbrev number_if_truthy : Value N → Option N
  number_if_truthy (num n) = if is_truthy js (num n) then some n else none
  number_if_truthy _ = none

  -- The result of a promotion that the data source answered: a property of `null` cannot be read,
  -- which throws `type_error`.
  unfoldable pub queued_result : String → Value N → Outcome (LifecycleDecisionResult N)
  queued_result type_error null = throws type_error
  queued_result type_error undefined = throws type_error
  queued_result type_error response = returns (record {
    accepted = true;
    operation_id =
        text_if_truthy (property response "operationId" ⁇ property response "operation_id");
    candidate_revision =
        number_if_truthy
          (property response "candidateRevision" ⁇ property response "candidate_revision");
    message = "Recorded the lifecycle decision. Queued registry publication.";
  })

-- What `retryRegistry` leaves: its result, and whether the dialog stays open.
pub record RetryEnd (N : Type 0) : Type 0 where
  pub result : LifecycleDecisionResult N
  pub dialog_open : Bool

module _ {N : Type 0} where
  unfoldable pub retry_end : Outcome (LifecycleDecisionResult N) → RetryEnd N
  retry_end (returns result) = record { result = result; dialog_open = false }
  retry_end (throws message) = record { result = result_of false message; dialog_open = true }

  -- `dataSource!.mutate(mutation)`: without a data source the call throws `type_error`.
  unfoldable pub retry_source :
      Option (PromotionMutation N → Outcome (Value N))
      → String
      → PromotionMutation N
      → Outcome (LifecycleDecisionResult N)
  retry_source none type_error mutation = throws type_error
  retry_source (some send) type_error mutation = do
    response ← send mutation
    returns (result_of true "Queued registry publication with the stable publication token.")

  -- `retryRegistry`, with what it leaves if it gets beyond the first test.
  unfoldable pub retry_registry :
      Option (PromotionMutation N → Outcome (LifecycleDecisionResult N))
      → Option (PromotionMutation N → Outcome (Value N))
      → Bool
      → String
      → String
      → CandidateViewModel N
      → Option (RetryEnd N)
  unfolding retry_mutation retry_end retry_source
  retry_registry none mutate true type_error uuid candidate = none
  retry_registry none none false type_error uuid candidate = none
  retry_registry none (some send) false type_error uuid candidate =
      some (retry_end (retry_source (some send) type_error (retry_mutation uuid candidate)))
  retry_registry (some decide) mutate true type_error uuid candidate =
      some (retry_end (decide (retry_mutation uuid candidate)))
  retry_registry (some decide) mutate false type_error uuid candidate =
      some (retry_end (retry_source mutate type_error (retry_mutation uuid candidate)))
