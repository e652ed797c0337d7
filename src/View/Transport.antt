-- ===== src/View/Transport.antt =====
-- packages/promotion-ui/src/types.ts: what passes between the views and the control plane.
use agent_promotion_control.Prelude.{String, Bool, Option}
use agent_promotion_control.Js.{Fields}
use agent_promotion_control.View.Candidate.{CandidateViewModel}

pub record PromotionEventEnvelope (N : Type 0) : Type 0 where
  pub id : String
  pub sequence : N
  pub schema_version : N
  pub event_type : String
  pub occurred_at : String
  pub actor : String
  pub candidate_id : Option String
  pub evaluation_run_id : Option String
  pub schedule_run_id : Option String
  pub registry_operation_id : Option String
  pub correlation_id : String
  pub causation_id : Option String
  pub policy_hash : Option String
  pub payload : Fields N

pub data QueryResource : Type 0 where
  dashboard candidate evaluation events policies schedules registry : QueryResource

pub record PromotionQuery : Type 0 where
  pub resource : QueryResource
  pub id : Option String
  pub cursor : Option String

pub data MutationResource : Type 0 where
  promotion promotion_retry evaluate schedule demo_cycle : MutationResource

pub record PromotionMutation (N : Type 0) : Type 0 where
  pub resource : MutationResource
  pub id : String
  pub expected_candidate_revision : Option N
  pub body : Option (Fields N)
  pub idempotency_key : String

pub record LifecycleDecisionRequest (N : Type 0) : Type 0 where
  pub candidate : CandidateViewModel N
  pub target_stage : String
  pub policy_hash : String
  pub evaluation_snapshot_hash : String
  pub rationale : String
  pub expected_candidate_revision : N

pub record LifecycleDecisionResult (N : Type 0) : Type 0 where
  pub accepted : Bool
  pub operation_id : Option String
  pub candidate_revision : Option N
  pub message : String
