-- ===== src/View/Candidate.antt =====
-- packages/promotion-ui/src/types.ts: a candidate with its gates, evidence, blockers and events.
use agent_promotion_control.Prelude.{String, Bool, Option, List}
use agent_promotion_control.Js.{Fields}

pub data GateVerdict : Type 0 where
  passed failed remaining not_applicable : GateVerdict

pub data GateKind : Type 0 where
  hard_gate weighted : GateKind

pub record GateViewModel (N : Type 0) : Type 0 where
  pub id : String
  pub name : String
  pub category : String
  pub kind : GateKind
  pub weight : Option N
  pub verdict : GateVerdict
  pub score : Option N
  pub normalized_score : Option N
  pub measurement_value : Option N
  pub measurement_unit : Option String
  pub comparison_operator : String
  pub threshold : Option N
  pub samples : N
  pub minimum_samples : N
  pub evidence_count : N
  pub required_evidence_count : N
  pub evaluator : String
  pub last_run_at : Option String
  pub meaning : String

pub record EvaluationSummaryViewModel (N : Type 0) : Type 0 where
  pub readiness_percentage : N
  pub hard_gate_readiness : N
  pub weighted_readiness : N
  pub sample_completeness : N
  pub evaluation_completeness : N
  pub weighted_score : Option N
  pub required_weighted_score : N
  pub valid_result_count : N
  pub required_result_count : N

pub record TimelineEventViewModel (N : Type 0) : Type 0 where
  pub id : String
  pub sequence : N
  pub event_type : String
  pub occurred_at : String
  pub actor : String
  pub headline : String
  pub detail : String
  pub correlation_id : Option String
  pub causation_id : Option String

pub data EvidenceKind : Type 0 where
  artifact detector_signal : EvidenceKind

pub record EvidenceViewModel : Type 0 where
  pub id : String
  pub kind : EvidenceKind
  pub title : String
  pub source : String
  pub recorded_at : String
  pub digest : Option String
  pub uri : Option String
  pub summary : String
  pub signal_type : String

pub record BlockerViewModel (N : Type 0) : Type 0 where
  pub id : String
  pub code : String
  pub category : String
  pub title : String
  pub explanation : String
  pub recovery : String
  pub details : Fields N

pub record DecisionViewModel : Type 0 where
  pub type : String
  pub outcome : String
  pub rationale : String
  pub actor : String
  pub decided_at : String
  pub policy_hash : String
  pub evaluation_snapshot_hash : String

pub record CandidateViewModel (N : Type 0) : Type 0 where
  pub id : String
  pub slug : String
  pub name : String
  pub component : String
  pub candidate_type : String
  pub discovery_source : String
  pub description : String
  pub surfaced_reason : String
  pub detector_lineage : String
  pub stage : String
  pub status : String
  pub revision : N
  pub policy_name : String
  pub policy_id : Option String
  pub policy_key : Option String
  pub policy_hash : String
  pub evaluation_snapshot_hash : String
  pub evaluation : EvaluationSummaryViewModel N
  pub promotion_eligible : Bool
  pub lifecycle_approval_state : String
  pub required_lifecycle_approvals : N
  pub available_lifecycle_approvals : N
  pub consumed_lifecycle_approvals : N
  pub active_blocker_count : N
  pub activation_state : String
  pub blocker_code : Option String
  pub blocker_summary : Option String
  pub blockers : List (BlockerViewModel N)
  pub latest_decision : Option DecisionViewModel
  pub registry_operation_id : Option String
  pub updated_at : String
  pub latest_evaluation_at : Option String
  pub hard_gates_passed : Option N
  pub hard_gates_required : Option N
  pub journey : List String
  pub gates : List (GateViewModel N)
  pub evidence : List EvidenceViewModel
  pub timeline : List (TimelineEventViewModel N)
