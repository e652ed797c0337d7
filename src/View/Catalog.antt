-- ===== src/View/Catalog.antt =====
-- packages/promotion-ui/src/types.ts: evaluation runs, policies, schedules, registry versions, and
-- the dashboard that holds them all.
use agent_promotion_control.Prelude.{String, Bool, Option, List}
use agent_promotion_control.View.Candidate.{
  GateKind, GateViewModel, TimelineEventViewModel, EvidenceViewModel, CandidateViewModel,
}

pub record EvaluationMeasurementViewModel (N : Type 0) : Type 0 where
  pub gate : GateViewModel N
  pub provider : Option String
  pub model : Option String
  pub cost_usd : Option N
  pub latency_milliseconds : Option N
  pub valid : Option Bool
  pub stale : Option Bool

pub record EvaluationRunViewModel (N : Type 0) : Type 0 where
  pub id : String
  pub candidate_id : String
  pub candidate_name : String
  pub plan_id : String
  pub plan_name : String
  pub state : String
  pub progress_percentage : N
  pub started_at : Option String
  pub finished_at : Option String
  pub provider : String
  pub model : Option String
  pub attempt_count : N
  pub max_attempts : N
  pub planned_result_count : N
  pub heartbeat_at : Option String
  pub correlation_id : Option String
  pub result_count : Option N
  pub sample_count : Option N
  pub duration_milliseconds : Option N
  pub latency_milliseconds : Option N
  pub cost_usd : Option N
  pub error_message : Option String
  pub results : List (EvaluationMeasurementViewModel N)
  pub artifacts : List EvidenceViewModel

pub record PolicyCriterionViewModel (N : Type 0) : Type 0 where
  pub id : String
  pub version : String
  pub name : String
  pub description : Option String
  pub proof_meaning : Option String
  pub content_hash : Option String
  pub category : String
  pub kind : GateKind
  pub evaluator_type : Option String
  pub evaluator : String
  pub comparison_operator : String
  pub measurement_unit : Option String
  pub threshold : N
  pub weight : Option N
  pub minimum_samples : N
  pub evidence_requirements : List String
  pub aggregation : String

pub record PolicyViewModel (N : Type 0) : Type 0 where
  pub id : String
  pub key : String
  pub name : String
  pub version : String
  pub hash : String
  pub minimum_weighted_score : N
  pub lifecycle_stages : List String
  pub required_lifecycle_approvals : N
  pub criteria : List (PolicyCriterionViewModel N)

pub record ScheduledRunViewModel (N : Type 0) : Type 0 where
  pub id : String
  pub state : String
  pub triggered_by : String
  pub trigger_source : String
  pub observed_at : String
  pub attempt_count : N
  pub correlation_id : Option String

pub record ScheduledJobViewModel (N : Type 0) : Type 0 where
  pub id : String
  pub key : String
  pub name : String
  pub description : String
  pub job_type : String
  pub enabled : Option Bool
  pub trigger_owner : String
  pub trigger_mode : String
  pub owner_reference : String
  pub connection_state : String
  pub connection_message : String
  pub timezone : String
  pub schedule_expression : String
  pub last_observed_run_at : Option String
  pub next_expected_trigger_at : Option String
  pub grace_window_minutes : N
  pub last_run_state : Option String
  pub run_count : Option N
  pub failure_count : Option N
  pub current_activity : Option String
  pub last_duration_seconds : Option N
  pub recent_runs : List (ScheduledRunViewModel N)

pub record RegistryAgentViewModel (N : Type 0) : Type 0 where
  pub id : String
  pub agent_id : Option String
  pub registry_key : Option String
  pub external_version_id : Option String
  pub name : String
  pub candidate_id : String
  pub version : N
  pub publication_token : Option String
  pub promoted_at : String
  pub state : Option String
  pub candidate_stage : Option String
  pub candidate_status : Option String
  pub active : Option Bool
  pub is_active_version : Option Bool
  pub policy_hash : String
  pub evaluation_snapshot_hash : String
  pub health : Option String
  pub monitoring_state : Option String
  pub monitoring_run_count : Option N
  pub recent_monitoring_events : List (TimelineEventViewModel N)

pub record DashboardViewModel (N : Type 0) : Type 0 where
  pub generated_at : String
  pub candidates : List (CandidateViewModel N)
  pub evaluations : List (EvaluationRunViewModel N)
  pub policies : List (PolicyViewModel N)
  pub schedules : List (ScheduledJobViewModel N)
  pub registry_agents : List (RegistryAgentViewModel N)
  pub recent_events : List (TimelineEventViewModel N)
  pub live_connected : Bool
  pub demo_mode : Bool
