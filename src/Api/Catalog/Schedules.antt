-- ===== src/Api/Catalog/Schedules.antt =====
-- apps/web/src/lib/api.ts: `mapSchedule` and `mapRegistry`.
use agent_promotion_control.Prelude.{ℕ, String, none, some, map, map_index, if◌then◌else◌}
use agent_promotion_control.Js.{Value, obj, Fields, ◌!◌, ◌⁇◌, is_nullish, Runtime, ◌^^◌}
use agent_promotion_control.View.{
  ScheduledRunViewModel, ScheduledJobViewModel, RegistryAgentViewModel,
}
use agent_promotion_control.Api.Decode.{
  to_record, records, string, number, number_or_zero, nullable_number, nullable_string,
  nullable_boolean,
}
use agent_promotion_control.Api.Events.{epoch, map_event}

module _ {N : Type 0} (js : Runtime N) where
  unfoldable pub map_scheduled_run : String → Fields N → ℕ → ScheduledRunViewModel N
  map_scheduled_run job_id run index = record {
    id = string (run ! "id") (job_id ^^ "-run-" ^^ js.to_text (js.of_nat index));
    state = string (run ! "state" ⁇ run ! "status") "UNKNOWN";
    triggered_by = string (run ! "triggered_by" ⁇ run ! "actor") "Trigger owner not reported";
    trigger_source = string (run ! "trigger_source") "Source not reported";
    observed_at = string (run ! "observed_at" ⁇ run ! "completed_at" ⁇ run ! "started_at") epoch;
    attempt_count = number_or_zero js (run ! "attempt_count");
    correlation_id = nullable_string (run ! "correlation_id");
  }

  unfoldable pub map_schedule : Value N → ScheduledJobViewModel N
  map_schedule value =
      let source = to_record value in
      let last_run = source ! "last_run_status" ⁇ source ! "last_run_state" in
      record {
        id = string (source ! "id") ("schedule-" ^^ string (source ! "key") "unknown");
        key = string (source ! "key") "unknown-schedule";
        name = string (source ! "name" ⁇ source ! "key") "Observed job";
        description = string (source ! "description") "External automation dispatches this job.";
        job_type = string (source ! "job_type") "Not reported";
        enabled = nullable_boolean (source ! "enabled");
        trigger_owner = string (source ! "trigger_owner") "Unassigned owner";
        trigger_mode = string (source ! "trigger_mode") "EXTERNAL";
        owner_reference = string (source ! "owner_reference") "Not connected";
        connection_state = string (source ! "connection_state") "DISCONNECTED";
        connection_message =
            string (source ! "connection_message")
              "This job will not run automatically until its named owner reconnects.";
        timezone = string (source ! "timezone") "UTC";
        schedule_expression = string (source ! "schedule_expression") "External trigger";
        last_observed_run_at = nullable_string (source ! "last_observed_run_at");
        next_expected_trigger_at = nullable_string (source ! "next_expected_trigger_at");
        grace_window_minutes = js.round (
            number js (source ! "grace_window_minutes")
              (js.over (number_or_zero js (source ! "grace_window_seconds")) (js.of_nat 60)));
        last_run_state = if is_nullish last_run then none else some (string last_run "");
        run_count = nullable_number js (source ! "run_count");
        failure_count = nullable_number js (source ! "failure_count");
        current_activity = nullable_string (source ! "current_activity");
        last_duration_seconds = nullable_number js (source ! "last_duration_seconds");
        recent_runs = map_index (map_scheduled_run (string (source ! "id") "")) (
            records (
              source ! "history"
              ⁇ source ! "recent_runs"
              ⁇ source ! "runs"
              ⁇ source ! "run_history"));
      }

  unfoldable pub map_registry : Value N → RegistryAgentViewModel N
  map_registry value =
      let source = to_record value in
      let version = number js (source ! "version") (js.of_nat 1) in
      record {
        id = string (source ! "id") (
            "agent-version-"
            ^^ string (source ! "candidate_id") "unknown"
            ^^ "-"
            ^^ js.to_text version);
        agent_id = nullable_string (source ! "agent_id");
        registry_key = nullable_string (source ! "registry_key");
        external_version_id = nullable_string (source ! "external_version_id");
        name =
            string
              (source ! "display_name"
                ⁇ source ! "candidate_name"
                ⁇ source ! "name"
                ⁇ source ! "agent_name"
                ⁇ source ! "external_version_id")
              ("Promoted agent version " ^^ js.to_text version);
        candidate_id = string (source ! "candidate_id") "";
        version = version;
        publication_token = nullable_string (source ! "publication_token");
        promoted_at = string (source ! "promoted_at" ⁇ source ! "created_at") epoch;
        state = nullable_string (source ! "status" ⁇ source ! "state");
        candidate_stage = nullable_string (source ! "stage");
        candidate_status = nullable_string (source ! "status");
        active = nullable_boolean (source ! "active");
        is_active_version = nullable_boolean (source ! "is_active_version");
        policy_hash = string (source ! "policy_hash") "policy-hash-unavailable";
        evaluation_snapshot_hash =
            string (source ! "evaluation_snapshot_hash") "evaluation-snapshot-unavailable";
        health = nullable_string (source ! "health" ⁇ source ! "current_health");
        monitoring_state = nullable_string (source ! "monitoring_state");
        monitoring_run_count = nullable_number js (source ! "monitoring_run_count");
        recent_monitoring_events =
            map (λ event. map_event js (obj event)) (records (source ! "recent_monitoring_events"));
      }
