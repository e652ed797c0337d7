-- ===== src/Copy/Body.antt =====
-- packages/promotion-ui/src/governed-copy.ts: the texts that the views speak with.
use agent_promotion_control.Prelude.{String}

pub record GovernedScreenCopy : Type 0 where
  pub line1 : String
  pub line2 : String

pub record GovernedActionCopy : Type 0 where
  pub label : String
  pub consequence : String
  pub undo : String

pub record GovernedScreens : Type 0 where
  pub overview : GovernedScreenCopy
  pub candidates : GovernedScreenCopy
  pub candidate : GovernedScreenCopy
  pub blocker : GovernedScreenCopy
  pub promotion_rationale : GovernedScreenCopy
  pub registry_pending : GovernedScreenCopy
  pub registry_failure : GovernedScreenCopy
  pub evaluations : GovernedScreenCopy
  pub contract : GovernedScreenCopy
  pub automation : GovernedScreenCopy
  pub registry : GovernedScreenCopy
  pub audit : GovernedScreenCopy

pub record GovernedActions : Type 0 where
  pub promote : GovernedActionCopy
  pub retry_registry : GovernedActionCopy
  pub run_evaluation : GovernedActionCopy
  pub run_cycle : GovernedActionCopy

pub record GovernedRuntime : Type 0 where
  pub lifecycle_decision_queued : String
  pub lifecycle_decision_unavailable : String
  pub lifecycle_decision_failed : String
  pub registry_retry_queued : String
  pub registry_retry_failed : String
  pub demo_cycle_dispatched : String
  pub demo_cycle_failed : String

pub record GovernedCopyBody : Type 0 where
  pub version : String
  pub screens : GovernedScreens
  pub actions : GovernedActions
  pub runtime : GovernedRuntime
  pub authority_notice : String

unfoldable pub governed_copy_body : GovernedCopyBody
governed_copy_body = record {
  version = "2026.08.1";
  screens = record {
    overview = record {
      line1 = "This control plane tracks tested agents from discovery through registry activation.";
      line2 =
          "Review blockers, evidence readiness, and publication state before choosing the next action.";
    };
    candidates = record {
      line1 = "These candidates are moving through the governed promotion lifecycle.";
      line2 = "Open a candidate to inspect evidence, blockers, approvals, and registry state.";
    };
    candidate = record {
      line1 =
          "This record explains why the candidate surfaced and whether its evidence is complete.";
      line2 = "Review every failed gate before recording a promotion lifecycle decision.";
    };
    blocker = record {
      line1 = "This candidate cannot advance because a required gate failed.";
      line2 = "Review the evidence, then rerun the gate after correcting the issue.";
    };
    promotion_rationale = record {
      line1 = "This decision records why the tested candidate may enter the registry.";
      line2 =
          "Confirm the evidence snapshot and rationale before queuing irreversible publication.";
    };
    registry_pending = record {
      line1 =
          "The reviewer approved promotion, and the worker has not activated the registry version.";
      line2 =
          "Monitor publication; production selection will not change until the worker succeeds.";
    };
    registry_failure = record {
      line1 = "Registry activation failed, so the candidate remains eligible but blocked.";
      line2 = "Review the failure, then retry after correcting the registry connection.";
    };
    evaluations = record {
      line1 = "These runs collect measurements for the active evaluation plans.";
      line2 = "Inspect incomplete or failed work before trusting a readiness percentage.";
    };
    contract = record {
      line1 = "This contract defines the gates, evidence, samples, and weighted score required.";
      line2 = "Compare the immutable policy hash before using any readiness decision.";
    };
    automation = record {
      line1 = "This screen shows work triggered by commands or external schedulers.";
      line2 = "Check each owner and last run; disconnected jobs will not run automatically.";
    };
    registry = record {
      line1 =
          "This registry lists immutable agent versions activated by successful worker publication.";
      line2 = "Confirm the policy hash before selecting a version for production runs.";
    };
    audit = record {
      line1 = "This timeline replays append-only control-plane events in durable sequence order.";
      line2 = "Trace correlation and causation before explaining any lifecycle change.";
    };
  };
  actions = record {
    promote = record {
      label = "Queue registry publication";
      consequence =
          "Queues registry publication. Production selection may change only after worker success.";
      undo = "Close this dialog to cancel. You cannot revoke queued publication here.";
    };
    retry_registry = record {
      label = "Retry registry publication";
      consequence = "Queues another registry attempt with the same stable publication token.";
      undo = "Close this dialog to cancel. The recorded failure remains available for review.";
    };
    run_evaluation = record {
      label = "Queue evaluation";
      consequence = "Queues a new run against the current immutable evaluation plan.";
      undo = "Cancel before work starts. Completed results remain append-only evidence.";
    };
    run_cycle = record {
      label = "Run autonomous cycle";
      consequence = "Dispatches the six demo jobs and records their real run history.";
      undo = "The cycle is idempotent. Recorded events remain append-only.";
    };
  };
  runtime = record {
    lifecycle_decision_queued = "Recorded the lifecycle decision. Queued registry publication.";
    lifecycle_decision_unavailable =
        "No decision transport exists. The system left the candidate unchanged.";
    lifecycle_decision_failed = "Recording the lifecycle decision failed.";
    registry_retry_queued = "Queued registry publication with the stable publication token.";
    registry_retry_failed = "Queueing the registry retry failed.";
    demo_cycle_dispatched =
        "Dispatched the demo cycle. Durable job runs will appear through the event stream.";
    demo_cycle_failed = "Dispatching the demo cycle failed.";
  };
  authority_notice =
      "Promotion changes which tested version new production runs select. It does not authorize a run or grant tool access.";
}
