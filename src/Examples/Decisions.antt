-- ===== src/Examples/Decisions.antt =====
-- A decision that is submitted through the server action.
use agent_promotion_control.Prelude.{ℕ, ◌≤◌, [], String, ◌≡◌, refl, true, none, some}
use agent_promotion_control.Js.{str, obj, end, trim, trim_start, trim_end, is_space, utf16_length}
use agent_promotion_control.View.{CandidateViewModel, LifecycleDecisionResult}
use agent_promotion_control.Fetch.{Request, Response}
use agent_promotion_control.Api.{normalize_candidate}
use agent_promotion_control.Mutation.{
  action_request, mutation_body, action_result, run_promotion_mutation,
}
use agent_promotion_control.Mutation.Laws.{IsGoverned}
use agent_promotion_control.Decision.{decision_mutation, submit_decision, queued_result}
use agent_promotion_control.Decision.Laws.{submit_decision-IsGoverned}
use agent_promotion_control.Examples.Machine.{machine}

abbrev reviewed : CandidateViewModel ℕ
reviewed = normalize_candidate machine (λ i. "uuid") (obj end) []

abbrev rationale : String
rationale = " Every gate has passed twice. "

abbrev queueing : Request ℕ → Response ℕ
queueing r = record { ok = true; status = 202; json = some (str "queued") }

abbrev accepted : LifecycleDecisionResult ℕ
accepted = record {
  accepted = true;
  operation_id = none;
  candidate_revision = none;
  message = "Recorded the lifecycle decision. Queued registry publication.";
}

submit_decision-IsGoverned_example :
    (20 ≤ utf16_length (trim rationale))
    × ((r : Request ℕ) × IsGoverned "http://api" (decision_mutation "k" reviewed rationale) r
        × ((queueing r).ok ≡ true))
unfolding submit_decision run_promotion_mutation action_request mutation_body action_result
    queued_result decision_mutation trim trim_start trim_end is_space utf16_length
submit_decision-IsGoverned_example =
    submit_decision-IsGoverned machine queueing "http://api" "TypeError" "k" rationale reviewed
      accepted refl refl
