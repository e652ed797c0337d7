-- ===== src/EventCopy.antt =====
-- packages/promotion-ui/src/event-copy.ts: the headline and detail of a promotion event. The table
-- `known` is read at event types only; a name that every JavaScript object inherits, such as
-- "constructor", is no event type and is left out.
use text.Mathlib.Text.{starts_with}
use agent_promotion_control.Prelude.{
  String, ◌||◌, Option, none, some, [], ◌∷◌, is_some, get_or, ◌or_else◌, ◌==◌, if◌then◌else◌,
}
use agent_promotion_control.Js.{Value, str, Fields, ◌!◌, Runtime, ◌^^◌, join, non_empty}
use agent_promotion_control.Format.{humanize}

pub record EventText : Type 0 where
  pub headline : String
  pub detail : String

abbrev copy : String → String → EventText
copy headline detail = record { headline = headline; detail = detail }

-- A template that depends on whether a text is there.
abbrev when : Option String → (String → String) → String → String
when none f d = d
when (some s) f d = f s

abbrev text_value : {N : Type 0} → Value N → Option String
text_value (str s) = if s == "" then none else some s
text_value _ = none

-- `value`: the text at a key, if it is one and not empty.
unfoldable pub value : {N : Type 0} → Fields N → String → Option String
value payload key = text_value (payload ! key)

-- The constants that the function reads off the payload at its start.
pub record Facts : Type 0 where
  pub stage : Option String
  pub status : Option String
  pub outcome : Option String
  pub code : Option String
  pub owner : Option String
  pub provider : Option String
  pub model : Option String
  pub failure : Option String
  pub job : Option String

unfoldable pub facts : {N : Type 0} → Fields N → Facts
facts payload = record {
  stage = value payload "stage";
  status = value payload "status";
  outcome = value payload "outcome";
  code = value payload "code";
  owner = value payload "trigger_owner";
  provider = value payload "provider" or_else value payload "evaluator";
  model = value payload "model";
  failure = value payload "failure_message" or_else value payload "error";
  job = value payload "job_key" or_else value payload "job_name";
}

module _ {N : Type 0} (js : Runtime N) where
  -- The table `known`, at an event type.
  unfoldable pub known : Facts → String → Option EventText
  known f event_type =
      if event_type == "CANDIDATE_DISCOVERED"
      then some (
          copy "Candidate discovered"
            "A deterministic signal created a candidate for governed evaluation.")
      else if event_type == "EVALUATION_PLANNED"
      then some (
          copy "Evaluation planned"
            "The immutable plan now binds every required criterion and evaluator.")
      else if event_type == "EVALUATION_RUNNING"
      then some (
          copy "Evaluation running"
            "A leased worker is collecting typed measurements for the active plan.")
      else if event_type == "EVALUATION_COMPLETED"
      then some (
          copy "Evaluation completed" (
            "The worker completed evidence collection"
            ^^ when f.stage (λ s. " and advanced the candidate to " ^^ humanize js s) ""
            ^^ "."))
      else if event_type == "ELIGIBILITY_DECIDED"
      then some (
          copy "Eligibility decided" (
            when f.outcome
              (λ s.
                "The gate engine recorded "
                ^^ humanize js s
                ^^ " from the exact evidence snapshot.")
              "The gate engine recorded an outcome from the exact evidence snapshot."))
      else if event_type == "PROMOTION_APPROVED"
      then some (
          copy "Promotion lifecycle decision recorded"
            "The exact approval snapshot now permits queued registry publication.")
      else if event_type == "PROMOTION_REGISTRY_QUEUED"
      then some (
          copy "Registry publication queued"
            "The candidate remains eligible while the worker claims registry publication.")
      else if event_type == "PROMOTION_REGISTRY_RETRY_QUEUED"
      then some (
          copy "Registry retry queued"
            "The worker will reuse the stable publication token for recovery.")
      else if event_type == "PROMOTION_REGISTRY_FAILED"
      then some (
          copy "Registry activation failed"
            "Publication failed; the prior production selection remains unchanged.")
      else if event_type == "PROMOTED"
      then some (
          copy "Registry activation succeeded"
            "The worker promoted the tested candidate and activated its immutable version.")
      else if event_type == "BLOCKER_ADDED"
      then some (
          copy "Promotion blocker added" (
            when f.code
              (λ s. humanize js s ^^ " now stops promotion until its recovery action completes.")
              "A policy blocker now stops promotion until its recovery action completes."))
      else if event_type == "BLOCKER_CLEARED"
      then some (
          copy "Promotion blocker cleared" (
            when f.code (λ s. humanize js s ^^ " no longer stops this lifecycle decision.")
              "The resolved blocker no longer stops this lifecycle decision."))
      else if event_type == "SCHEDULE_TRIGGER_QUEUED"
      then some (
          copy "External schedule work queued" (
            when f.owner (λ s. s ^^ " triggered work for a leased worker.")
              "The named external owner triggered work for a leased worker."))
      else if event_type == "SCHEDULE_RUN_OBSERVED"
      then some (
          copy "External schedule run observed" (
            when f.owner (λ s. s ^^ " completed an observed schedule run.")
              "The control plane observed an externally triggered schedule run."))
      else none

  abbrev progress : Facts → String → String
  progress f d = humanize js (get_or (f.status or_else f.outcome) d)

  -- The branches for families of event types, in the order of their tests.
  unfoldable pub family : Facts → String → Option EventText
  family f event_type =
      if starts_with event_type "EVALUATION_"
      then some (
          copy (humanize js event_type) (
            when f.failure (λ s. "Evaluation work stopped: " ^^ s)
              (when f.provider
                (λ p.
                  p
                  ^^ when f.model (λ m. " using " ^^ m) ""
                  ^^ " reported "
                  ^^ progress f "progress"
                  ^^ ".")
                ("The leased worker reported " ^^ progress f "evaluation progress" ^^ "."))))
      else if starts_with event_type "PROMOTION_REGISTRY_"
      then some (
          copy (humanize js event_type) (
            when f.failure (λ s. "Registry publication stopped: " ^^ s)
              ("Registry publication reported "
                ^^ progress f "progress"
                ^^ " with the stable token.")))
      else if starts_with event_type "SCHEDULE_RUN_" || starts_with event_type "SCHEDULE_TRIGGER_"
      then some (
          copy (humanize js event_type) (
            get_or f.owner "The named external owner"
            ^^ " reported "
            ^^ progress f "progress"
            ^^ when f.job (λ s. " for " ^^ humanize js s) ""
            ^^ "."))
      else if starts_with event_type "PROMOTION_LIFECYCLE_APPROVAL_"
      then some (
          copy (humanize js event_type) (
            when f.outcome
              (λ s.
                "The reviewer recorded "
                ^^ humanize js s
                ^^ " against the exact lifecycle snapshot.")
              "The reviewer changed the lifecycle approval bound to the exact snapshot."))
      else if starts_with event_type "POST_PROMOTION_" || event_type == "CANDIDATE_SUSPENDED"
      then some (
          copy (humanize js event_type) (
            when f.code
              (λ s.
                humanize js s
                ^^ " changed monitoring state to "
                ^^ humanize js (get_or (f.status or_else f.stage) "review required")
                ^^ ".")
              ("Post-promotion monitoring reported " ^^ progress f "a lifecycle change" ^^ ".")))
      else none

  -- The last resort, for any other event type.
  unfoldable pub generic : Facts → String → EventText
  generic f event_type = copy (humanize js event_type) (
      if is_some f.stage || is_some f.status || is_some f.outcome || is_some f.code
      then join " " (
          non_empty (
            when f.stage (λ s. "Lifecycle stage: " ^^ humanize js s ^^ ".") ""
            ∷ when f.status (λ s. "Operational status: " ^^ humanize js s ^^ ".") ""
            ∷ when f.outcome (λ s. "Outcome: " ^^ humanize js s ^^ ".") ""
            ∷ when f.code (λ s. "Reason: " ^^ humanize js s ^^ ".") ""
            ∷ []))
      else humanize js event_type ^^ " changed the durable promotion record.")

  unfoldable pub fallback : Facts → String → EventText
  unfolding known family generic
  fallback f event_type =
      get_or (known f event_type or_else family f event_type) (generic f event_type)

  -- Explicit texts win over the fallback, each by itself.
  abbrev chosen : Option String → Option String → EventText → EventText
  chosen (some headline) (some detail) spare = copy headline detail
  chosen headline detail spare = copy (get_or headline spare.headline) (get_or detail spare.detail)

  unfoldable pub promotion_event_copy : String → Fields N → EventText
  unfolding fallback facts value
  promotion_event_copy event_type payload =
      chosen (value payload "headline") (value payload "detail")
        (fallback (facts payload) event_type)
