-- ===== src/Mutation/Action.antt =====
-- apps/web/src/app/[[...route]]/actions.ts: the server action. It throws before any request if the
-- mutation lacks what its resource requires.
use agent_promotion_control.Prelude.{
  String, not, none, some, List, [], ◌∷◌, get_or, ◌==◌, if◌then◌else◌,
}
use agent_promotion_control.Js.{
  Value, null, num, str, arr, obj, Fields, end, field, ◌!◌, Runtime, ◌^^◌, encode_uri_component,
}
use agent_promotion_control.View.{
  PromotionMutation, MutationResource, promotion, promotion_retry, evaluate, schedule, demo_cycle,
}
use agent_promotion_control.Fetch.{
  Outcome, returns, throws, ◌>>=◌, ◌>>◌, require, Request, Response, problem_message,
}

-- `mutationPath`.
unfoldable pub action_path : MutationResource → String → String
action_path promotion id = "/api/v1/candidates/" ^^ encode_uri_component id ^^ "/promote"
action_path promotion_retry id =
    "/api/v1/promotion-operations/" ^^ encode_uri_component id ^^ "/retry"
action_path evaluate id = "/api/v1/candidates/" ^^ encode_uri_component id ^^ "/evaluate"
action_path schedule id = "/api/v1/schedules/" ^^ encode_uri_component id ^^ "/trigger"
action_path demo_cycle id = "/api/v1/demo/cycle"

unfoldable pub mutation_headers : String → List (String × String)
mutation_headers idempotency_key =
    ("Accept", "application/json")
    ∷ ("Content-Type", "application/json")
    ∷ ("Idempotency-Key", idempotency_key)
    ∷ []

module _ {N : Type 0} where
  -- `mutation.body?.key`.
  abbrev pub body_field : PromotionMutation N → String → Value N
  body_field mutation key = get_or (mutation.body) end ! key

  abbrev text_or_default : Value N → String → String
  text_or_default (str s) d = s
  text_or_default _ d = d

  unfoldable pub actor_of : PromotionMutation N → String
  actor_of mutation = text_or_default (body_field mutation "actor") "standalone-reviewer"

  unfoldable pub candidate_revision : PromotionMutation N → Outcome N
  candidate_revision mutation = elim mutation.expected_candidate_revision [
    | none ↦ throws "Candidate mutations require the expected candidate revision."
    | some revision ↦ returns revision
  ]

  abbrev pub rationale_of : Value N → Outcome String
  rationale_of (str s) = returns s
  rationale_of _ = throws "Promotion requires a lifecycle rationale."

  -- `body.payload && typeof body.payload === "object" ? body.payload : {}`.
  abbrev payload_of : Value N → Value N
  payload_of (obj fs) = obj fs
  payload_of (arr vs) = arr vs
  payload_of _ = obj end

  -- `mutationBody`, by the resource.
  unfoldable pub body_for : MutationResource → PromotionMutation N → Outcome (Fields N)
  body_for promotion mutation = do
    rationale ← rationale_of (body_field mutation "rationale")
    revision ← candidate_revision mutation
    returns (
        field "actor" (str (actor_of mutation)) (
          field "expected_candidate_revision" (num revision)
            (field "rationale" (str rationale) end)))
  body_for promotion_retry mutation = do
    revision ← candidate_revision mutation
    returns (
        field "actor" (str (actor_of mutation))
          (field "expected_candidate_revision" (num revision) end))
  body_for evaluate mutation = do
    revision ← candidate_revision mutation
    returns (
        field "actor" (str (actor_of mutation))
          (field "expected_candidate_revision" (num revision) end))
  body_for schedule mutation = returns (
      field "actor" (str (actor_of mutation)) (
        field "trigger_source"
          (str (text_or_default (body_field mutation "trigger_source") "NEXT_SERVER_ACTION"))
          (field "payload" (payload_of (body_field mutation "payload")) end)))
  body_for demo_cycle mutation = returns (field "actor" (str (actor_of mutation)) end)

  unfoldable pub mutation_body : PromotionMutation N → Outcome (Fields N)
  unfolding body_for candidate_revision actor_of
  mutation_body mutation = body_for mutation.resource mutation

  -- The request of the server action, or the error that it throws first.
  unfoldable pub action_request : String → PromotionMutation N → Outcome (Request N)
  action_request base mutation = do
    require (not (mutation.idempotency_key == "")) "Every mutation requires an idempotency key."
    body ← mutation_body mutation
    returns (record {
      url = base ^^ action_path mutation.resource mutation.id;
      method = "POST";
      headers = mutation_headers mutation.idempotency_key;
      body = some body;
    })

module _ {N : Type 0} (js : Runtime N) where
  -- A problem counts if it is an object or an array.
  abbrev problem_of : Value N → Value N
  problem_of (obj fs) = obj fs
  problem_of (arr vs) = arr vs
  problem_of _ = null

  -- What the action makes of the response.
  unfoldable pub action_result : Response N → Outcome (Value N)
  action_result response =
      let payload = get_or response.json null in
      if response.ok
      then returns payload
      else throws (problem_message js (problem_of payload) response.status)

  unfoldable pub run_promotion_mutation :
      (Request N → Response N) → String → PromotionMutation N → Outcome (Value N)
  run_promotion_mutation fetch base mutation = do
    request ← action_request base mutation
    action_result (fetch request)
