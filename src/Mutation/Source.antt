-- ===== src/Mutation/Source.antt =====
-- packages/promotion-ui/src/http-data-source.ts: the data source over HTTP, and the decoding of a
-- frame of the event stream.
use agent_promotion_control.Prelude.{
  String, Bool, ◌&&◌, Option, none, some, [], ◌∷◌, get_or, ◌==◌, if◌then◌else◌,
}
use agent_promotion_control.Js.{
  Value, undefined, null, num, str, obj, Fields, end, assign, property, ◌⁇◌, Runtime, ◌^^◌,
  encode_uri_component, form_encode, text_of, number_of, prints,
}
use agent_promotion_control.View.{
  PromotionMutation, MutationResource, promotion, promotion_retry, evaluate, schedule, demo_cycle,
  PromotionQuery, QueryResource, dashboard, candidate, evaluation, events, policies, schedules,
  registry, PromotionEventEnvelope,
}
use agent_promotion_control.Fetch.{json_of, Outcome, throws, Request, Response, problem_message}
use agent_promotion_control.Mutation.Action.{actor_of, mutation_headers}

-- `query.id ? with_id : without`, where the empty text counts as none.
abbrev if_text : Option String → (String → String) → String → String
if_text none f d = d
if_text (some s) f d = if s == "" then d else f s

unfoldable pub query_path_of : QueryResource → Option String → String → String
query_path_of dashboard id suffix = "/api/v1/dashboard" ^^ suffix
query_path_of candidate id suffix =
    if_text id (λ s. "/api/v1/candidates/" ^^ encode_uri_component s)
      ("/api/v1/candidates" ^^ suffix)
query_path_of evaluation id suffix =
    if_text id (λ s. "/api/v1/evaluations/" ^^ encode_uri_component s)
      ("/api/v1/evaluations" ^^ suffix)
query_path_of events id suffix = "/api/v1/events" ^^ suffix
query_path_of policies id suffix = "/api/v1/policies" ^^ suffix
query_path_of schedules id suffix = "/api/v1/schedules" ^^ suffix
query_path_of registry id suffix =
    if_text id (λ s. "/api/v1/registry/agents/" ^^ encode_uri_component s)
      ("/api/v1/registry/agents" ^^ suffix)

unfoldable pub query_path : PromotionQuery → String
unfolding query_path_of
query_path query =
    query_path_of query.resource query.id
      (if_text query.cursor (λ cursor. "?after=" ^^ form_encode cursor) "")

-- `mutationPath`.
unfoldable pub source_path : MutationResource → String → String
source_path promotion id = "/api/v1/candidates/" ^^ encode_uri_component id ^^ "/promote"
source_path promotion_retry id =
    "/api/v1/promotion-operations/" ^^ encode_uri_component id ^^ "/retry"
source_path evaluate id = "/api/v1/candidates/" ^^ encode_uri_component id ^^ "/evaluate"
source_path schedule id = "/api/v1/schedules/" ^^ encode_uri_component id ^^ "/trigger"
source_path demo_cycle id = "/api/v1/demo/cycle"

module _ {N : Type 0} where
  unfoldable pub query_request : String → PromotionQuery → Request N
  query_request base query = record {
    url = base ^^ query_path query;
    method = "GET";
    headers = ("Accept", "application/json") ∷ [];
    body = none;
  }

  abbrev with_revision : Option N → Fields N → Fields N
  with_revision none body = body
  with_revision (some revision) body = assign "expected_candidate_revision" (num revision) body

  -- The body of `mutate`: the mutation's own, with the actor and the revision set.
  unfoldable pub source_body : PromotionMutation N → Fields N
  source_body mutation =
      with_revision mutation.expected_candidate_revision
        (assign "actor" (str (actor_of mutation)) (get_or mutation.body end))

  unfoldable pub source_request : String → PromotionMutation N → Request N
  source_request base mutation = record {
    url = base ^^ source_path mutation.resource mutation.id;
    method = "POST";
    headers = mutation_headers mutation.idempotency_key;
    body = some (source_body mutation);
  }

-- What comes of a frame of the event stream: it cannot be read and is ignored; or it reports that the
-- connection stands, and then a field of its event cannot be converted, or it carries an event.
pub data Frame (N : Type 0) : Type 0 where
  unread unmade : Frame N
  made : PromotionEventEnvelope N → Frame N

module _ {N : Type 0} (js : Runtime N) where
  unfoldable pub parse_response : Response N → Outcome (Value N)
  parse_response response =
      if response.ok
      then json_of response.json
      else throws (problem_message js (get_or response.json null) response.status)

  unfoldable pub query_source :
      (Request N → Response N) → String → PromotionQuery → Outcome (Value N)
  query_source fetch base query = parse_response (fetch (query_request base query))

  unfoldable pub mutate_source :
      (Request N → Response N) → String → PromotionMutation N → Outcome (Value N)
  mutate_source fetch base mutation = parse_response (fetch (source_request base mutation))

  -- An object as it is; an array has none of the keys that are read.
  abbrev payload_fields : Value N → Fields N
  payload_fields (obj fs) = fs
  payload_fields _ = end

  abbrev text_or_null : Value N → Option String
  text_or_null (str s) = some s
  text_or_null _ = none

  envelope : String → String → Value N → PromotionEventEnvelope N
  envelope now last_event_id raw =
      let read = property raw in
      record {
        id = text_of js (read "id" ⁇ str last_event_id);
        sequence = number_of js (read "sequence" ⁇ str last_event_id);
        schema_version =
            number_of js (read "schema_version" ⁇ read "schemaVersion" ⁇ num (js.of_nat 1));
        event_type = text_of js (read "event_type" ⁇ read "eventType" ⁇ str "PROMOTION_EVENT");
        occurred_at = text_of js (read "occurred_at" ⁇ read "occurredAt" ⁇ str now);
        actor = text_of js (read "actor" ⁇ str "system");
        candidate_id = text_or_null (read "candidate_id" ⁇ read "candidateId");
        evaluation_run_id = text_or_null (read "evaluation_run_id" ⁇ read "evaluationRunId");
        schedule_run_id = text_or_null (read "scheduled_job_run_id" ⁇ read "scheduleRunId");
        registry_operation_id =
            text_or_null (read "registry_operation_id" ⁇ read "registryOperationId");
        correlation_id = text_of js (read "correlation_id" ⁇ read "correlationId" ⁇ str "");
        causation_id = text_or_null (read "causation_id" ⁇ read "causationId");
        policy_hash = text_or_null (read "policy_hash" ⁇ read "policyHash");
        payload = payload_fields (read "payload");
      }

  -- The fields of the envelope that are converted, and the conversions that do not throw.
  envelope_prints : Value N → Bool
  envelope_prints raw =
      let read = property raw in
      prints (read "id")
      && prints (read "sequence")
      && prints (read "schema_version" ⁇ read "schemaVersion")
      && prints (read "event_type" ⁇ read "eventType")
      && prints (read "occurred_at" ⁇ read "occurredAt")
      && prints (read "actor")
      && prints (read "correlation_id" ⁇ read "correlationId")

  unfoldable pub made_frame : String → String → Value N → Frame N
  unfolding envelope envelope_prints
  made_frame now last_event_id raw =
      if envelope_prints raw then made (envelope now last_event_id raw) else unmade

  -- `handleEvent`, after `JSON.parse`, which gives `none` for a text that is no JSON; the properties
  -- of `null` cannot be read. `now` is the current time.
  unfoldable pub handle_event : String → String → Option (Value N) → Frame N
  unfolding made_frame
  handle_event now last_event_id none = unread
  handle_event now last_event_id (some null) = unread
  handle_event now last_event_id (some undefined) = unread
  handle_event now last_event_id (some raw) = made_frame now last_event_id raw
