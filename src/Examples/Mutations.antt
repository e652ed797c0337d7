-- ===== src/Examples/Mutations.antt =====
-- Runs of the server action and of the HTTP data source, and the theorems about them at these runs.
use agent_promotion_control.Prelude.{ℕ, String, ◌≡◌, ◌↔◌, refl, true, false, none, some, [], ◌∷◌}
use agent_promotion_control.Js.{
  prints, Value, num, str, obj, end, field, ◌^^◌, encode_uri_component, form_encode, is_truthy,
  text_of, number_of,
}
use agent_promotion_control.View.{PromotionMutation, promotion, candidate}
use agent_promotion_control.Fetch.{returns, throws, Request, Response, problem_message}
use agent_promotion_control.Mutation.{
  action_path, mutation_headers, mutation_body, action_request, action_result,
  run_promotion_mutation, query_path, source_request, handle_event,
}
use agent_promotion_control.Mutation.Laws.{CanSend, IsGoverned, action_request_lem}
use agent_promotion_control.Mutation.Agreement.{
  IsSame, source_request-IsSame, run_promotion_mutation_iff,
}
use agent_promotion_control.Examples.Machine.{machine, print}

mutations : Unit {0}
unfolding run_promotion_mutation action_request action_result mutation_body mutation_headers
    action_path problem_message encode_uri_component ◌^^◌ is_truthy text_of print query_path
    form_encode handle_event number_of
mutations = tt

abbrev promote : PromotionMutation ℕ
promote = record {
  resource = promotion;
  id = "candidate 1";
  expected_candidate_revision = some 7;
  body = some (field "rationale" (str "All gates passed.") end);
  idempotency_key = "request-1";
}

abbrev base : String
base = "http://localhost:8000"

abbrev sent : Request ℕ
sent = record {
  url = "http://localhost:8000/api/v1/candidates/candidate%201/promote";
  method = "POST";
  headers =
      ("Accept", "application/json")
      ∷ ("Content-Type", "application/json")
      ∷ ("Idempotency-Key", "request-1")
      ∷ [];
  body = some (
      field "actor" (str "standalone-reviewer") (
        field "expected_candidate_revision" (num 7)
          (field "rationale" (str "All gates passed.") end)));
}

promote_sent : action_request base promote ≡ returns sent
unfolding mutations prints
promote_sent = refl

-- A service that refuses a stale revision.
abbrev stale : Request ℕ → Response ℕ
stale r = record {
  ok = false;
  status = 409;
  json = some (obj (field "code" (str "STALE") (field "detail" (str "It changed.") end)));
}

abbrev accepting : Request ℕ → Response ℕ
accepting r = record { ok = true; status = 202; json = some (str "queued") }

mutation_tests :
    (run_promotion_mutation machine stale base promote ≡ throws "It changed. (STALE)")
    × (run_promotion_mutation machine accepting base (record promote { idempotency_key = "" })
        ≡ throws "Every mutation requires an idempotency key.")
    × (run_promotion_mutation machine accepting base
          (record promote { expected_candidate_revision = none })
        ≡ throws "Candidate mutations require the expected candidate revision.")
unfolding mutations prints
mutation_tests = (refl, refl, refl)

query_test :
    query_path (record { resource = candidate; id = some ""; cursor = some "a b" })
    ≡ "/api/v1/candidates?after=a+b"
unfolding mutations prints
query_test = refl

action_request_lem_example :
    (((r : Request ℕ) × (action_request base promote ≡ returns r)) ↔ CanSend promote)
    × ((r : Request ℕ) → action_request base promote ≡ returns r → IsGoverned base promote r)
action_request_lem_example = action_request_lem base promote

source_request-IsSame_example :
    IsSame "/api/control" base promote (source_request "/api/control" promote) sent
source_request-IsSame_example = source_request-IsSame "/api/control" base promote sent promote_sent

run_promotion_mutation_iff_example :
    (run_promotion_mutation machine accepting base promote ≡ returns (str "queued")) ↔ (
      (r : Request ℕ) × (action_request base promote ≡ returns r)
      × (true ≡ true)
      × (◌≡◌ {A = Value ℕ} (str "queued") (str "queued")))
run_promotion_mutation_iff_example =
    run_promotion_mutation_iff machine accepting base promote (str "queued")
