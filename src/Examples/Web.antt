-- ===== src/Examples/Web.antt =====
-- The pages, the refresh and the proxy.
use agent_promotion_control.Prelude.{
  ℕ, ◌≡◌, refl, true, String, Option, none, some, List, [], ◌∷◌, map, arith, eq_iff, ◌==◌,
  if◌then◌else◌,
}
use agent_promotion_control.Js.{◌^^◌, split, join, is_unreserved, encode_uri_component}
use agent_promotion_control.Routes.{parse_promotion_route, drop_prefix}
use agent_promotion_control.Routes.Laws.{lacks}
use agent_promotion_control.Routes.Parts.{IsPart}
use agent_promotion_control.Web.{
  path_from_route, page_of, Incoming, Upstream, Answer, request_header_allow_list,
  response_header_allow_list, resolve_dots, put_back, forwarded, forward, mounted, elapse,
  after_events,
}
use agent_promotion_control.View.{PromotionMutation, promotion, schedule}
use agent_promotion_control.Mutation.{source_path, action_path}
use agent_promotion_control.Web.Relay.{segments, forwarded-source_path}
use agent_promotion_control.Live.{truthy}
use agent_promotion_control.Shell.{last_event_id}
use agent_promotion_control.Mutation.{subscription_query}
use agent_promotion_control.Web.{stream_request}
use agent_promotion_control.Web.Resumption.{shell_options, stream_request-last_event_id}
use agent_promotion_control.Examples.Machine.{machine}
use agent_promotion_control.Examples.Live.{one_candidate}
use agent_promotion_control.Web.Visits.{shown_details, page_of-shown_details}
use agent_promotion_control.Web.Forwarding.{find_header, passed_on, forward-IsConfined}
use agent_promotion_control.Web.Bursts.{after_events-once}

collection-IsPart : IsPart "candidates"
unfolding lacks
collection-IsPart = record {
  there = ground (arith, eq_iff "candidates" "");
  no_slash = refl;
  no_query = refl;
}

item-IsPart : IsPart "c1"
unfolding lacks
item-IsPart = record { there = ground (arith, eq_iff "c1" ""); no_slash = refl; no_query = refl }

abbrev visited : List String
visited = "candidates" ∷ "c1" ∷ []

page_of-shown_details_example :
    page_of (some visited) ≡ shown_details (parse_promotion_route (path_from_route (some visited)))
unfolding drop_prefix
page_of-shown_details_example =
    page_of-shown_details visited (collection-IsPart, (item-IsPart, tt)) refl

after_events-once_example :
    let s = after_events (0 ∷ 100 ∷ 200 ∷ []) mounted in
    (s.refreshes ≡ []) × (elapse 400 s ≡ record { timer = none; refreshes = 350 ∷ [] })
after_events-once_example =
    after_events-once 0 (100 ∷ 200 ∷ []) 400
      (omega arith, omega arith, (omega arith, omega arith, tt)) (omega arith)

abbrev header : String → Option String
header name = if name == "accept" then some "application/json" else some "secret"

abbrev posted : Incoming String
posted = record { method = "POST"; query = []; header = header; body = "{}" }

abbrev answering : Upstream String → Answer String
answering r = record { ok = true; status = 202; header = header; body = some "{}" }

abbrev sent : Upstream String
sent = forwarded "http://api" ("api" ∷ "a/b" ∷ []) posted

forward-IsConfined_example :
    ((tail : String) × (sent.url ≡ ("http://api" ^^ "/") ^^ tail)
      × (split b'/' tail ≡ map encode_uri_component ("api" ∷ "a/b" ∷ [])))
    × (sent.method ≡ "POST")
    × (sent.query ≡ [])
    × (find_header "cookie" sent.headers ≡ passed_on request_header_allow_list header "cookie")
    × ((forward answering "http://api" ("api" ∷ "a/b" ∷ []) posted).status ≡ 202)
    × ((forward answering "http://api" ("api" ∷ "a/b" ∷ []) posted).body ≡ some "{}")
    × (find_header "cookie" (forward answering "http://api" ("api" ∷ "a/b" ∷ []) posted).headers ≡ (
        if "cache-control" == "cookie"
        then some "no-store"
        else passed_on response_header_allow_list header "cookie"))
unfolding forwarded
forward-IsConfined_example =
    forward-IsConfined answering "http://api" "api" ("a/b" ∷ []) posted "cookie" refl

-- A dot segment is resolved: an id of two dots leaves its collection.
climbed :
    (forwarded "http://api" (segments promotion "..") posted).url ≡ "http://api/api/v1/promote"
unfolding forwarded resolve_dots put_back ◌^^◌ join encode_uri_component is_unreserved
climbed = refl

abbrev triggering : PromotionMutation ℕ
triggering = record {
  resource = schedule;
  id = "nightly";
  expected_candidate_revision = none;
  body = none;
  idempotency_key = "k";
}

abbrev keyed_header : String → Option String
keyed_header name = if name == "idempotency-key" then some "k" else none

abbrev triggered : Incoming String
triggered = record { method = "POST"; query = []; header = keyed_header; body = "{}" }

forwarded-source_path_example :
    let relayed = forwarded "http://api" (segments schedule "nightly") triggered in
    (relayed.url ≡ "http://api" ^^ source_path schedule "nightly")
    × (relayed.url ≡ "http://api" ^^ action_path schedule "nightly")
    × (relayed.method ≡ "POST")
    × (relayed.body ≡ some "{}")
    × (find_header "idempotency-key" relayed.headers ≡ some "k")
forwarded-source_path_example =
    forwarded-source_path "http://api" triggering triggered refl (ground (arith, eq_iff "k" ""))
      refl refl

abbrev reconnecting : Incoming String
reconnecting = record {
  method = "GET";
  query = subscription_query [] (shell_options machine one_candidate);
  header = λ name. if name == "last-event-id" then some "5" else none;
  body = "";
}

stream_request-last_event_id_example :
    let asked = stream_request "http://api" reconnecting in
    (find_header "after" asked.query ≡ truthy (last_event_id machine one_candidate))
    × (find_header "last-event-id" asked.headers ≡ truthy (some "5"))
stream_request-last_event_id_example =
    stream_request-last_event_id machine one_candidate "http://api" reconnecting refl
