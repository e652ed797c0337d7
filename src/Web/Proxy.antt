-- ===== src/Web/Proxy.antt =====
-- apps/web/src/app/api/control/[...path]/route.ts, api/events/stream/route.ts and
-- api/health/route.ts: what is passed on to the control plane, and back. `headers.get(name)` is a
-- function from a lower-case name; the order of the query's pairs is kept.
use agent_promotion_control.Prelude.{
  ℕ, String, Bool, true, false, not, ◌||◌, ◌&&◌, is_some, get_or, Option, none, some, List, [], ◌∷◌,
  map, ◌==◌, if◌then◌else◌,
}
use agent_promotion_control.Js.{str, Fields, end, field, ◌^^◌, join, encode_uri_component}

-- A request as a handler gets it, and as it sends it on. `body` stands for the bytes.
pub record Incoming (B : Type 0) : Type 0 where
  pub method : String
  pub query : List (String × String)
  pub header : String → Option String
  pub body : B

pub record Upstream (B : Type 0) : Type 0 where
  pub url : String
  pub method : String
  pub query : List (String × String)
  pub headers : List (String × String)
  pub body : Option B

-- An answer: what `fetch` resolves to, and what a handler answers.
pub record Answer (B : Type 0) : Type 0 where
  pub ok : Bool
  pub status : ℕ
  pub header : String → Option String
  pub body : Option B

pub record Reply (B : Type 0) : Type 0 where
  pub status : ℕ
  pub headers : List (String × String)
  pub body : Option B

unfoldable pub request_header_allow_list : List String
request_header_allow_list =
    "accept" ∷ "content-type" ∷ "idempotency-key" ∷ "x-correlation-id" ∷ "if-match" ∷ []

unfoldable pub response_header_allow_list : List String
response_header_allow_list = "content-type" ∷ "location" ∷ "x-correlation-id" ∷ "retry-after" ∷ []

-- `if (value) headers.set(name, value)`, for a name that is not there yet.
abbrev pub with_header : String → Option String → List (String × String) → List (String × String)
with_header name none headers = headers
with_header name (some value) headers = if value == "" then headers else (name, value) ∷ headers

abbrev is_last : List String → Bool
is_last [] = true
is_last (s ∷ rest) = false

abbrev without_last : List String → List String
without_last [] = []
without_last (s ∷ done) = done

-- A dot segment at the end leaves an empty one.
abbrev ended : Bool → List String → List String
ended at_end done = if at_end then "" ∷ done else done

-- One more segment of a path, after those that are done, the last one first.
abbrev walked : Bool → List String → String → List String
walked at_end done s =
    if s == ".."
    then ended at_end (without_last done)
    else if s == "."
    then ended at_end done
    else s ∷ done

unfoldable pub put_back : List String → List String → List String
put_back [] rest = rest
put_back (s ∷ done) rest = put_back done (s ∷ rest)

-- The path of `new URL(text)` for a text that is an origin and a path: its dot segments are resolved.
unfoldable pub resolve_dots : List String → List String → List String
unfolding put_back
resolve_dots done [] = put_back done []
resolve_dots done (s ∷ rest) = resolve_dots (walked (is_last rest) done s) rest

-- The headers of these names that have a value.
unfoldable pub allowed : List String → (String → Option String) → List (String × String)
allowed [] header = []
allowed (name ∷ names) header = with_header name (header name) (allowed names header)

module _ {B : Type 0} where
  -- The request that `forward` sends. `base` is an origin, such as `http://localhost:8000`.
  unfoldable pub forwarded : String → List String → Incoming B → Upstream B
  unfolding allowed request_header_allow_list resolve_dots
  forwarded base path request = record {
    url = base ^^ "/" ^^ join "/" (resolve_dots [] (map encode_uri_component path));
    method = request.method;
    query = request.query;
    headers = allowed request_header_allow_list request.header;
    body =
        if not (request.method == "GET") && not (request.method == "HEAD")
        then some request.body
        else none;
  }

  -- `forward`. `fetch` answers a request.
  unfoldable pub forward : (Upstream B → Answer B) → String → List String → Incoming B → Reply B
  unfolding forwarded allowed response_header_allow_list
  forward fetch base path request =
      let response = fetch (forwarded base path request) in
      record {
        status = response.status;
        headers =
            ("cache-control", "no-store") ∷ allowed response_header_allow_list response.header;
        body = response.body;
      }

  -- The request of the event stream.
  unfoldable pub stream_request : String → Incoming B → Upstream B
  stream_request base request = record {
    url = base ^^ "/api/v1/events/stream";
    method = "GET";
    query = request.query;
    headers =
        ("accept", "text/event-stream")
        ∷ with_header "last-event-id" (request.header "last-event-id") [];
    body = none;
  }

  -- The handler of the event stream: only a success with a body is a stream of events.
  unfoldable pub stream : (Upstream B → Answer B) → String → Incoming B → Reply B
  unfolding stream_request
  stream fetch base request =
      let upstream = fetch (stream_request base request) in
      record {
        status = upstream.status;
        headers =
            if not upstream.ok || not (is_some upstream.body)
            then (
              "content-type",
              get_or (upstream.header "content-type") "application/problem+json",
            )
              ∷ ("cache-control", "no-store")
              ∷ ("x-accel-buffering", "no")
              ∷ []
            else ("content-type", "text/event-stream; charset=utf-8")
              ∷ ("cache-control", "no-cache, no-store, no-transform")
              ∷ ("x-accel-buffering", "no")
              ∷ [];
        body = upstream.body;
      }

-- The handler of the health check: its status, body and headers.
unfoldable pub health : {N : Type 0} → ℕ × Fields N × List (String × String)
health = (
  200,
  field "status" (str "healthy") (field "service" (str "promotion-web") end),
  ("cache-control", "no-store") ∷ [],
)
