-- ===== src/Web/Forwarding.antt =====
-- apps/web/src/app/api/control/[...path]/route.ts: what gets past the proxy.
use text.Mathlib.TextLemmas.{append_assoc}
use agent_promotion_control.Prelude.{
  ◌≡◌, inl, inr, refl, ap, ◌∙◌, sym, String, Bool, true, false, Option, none, some, List, [], ◌∷◌,
  map, any, arith, eq_iff, ◌==◌, Bool-cases, if◌then◌else◌, ◌or_else◌,
}
use agent_promotion_control.Js.{◌^^◌, split, join, encode_uri_component}
use agent_promotion_control.Live.{truthy}
use agent_promotion_control.Api.{has_text}
use agent_promotion_control.Routes.Parts.{split-encoded}
use agent_promotion_control.Web.Segments.{is_dots, resolve_dots-encoded}
use agent_promotion_control.Web.Proxy.{
  Incoming, Upstream, Answer, with_header, allowed, request_header_allow_list,
  response_header_allow_list, forwarded, forward,
}

-- `headers.get(name)` of a list of headers.
unfoldable pub find_header : String → List (String × String) → Option String
find_header name [] = none
find_header name ((key, value) ∷ rest) =
    let later = find_header name rest in if key == name then some value else later

-- The value of a header that is passed on: not empty, and its name is on the list.
abbrev pub passed_on : List String → (String → Option String) → String → Option String
passed_on names header name = if has_text name names then truthy (header name) else none

-- One header that is set in front of the others.
pub find_header-with_header :
    (name key : String) (o : Option String) (rest : List (String × String))
    → find_header name (with_header key o rest)
      ≡ (if key == name then truthy o or_else find_header name rest else find_header name rest)
unfolding find_header
find_header-with_header name key none rest = ground arith
find_header-with_header name key (some value) rest = ground arith

pub find_header-allowed :
    (names : List String) (header : String → Option String) (name : String)
    → find_header name (allowed names header) ≡ passed_on names header name
unfolding allowed find_header has_text
find_header-allowed [] header name = refl
find_header-allowed (key ∷ names) header name =
    find_header-with_header name key (header key) (allowed names header)
    ∙ elim (Bool-cases (key == name)) [
      | inl same ↦
          rw (same, find_header-allowed names header name, (eq_iff key name).0 same)
            (or_else_same (truthy (header name)) (has_text name names))
      | inr other ↦ rw other (find_header-allowed names header name)
    ]
  where
    or_else_same : (o : Option String) (b : Bool) → (o or_else (if b then o else none)) ≡ o
    or_else_same none true = refl
    or_else_same none false = refl
    or_else_same (some v) b = refl

module _ {B : Type 0} where
  -- For segments of which none is a dot segment, the proxy sends a request under its base URL whose
  -- path has a segment for each of them, encoded, with the same method and query, and with exactly
  -- those headers on its list that have a value; it answers with the status and the body of the
  -- control plane, uncached, and besides that with exactly those headers on its other list that have a
  -- value.
  pub forward-IsConfined :
      (fetch : Upstream B → Answer B) (base segment : String) (path : List String)
      (request : Incoming B) (name : String)
      → any is_dots (segment ∷ path) ≡ false
      → let sent = forwarded base (segment ∷ path) request in
        let answer = fetch sent in
        let reply = forward fetch base (segment ∷ path) request in
        ((tail : String) × (sent.url ≡ (base ^^ "/") ^^ tail)
          × (split b'/' tail ≡ map encode_uri_component (segment ∷ path)))
        × (sent.method ≡ request.method)
        × (sent.query ≡ request.query)
        × (find_header name sent.headers ≡ passed_on request_header_allow_list request.header name)
        × (reply.status ≡ answer.status)
        × (reply.body ≡ answer.body)
        × (find_header name reply.headers ≡ (
            if "cache-control" == name
            then some "no-store"
            else passed_on response_header_allow_list answer.header name))
  unfolding forwarded forward find_header ◌^^◌
  forward-IsConfined fetch base segment path request name named = (
    (
      join "/" (map encode_uri_component (segment ∷ path)),
      ap (λ parts. base ^^ "/" ^^ join "/" parts) (resolve_dots-encoded (segment ∷ path) named)
          ∙ sym (append_assoc base "/" (join "/" (map encode_uri_component (segment ∷ path)))),
      split-encoded segment path,
    ),
    refl,
    refl,
    find_header-allowed request_header_allow_list request.header name,
    refl,
    refl,
    ap (λ o. if "cache-control" == name then some "no-store" else o)
        (find_header-allowed response_header_allow_list
          (fetch (forwarded base (segment ∷ path) request)).header name),
  )
