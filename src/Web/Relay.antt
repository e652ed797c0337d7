-- ===== src/Web/Relay.antt =====
-- apps/web/src/app/api/control/[...path]/route.ts with packages/promotion-ui/src/http-data-source.ts: a
-- mutation that the data source sends through the proxy.
use Prim.Native.String
use text.Mathlib.TextLemmas.{append_assoc}
use agent_promotion_control.Prelude.{
  ◌≡◌, ◌≢◌, refl, ap, ◌∙◌, sym, String, false, some, List, [], ◌∷◌, map, any,
}
use agent_promotion_control.Js.{◌^^◌, encode_uri_component, is_unreserved, join}
use agent_promotion_control.View.{
  MutationResource, promotion, promotion_retry, evaluate, schedule, demo_cycle, PromotionMutation,
}
use agent_promotion_control.Api.{has_text}
use agent_promotion_control.Mutation.{source_path, action_path}
use agent_promotion_control.Mutation.Agreement.{path-eq}
use agent_promotion_control.Routes.Laws.{not_empty}
use agent_promotion_control.Web.Segments.{is_dots, resolve_dots-encoded}
use agent_promotion_control.Web.Proxy.{Incoming, request_header_allow_list, forwarded}
use agent_promotion_control.Web.Forwarding.{find_header, find_header-allowed}

-- The segments of a mutation's path behind the proxy's, decoded.
abbrev pub segments : MutationResource → String → List String
segments promotion id = "api" ∷ "v1" ∷ "candidates" ∷ id ∷ "promote" ∷ []
segments promotion_retry id = "api" ∷ "v1" ∷ "promotion-operations" ∷ id ∷ "retry" ∷ []
segments evaluate id = "api" ∷ "v1" ∷ "candidates" ∷ id ∷ "evaluate" ∷ []
segments schedule id = "api" ∷ "v1" ∷ "schedules" ∷ id ∷ "trigger" ∷ []
segments demo_cycle id = "api" ∷ "v1" ∷ "demo" ∷ "cycle" ∷ []

abbrev before_all : List String → String → String
before_all [] t = t
before_all (p ∷ ps) t = String.◌++◌ p (before_all ps t)

abbrev glued : String → List String → String
glued start [] = start
glued start (p ∷ ps) = glued (String.◌++◌ start p) ps

before_all-glued :
    (start : String) (ps : List String) (t : String)
    → String.◌++◌ start (before_all ps t) ≡ String.◌++◌ (glued start ps) t
before_all-glued start [] t = refl
before_all-glued start (p ∷ ps) t =
    sym (append_assoc start p (before_all ps t)) ∙ before_all-glued (String.◌++◌ start p) ps t

-- The segments of a collection's path, joined one by one or at once.
item_path :
    (base collection tail : String)
    → let parts = "api" ∷ "/" ∷ "v1" ∷ "/" ∷ collection ∷ "/" ∷ [] in
      String.◌++◌ base (String.◌++◌ "/" (before_all parts tail))
      ≡ String.◌++◌ base (String.◌++◌ (glued "/" parts) tail)
item_path base collection tail =
    ap (String.◌++◌ base)
      (before_all-glued "/" ("api" ∷ "/" ∷ "v1" ∷ "/" ∷ collection ∷ "/" ∷ []) tail)

joined :
    (base : String) (resource : MutationResource) (id : String)
    → base ^^ "/" ^^ join "/" (map encode_uri_component (segments resource id))
      ≡ base ^^ source_path resource id
unfolding source_path join encode_uri_component is_unreserved ◌^^◌
joined base promotion id = item_path base "candidates" _
joined base promotion_retry id = item_path base "promotion-operations" _
joined base evaluate id = item_path base "candidates" _
joined base schedule id = item_path base "schedules" _
joined base demo_cycle id = refl

segments-named :
    (resource : MutationResource) (id : String)
    → is_dots id ≡ false
    → any is_dots (segments resource id) ≡ false
segments-named promotion id named = rw named refl
segments-named promotion_retry id named = rw named refl
segments-named evaluate id named = rw named refl
segments-named schedule id named = rw named refl
segments-named demo_cycle id named = refl

module _ {B : Type 0} where
  forwarded-url :
      (base : String) (resource : MutationResource) (id : String) (request : Incoming B)
      → is_dots id ≡ false
      → (forwarded base (segments resource id) request).url ≡ base ^^ source_path resource id
  unfolding forwarded ◌^^◌
  forwarded-url base resource id request named =
      ap (λ parts. base ^^ "/" ^^ join "/" parts)
        (resolve_dots-encoded (segments resource id) (segments-named resource id named))
      ∙ joined base resource id

  -- A mutation whose id is no dot segment and that reaches the proxy at the segments of its path, as a
  -- POST with its key in a header, is sent on as a POST to the path that the data source gives it under the control
  -- plane's URL, which is the one that the server action sends it to, with its body and its key.
  pub forwarded-source_path :
      {N : Type 0} (base : String) (m : PromotionMutation N) (request : Incoming B)
      → is_dots m.id ≡ false
      → m.idempotency_key ≢ ""
      → request.method ≡ "POST"
      → request.header "idempotency-key" ≡ some m.idempotency_key
      → let sent = forwarded base (segments m.resource m.id) request in
        (sent.url ≡ base ^^ source_path m.resource m.id)
        × (sent.url ≡ base ^^ action_path m.resource m.id)
        × (sent.method ≡ "POST")
        × (sent.body ≡ some request.body)
        × (find_header "idempotency-key" sent.headers ≡ some m.idempotency_key)
  unfolding forwarded has_text request_header_allow_list
  forwarded-source_path base m request named keyed post key = (
    forwarded-url base m.resource m.id request named,
    forwarded-url base m.resource m.id request named
        ∙ ap (λ s. base ^^ s) (path-eq m.resource m.id),
    post,
    rw post refl,
    find_header-allowed request_header_allow_list request.header "idempotency-key"
        ∙ rw (key, not_empty m.idempotency_key keyed) refl,
  )
