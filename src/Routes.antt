-- ===== src/Routes.antt =====
-- packages/promotion-ui/src/routes.ts: the paths of the views, parsed and built.
pub mod Laws
pub mod Parts
use Prim.Native.Char.{code}
use Prim.Native.String.{[], ◌∷◌}
use agent_promotion_control.Prelude.{
  String, ◌&&◌, Option, none, some, List, [], ◌∷◌, ◌==◌, nat_eq, ◌≡◌, refl, if◌then◌else◌,
}
use agent_promotion_control.Js.{◌^^◌, split, non_empty, text_or, encode_uri_component}

pub data PromotionRouteName : Type 0 where
  overview candidates candidate evaluations evaluation contract automation registry :
      PromotionRouteName
  registry_agent audit : PromotionRouteName

pub record PromotionRoute : Type 0 where
  pub name : PromotionRouteName
  pub id : Option String

-- `pathname.split("?")[0]`.
unfoldable pub before_query : String → String
before_query [] = []
before_query (c ∷ s) = let rest = before_query s in if nat_eq (code c) b'?' then [] else c ∷ rest

-- `path.replace(/\/+$/, "")`: the slashes at the end go.
unfoldable pub drop_slashes : String → String
drop_slashes [] = []
drop_slashes (c ∷ s) =
    let rest = drop_slashes s in if nat_eq (code c) b'/' && rest == "" then [] else c ∷ rest

-- `parts.splice(0, 2)` behind the prefix of the embedding application.
unfoldable pub drop_prefix : List String → List String
drop_prefix (a ∷ b ∷ rest) = if a == "agents" && b == "promotion" then rest else a ∷ b ∷ rest
drop_prefix parts = parts

abbrev pub route : PromotionRouteName → PromotionRoute
route name = record { name = name; id = none }

abbrev pub route_to : PromotionRouteName → String → PromotionRoute
route_to name id = record { name = name; id = some id }

-- The tests of the parts; a part is never empty.
unfoldable pub route_of : List String → PromotionRoute
route_of [] = route overview
route_of (a ∷ []) =
    if a == "candidates"
    then route candidates
    else if a == "evaluations"
    then route evaluations
    else if a == "contract"
    then route contract
    else if a == "automation"
    then route automation
    else if a == "registry"
    then route registry
    else if a == "audit"
    then route audit
    else route overview
route_of (a ∷ b ∷ rest) =
    if a == "candidates"
    then route_to candidate b
    else if a == "evaluations"
    then route_to evaluation b
    else if a == "contract"
    then route contract
    else if a == "automation"
    then route automation
    else if a == "registry"
    then route_to registry_agent b
    else if a == "audit"
    then route audit
    else route overview

unfoldable pub parse_promotion_route : String → PromotionRoute
unfolding before_query drop_slashes drop_prefix route_of
parse_promotion_route pathname =
    let path = text_or (drop_slashes (before_query pathname)) "/" in
    route_of (drop_prefix (non_empty (split b'/' path)))

unfoldable pub candidate_route : String → String
candidate_route id = "/candidates/" ^^ encode_uri_component id

unfoldable pub evaluation_route : String → String
evaluation_route id = "/evaluations/" ^^ encode_uri_component id

unfoldable pub registry_agent_route : String → String
registry_agent_route id = "/registry/" ^^ encode_uri_component id

route_tests :
    (parse_promotion_route "/candidates/a%20b/?x=1" ≡ route_to candidate "a%20b")
    × (parse_promotion_route "/agents/promotion//registry" ≡ route registry)
    × (parse_promotion_route "" ≡ route overview)
    × (candidate_route "a b/é" ≡ "/candidates/a%20b%2F%C3%A9")
unfolding parse_promotion_route candidate_route encode_uri_component ◌^^◌ split non_empty
route_tests = (refl, refl, refl, refl)
