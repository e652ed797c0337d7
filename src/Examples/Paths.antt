-- ===== src/Examples/Paths.antt =====
-- A path that is built and parsed back.
use agent_promotion_control.Prelude.{◌≡◌, arith, eq_iff}
use agent_promotion_control.Js.{encode_uri_component}
use agent_promotion_control.Routes.{
  candidate, evaluation, registry_agent, route_to, parse_promotion_route, candidate_route,
  evaluation_route, registry_agent_route,
}
use agent_promotion_control.Routes.Laws.{parse_promotion_route-candidate_route}

parse_promotion_route-candidate_route_example :
    (parse_promotion_route (candidate_route "a/b?c")
      ≡ route_to candidate (encode_uri_component "a/b?c"))
    × (parse_promotion_route (evaluation_route "a/b?c")
        ≡ route_to evaluation (encode_uri_component "a/b?c"))
    × (parse_promotion_route (registry_agent_route "a/b?c")
        ≡ route_to registry_agent (encode_uri_component "a/b?c"))
parse_promotion_route-candidate_route_example =
    parse_promotion_route-candidate_route "a/b?c" (ground (arith, eq_iff "a/b?c" ""))
