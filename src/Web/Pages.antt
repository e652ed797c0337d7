-- ===== src/Web/Pages.antt =====
-- apps/web/src/app/[[...route]]/page.tsx: the path, the title and the parameters of a page. The segments
-- of the route are those that Next.js gives.
use agent_promotion_control.Prelude.{String, Option, none, some, List, [], ◌∷◌, ◌==◌, if◌then◌else◌}
use agent_promotion_control.Js.{◌^^◌, join}
use agent_promotion_control.Dashboard.{Page}

-- `pathFromRoute`.
unfoldable pub path_from_route : Option (List String) → String
path_from_route none = "/"
path_from_route (some []) = "/"
path_from_route (some (a ∷ rest)) = "/" ^^ join "/" (a ∷ rest)

-- The title of a collection or of one of its items.
abbrev title_of : List String → String → String → String
title_of [] one many = many
title_of (b ∷ rest) one many = one

-- The title of `generateMetadata`. A name that every JavaScript object inherits, such as
-- "constructor", is left out.
unfoldable pub page_title : Option (List String) → String
page_title none = "Overview"
page_title (some []) = "Overview"
page_title (some (a ∷ rest)) =
    if a == "candidates"
    then title_of rest "Candidate" "Candidates"
    else if a == "evaluations"
    then title_of rest "Evaluation" "Evaluations"
    else if a == "registry"
    then title_of rest "Registry agent" "Registry"
    else if a == "contract"
    then "Promotion contract"
    else if a == "automation"
    then "Automation"
    else if a == "audit"
    then "Audit"
    else "Promotion control plane"

-- `route?.[0] === collection ? route[1] : undefined`.
unfoldable pub item_of : String → Option (List String) → Option String
item_of collection (some (a ∷ b ∷ rest)) = if a == collection then some b else none
item_of collection route = none

-- What the page asks `loadDashboard` for.
unfoldable pub page_of : Option (List String) → Page
unfolding item_of
page_of route = record {
  candidate_id = item_of "candidates" route;
  evaluation_id = item_of "evaluations" route;
  registry_agent_id = item_of "registry" route;
}
