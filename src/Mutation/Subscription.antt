-- ===== src/Mutation/Subscription.antt =====
-- packages/promotion-ui/src/http-data-source.ts: `subscribe`, up to the EventSource that it opens.
use agent_promotion_control.Prelude.{
  String, Option, none, some, List, [], ◌∷◌, map, ◌==◌, ◌≡◌, refl, if◌then◌else◌,
}
use agent_promotion_control.Js.{◌^^◌, join, form_encode}

pub record SubscriptionOptions : Type 0 where
  pub candidate_id : Option String
  pub last_event_id : Option String

-- The pairs without this key.
unfoldable pub without : String → List (String × String) → List (String × String)
without key [] = []
without key ((k, v) ∷ rest) =
    let kept = without key rest in if k == key then kept else (k, v) ∷ kept

-- `searchParams.set`: the first pair of the key takes the value and the others go, or it is appended.
unfoldable pub set_param : String → String → List (String × String) → List (String × String)
unfolding without
set_param key value [] = (key, value) ∷ []
set_param key value ((k, v) ∷ rest) =
    let later = set_param key value rest in
    if k == key then (key, value) ∷ without key rest else (k, v) ∷ later

-- `if (value) url.searchParams.set(key, value)`.
abbrev pub set_if : String → Option String → List (String × String) → List (String × String)
set_if key none params = params
set_if key (some value) params = if value == "" then params else set_param key value params

-- The query of the subscription; `params` are those of the stream's URL itself.
unfoldable pub subscription_query :
    List (String × String) → SubscriptionOptions → List (String × String)
unfolding set_param
subscription_query params options =
    set_if "after" options.last_event_id (set_if "candidate_id" options.candidate_id params)

abbrev pair_text : String × String → String
pair_text (key, value) = form_encode key ^^ "=" ^^ form_encode value

-- `url.search`.
unfoldable pub search_of : List (String × String) → String
search_of [] = ""
search_of (p ∷ ps) = "?" ^^ join "&" (map pair_text (p ∷ ps))

-- `url.pathname + url.search`, which is given to the EventSource.
unfoldable pub subscription_url : String → List (String × String) → SubscriptionOptions → String
unfolding subscription_query search_of
subscription_url pathname params options = pathname ^^ search_of (subscription_query params options)

subscription_test :
    subscription_url "/api/events/stream" []
      (record { candidate_id = some "a b"; last_event_id = some "41" })
    ≡ "/api/events/stream?candidate_id=a+b&after=41"
unfolding subscription_url form_encode ◌^^◌ join
subscription_test = refl
