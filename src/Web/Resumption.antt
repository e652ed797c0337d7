-- ===== src/Web/Resumption.antt =====
-- packages/promotion-ui/src/PromotionShell.tsx, http-data-source.ts and
-- apps/web/src/app/api/events/stream/route.ts: from the snapshot of a shell to the request for the
-- stream of events that the control plane gets.
use agent_promotion_control.Prelude.{
  ◌≡◌, refl, ap, ◌∙◌, String, Option, none, some, List, [], ◌∷◌, inl, inr, ◌==◌, Bool-cases,
  eq_refl, ◌or_else◌,
}
use agent_promotion_control.Js.{Runtime}
use agent_promotion_control.View.{DashboardViewModel}
use agent_promotion_control.Live.{truthy}
use agent_promotion_control.Mutation.{SubscriptionOptions, set_param, set_if, subscription_query}
use agent_promotion_control.Shell.{last_event_id}
use agent_promotion_control.Web.Proxy.{Incoming, stream_request}
use agent_promotion_control.Web.Forwarding.{find_header, find_header-with_header}

-- The options that the shell subscribes with.
abbrev pub shell_options : {N : Type 0} → Runtime N → DashboardViewModel N → SubscriptionOptions
shell_options js d = record { candidate_id = none; last_event_id = last_event_id js d }

find_header-set_param :
    (key value : String) (ps : List (String × String))
    → find_header key (set_param key value ps) ≡ some value
unfolding find_header set_param
find_header-set_param key value [] = rw (eq_refl key) refl
find_header-set_param key value ((k, v) ∷ rest) = elim (Bool-cases (k == key)) [
  | inl same ↦ rw same (rw (eq_refl key) refl)
  | inr other ↦ rw other (rw other (find_header-set_param key value rest))
]

find_header-set_if :
    (key : String) (o : Option String) (ps : List (String × String))
    → find_header key (set_if key o ps) ≡ (truthy o or_else find_header key ps)
find_header-set_if key none ps = refl
find_header-set_if key (some value) ps = elim (Bool-cases (value == "")) [
  | inl empty ↦ rw empty refl
  | inr given ↦ rw given (find_header-set_param key value ps)
]

-- Where the handler of the stream gets the query of the shell's subscription, for a stream whose URL
-- has no query of its own, the request that it sends to the control plane asks for the events after
-- the one from which the shell asks for them, if it asks from one and its text is not empty, and
-- from no other; and it hands on the last event id that the browser sends when it connects again.
pub stream_request-last_event_id :
    {N B : Type 0} (js : Runtime N) (d : DashboardViewModel N) (base : String)
    (request : Incoming B)
    → request.query ≡ subscription_query [] (shell_options js d)
    → let sent = stream_request base request in
      (find_header "after" sent.query ≡ truthy (last_event_id js d))
      × (find_header "last-event-id" sent.headers ≡ truthy (request.header "last-event-id"))
unfolding stream_request subscription_query find_header
stream_request-last_event_id js d base request asked = (
  ap (find_header "after") asked
      ∙ find_header-set_if "after" (last_event_id js d) []
      ∙ or_else_none (truthy (last_event_id js d)),
  find_header-with_header "last-event-id" "last-event-id" (request.header "last-event-id") []
      ∙ or_else_none (truthy (request.header "last-event-id")),
)
  where
    or_else_none : (o : Option String) → (o or_else none) ≡ o
    or_else_none none = refl
    or_else_none (some v) = refl
