-- ===== src/Web/Client.antt =====
-- apps/web/src/app/[[...route]]/promotion-client.tsx: what the client gives to the shell and, through
-- it, to the views.
use agent_promotion_control.Prelude.{String, Bool, false, Option, none, some, get_or, if◌then◌else◌}
use agent_promotion_control.Js.{Value, ◌^^◌, encode_uri_component}
use agent_promotion_control.View.{PromotionMutation}
use agent_promotion_control.Fetch.{Outcome}
use agent_promotion_control.Live.{truthy}
use agent_promotion_control.Markup.{Node, styled_line}
use agent_promotion_control.Shell.Frame.{ShellProps}
use agent_promotion_control.Decision.Panel.{Transports}
use agent_promotion_control.Decision.Page.{Surroundings}

-- `usePathname() || initialPath`.
unfoldable pub client_path : Option String → String → String
client_path pathname initial_path = get_or (truthy pathname) initial_path

-- The slot of the header where nothing is live.
unfoldable pub fixture_label : {E : Type 0} → Node E
fixture_label = styled_line "span" "pcp-demo-label" "TEST FIXTURE · LIVE DATA DISABLED"

-- The data source is the one that the client makes once, number 0.
unfoldable pub client_props : {E : Type 0} → Bool → Option String → String → ShellProps E
unfolding client_path
client_props live_enabled pathname initial_path = record {
  current_path = some (client_path pathname initial_path);
  data_source = if live_enabled then some 0 else none;
  embedded = false;
  header_slot = if live_enabled then none else some fixture_label;
  class_name = none;
}

unfoldable pub client_surroundings : String → Surroundings
client_surroundings rationale_id = record {
  evidence_link = λ candidate_id. "/evidence?candidate=" ^^ encode_uri_component candidate_id;
  attention_link = none;
  rationale_id = rationale_id;
}

-- The views send with the server action, which the data source has for its `mutate`, or not at all.
unfoldable pub client_transports :
    {N : Type 0} → Bool → (PromotionMutation N → Outcome (Value N)) → Transports N
client_transports live_enabled action = record {
  on_decision = none;
  on_mutation = none;
  mutate = if live_enabled then some action else none;
  embedded = false;
}
