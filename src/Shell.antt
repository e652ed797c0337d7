-- ===== src/Shell.antt =====
-- packages/promotion-ui/src/PromotionShell.tsx: the state of the shell, the view that it chooses for a
-- path, and the subscription to the stream of events.
pub mod Stream
pub mod Cursor
pub mod Links
pub mod Wiring
pub mod Frame
pub mod Current
use Prim.Native.Char.{code}
use Prim.Native.String.{[], ◌∷◌}
use agent_promotion_control.Prelude.{
  String, Bool, ◌||◌, ◌&&◌, false, Option, none, some, List, [], ◌∷◌, find, get_or, ℕ, nat_eq, ◌==◌,
  if◌then◌else◌,
}
use agent_promotion_control.Js.{Runtime}
use agent_promotion_control.View.{
  CandidateViewModel, EvaluationRunViewModel, RegistryAgentViewModel, TimelineEventViewModel,
  PromotionEventEnvelope, DashboardViewModel,
}
use agent_promotion_control.Live.{apply_promotion_event}
use agent_promotion_control.Routes.{
  PromotionRoute, PromotionRouteName, overview, candidates, candidate, evaluations, evaluation,
  contract, automation, registry, registry_agent, audit, parse_promotion_route,
}

-- `activeRoot`: the section that a route belongs to.
unfoldable pub active_root : PromotionRouteName → PromotionRouteName
active_root candidate = candidates
active_root evaluation = evaluations
active_root registry_agent = registry
active_root name = name

-- The view that is rendered, with the record that it is given.
pub data ShownView (N : Type 0) : Type 0 where
  overview_view candidates_view evaluations_view : ShownView N
  contract_view automation_view registry_view audit_view : ShownView N
  candidate_view : Option (CandidateViewModel N) → ShownView N
  evaluation_view : Option (EvaluationRunViewModel N) → ShownView N
  agent_view : Option (RegistryAgentViewModel N) → ShownView N

-- The text is the id that the route names, if it names one.
abbrev pub is_named : Option String → String → Bool
is_named none text = false
is_named (some id) text = text == id

-- The same of a text that may be missing.
abbrev pub is_named_option : Option String → Option String → Bool
is_named_option id none = false
is_named_option id (some text) = is_named id text

module _ {N : Type 0} where
  unfoldable pub named_candidate :
      Option String → DashboardViewModel N → Option (CandidateViewModel N)
  named_candidate id data_now =
      find (λ candidate. is_named id candidate.id || is_named id candidate.slug) data_now.candidates

  unfoldable pub named_run :
      Option String → DashboardViewModel N → Option (EvaluationRunViewModel N)
  named_run id data_now = find (λ run. is_named id run.id) data_now.evaluations

  unfoldable pub named_agent :
      Option String → DashboardViewModel N → Option (RegistryAgentViewModel N)
  named_agent id data_now =
      find (λ agent. is_named id agent.id || is_named_option id agent.agent_id)
        data_now.registry_agents

  unfoldable pub shown_view : PromotionRoute → DashboardViewModel N → ShownView N
  unfolding named_candidate named_run named_agent
  shown_view route data_now = elim route.name [
    | overview ↦ overview_view
    | candidates ↦ candidates_view
    | candidate ↦ candidate_view (named_candidate route.id data_now)
    | evaluations ↦ evaluations_view
    | evaluation ↦ evaluation_view (named_run route.id data_now)
    | contract ↦ contract_view
    | automation ↦ automation_view
    | registry ↦ registry_view
    | registry_agent ↦ agent_view (named_agent route.id data_now)
    | audit ↦ audit_view
  ]

-- The state. Data sources are told apart by a number.
pub record ShellState (N : Type 0) : Type 0 where
  pub shown : DashboardViewModel N
  pub internal_path : String
  pub connected_source : Option ℕ

-- What happens to the shell: it is rendered with a snapshot, which is another object than the last one
-- or the same, an event arrives, a data source is connected or not, the user goes to a path.
pub data ShellEvent (N : Type 0) : Type 0 where
  rendered : (changed : Bool) → DashboardViewModel N → ShellEvent N
  received : PromotionEventEnvelope N → ShellEvent N
  connection_changed : (source : ℕ) (connected : Bool) → ShellEvent N
  went : String → ShellEvent N

module _ {N : Type 0} (js : Runtime N) where
  abbrev pub initial_state : DashboardViewModel N → Option String → ShellState N
  initial_state initial_data current_path = record {
    shown = initial_data;
    internal_path = get_or current_path "/";
    connected_source = none;
  }

  unfoldable pub handle : ShellEvent N → ShellState N → ShellState N
  handle (rendered changed initial_data) s =
      if changed then record s { shown = initial_data } else s
  handle (received event) s = record s { shown = apply_promotion_event js s.shown event }
  handle (connection_changed source connected) s = record s {
    connected_source = if connected then some source else none;
  }
  handle (went path) s = record s { internal_path = path }

  -- `streamConnected`.
  unfoldable pub stream_connected : Option ℕ → ShellState N → Bool
  stream_connected none s = false
  stream_connected (some source) s = elim s.connected_source [
    | none ↦ false
    | some connected ↦ nat_eq connected source
  ]

  -- What is rendered: the section and the view of the current path.
  unfoldable pub shell_view : Option String → ShellState N → PromotionRouteName × ShownView N
  unfolding active_root shown_view
  shell_view current_path s =
      let route = parse_promotion_route (get_or current_path s.internal_path) in
      (active_root route.name, shown_view route s.shown)

  -- `reduce((largest, event) => Math.max(largest, event.sequence), largest)`.
  unfoldable pub last_from : N → List (TimelineEventViewModel N) → N
  last_from largest [] = largest
  last_from largest (event ∷ events) = last_from (js.larger largest event.sequence) events

  unfoldable pub last_event : DashboardViewModel N → N
  unfolding last_from
  last_event initial_data = last_from (js.of_nat 0) initial_data.recent_events

  -- The `lastEventId` of the subscription.
  unfoldable pub last_event_id : DashboardViewModel N → Option String
  unfolding last_event
  last_event_id initial_data =
      let last = last_event initial_data in
      if js.gt last (js.of_nat 0) then some (js.to_text last) else none

-- `promotionNavigation`.
pub record NavigationItem : Type 0 where
  pub index : String
  pub label : String
  pub path : String

abbrev item : String → String → String → NavigationItem
item index label path = record { index = index; label = label; path = path }

unfoldable pub promotion_navigation : List NavigationItem
promotion_navigation =
    item "01" "Overview" "/"
    ∷ item "02" "Candidates" "/candidates"
    ∷ item "03" "Evaluations" "/evaluations"
    ∷ item "04" "Promotion contract" "/contract"
    ∷ item "05" "Automation" "/automation"
    ∷ item "06" "Registry" "/registry"
    ∷ item "07" "Audit" "/audit"
    ∷ []

-- The name of a section in the code, and the one that an item of the navigation stands for.
abbrev pub name_text : PromotionRouteName → String
name_text overview = "overview"
name_text candidates = "candidates"
name_text candidate = "candidate"
name_text evaluations = "evaluations"
name_text evaluation = "evaluation"
name_text contract = "contract"
name_text automation = "automation"
name_text registry = "registry"
name_text registry_agent = "registry-agent"
name_text audit = "audit"

unfoldable pub item_name : String → String
item_name [] = []
item_name (c ∷ path) = if path == "" && nat_eq (code c) b'/' then "overview" else path

-- `aria-current`.
unfoldable pub is_current : PromotionRouteName → NavigationItem → Bool
unfolding active_root item_name
is_current name item = name_text (active_root name) == item_name item.path
