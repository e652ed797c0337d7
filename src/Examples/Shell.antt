-- ===== src/Examples/Shell.antt =====
-- The shell over a small dashboard.
use mathlib.Core.List.{Memᴰ}
use agent_promotion_control.Prelude.{
  ℕ, ◌≡◌, ◌⊎◌, ◌↔◌, refl, String, true, false, List, [], ◌∷◌, none, some, find, ◌||◌, ◌==◌, arith,
  eq_iff,
}
use agent_promotion_control.Js.{prints, is_unreserved, obj, str, field, end, text_of}
use agent_promotion_control.View.{
  CandidateViewModel, EvaluationRunViewModel, RegistryAgentViewModel, PromotionEventEnvelope,
  TimelineEventViewModel,
}
use agent_promotion_control.Live.Orderly.{IsOrderly}
use agent_promotion_control.Routes.{
  candidates, evaluations, registry, candidate_route, evaluation_route, registry_agent_route,
}
use agent_promotion_control.Mutation.{handle_event}
use agent_promotion_control.Shell.{
  ShellState, received, initial_state, handle, shell_view, candidate_view, evaluation_view,
  agent_view, stream_connected, ShownView, is_named_option, last_event, last_event_id,
}
use agent_promotion_control.Shell.Stream.{Reached, start, next, Reached-IsOrderly}
use agent_promotion_control.Shell.Cursor.{IsMaximum, IsAbove, last_event_id-IsLatest}
use agent_promotion_control.Shell.Links.{is_plain, shell_view-candidate_route}
use agent_promotion_control.Shell.Frame.{ShellProps, shell_class}
use agent_promotion_control.Web.Client.{client_path, client_props}
use agent_promotion_control.Markup.{Node, styled}
use agent_promotion_control.Shell.Wiring.{
  Signal, opened, errored, frame, after_signals, carried, stands, applied, after_signals_lem,
}
use agent_promotion_control.Examples.Machine.{machine, machine-IsOrdered}
use agent_promotion_control.Examples.Live.{
  discovered, empty_dashboard, empty-IsOrderly, one_candidate, live,
}

abbrev state : ShellState ℕ
state = handle machine (received discovered) (initial_state machine empty_dashboard none)

state-Reached : Reached machine 80 state
state-Reached = next (received discovered) refl (start empty_dashboard none empty-IsOrderly)

Reached-IsOrderly_example : IsOrderly machine 80 state.shown
Reached-IsOrderly_example = Reached-IsOrderly machine-IsOrdered 80 state (omega arith) state-Reached

machine-IsMaximum : IsMaximum ℕ machine
machine-IsMaximum = record {
  zero_finite = refl;
  larger_left = λ a b _ _. ground arith;
  larger_right = λ a b _ _. ground arith;
  larger_either = λ a b. ground arith;
}

last_event_id-IsLatest_example :
    IsAbove machine-IsOrdered machine-IsMaximum
      (last_event machine one_candidate)
      one_candidate.recent_events
    × ((last_event machine one_candidate ≡ 0)
        ⊎ ((e : TimelineEventViewModel ℕ) × Memᴰ e one_candidate.recent_events
            × (last_event machine one_candidate ≡ e.sequence)))
    × ((last_event_id machine one_candidate
          ≡ some (machine.to_text (last_event machine one_candidate)))
        ↔ (machine.gt (last_event machine one_candidate) 0 ≡ true))
unfolding live
last_event_id-IsLatest_example =
    last_event_id-IsLatest machine-IsOrdered machine-IsMaximum one_candidate (refl, tt)

shell_view-candidate_route_example :
    (shell_view machine (some (candidate_route "c1")) state ≡ (
      candidates,
      candidate_view (
          find
            (λ (c : CandidateViewModel ℕ). c.id == "c1" || c.slug == "c1")
            state.shown.candidates),
    ))
    × (shell_view machine (some (evaluation_route "c1")) state ≡ (
      evaluations,
      evaluation_view
          (find (λ (r : EvaluationRunViewModel ℕ). r.id == "c1") state.shown.evaluations),
    ))
    × (shell_view machine (some (registry_agent_route "c1")) state ≡ (
      registry,
      agent_view (
          find
            (λ (a : RegistryAgentViewModel ℕ).
              a.id == "c1" || is_named_option (some "c1") a.agent_id)
            state.shown.registry_agents),
    ))
unfolding is_plain is_unreserved
shell_view-candidate_route_example =
    shell_view-candidate_route machine "c1" state (ground (arith, eq_iff "c1" "")) refl

abbrev heard_signals : List (Signal ℕ)
heard_signals =
    opened
    ∷ frame "now" "7" (some (obj (field "event_type" (str "CANDIDATE_DISCOVERED") end)))
    ∷ errored
    ∷ frame "now" "8" none
    ∷ []

after_signals_lem_example :
    ((after_signals machine 1 heard_signals state).shown
      ≡ applied machine state.shown (carried machine heard_signals))
    × (stream_connected machine (some 1) (after_signals machine 1 heard_signals state)
        ≡ stands machine heard_signals (stream_connected machine (some 1) state))
after_signals_lem_example = after_signals_lem machine 1 heard_signals state

abbrev carried_types : List (PromotionEventEnvelope ℕ) → List String
carried_types [] = []
carried_types (event ∷ events) = event.event_type ∷ carried_types events

one_event_heard : carried_types (carried machine heard_signals) ≡ "CANDIDATE_DISCOVERED" ∷ []
unfolding handle_event text_of prints
one_event_heard = refl

signals_stand : stands machine heard_signals true ≡ false
unfolding handle_event
signals_stand = refl

abbrev client : ShellProps (String)
client = client_props false none "/candidates"

abbrev shown_text : ShownView ℕ → Node String
shown_text view = styled "section" "pcp-view" []

client_class : shell_class client.class_name ≡ "pcp-shell"
unfolding client_props shell_class
client_class = refl

client_path_given : client_path (some "/audit") "/candidates" ≡ "/audit"
unfolding client_path
client_path_given = refl
