-- ===== src/Shell/Wiring.antt =====
-- packages/promotion-ui/src/http-data-source.ts and PromotionShell.tsx: what the signals of the
-- EventSource do to the shell. The data source calls back, and the shell's callbacks are its events.
use agent_promotion_control.Prelude.{
  ℕ, ◌≡◌, ◌∙◌, refl, ap, String, Bool, true, false, arith, Option, some, List, [], ◌∷◌, nat_eq,
}
use agent_promotion_control.Js.{Value, Runtime}
use agent_promotion_control.View.{PromotionEventEnvelope, DashboardViewModel}
use agent_promotion_control.Live.{apply_promotion_event}
use agent_promotion_control.Mutation.{Frame, unread, unmade, made, handle_event}
use agent_promotion_control.Shell.{
  ShellState, ShellEvent, received, connection_changed, handle, stream_connected,
}

-- `onopen`, `onerror`, and a message: the time, its `lastEventId`, and its data if that parses.
pub data Signal (N : Type 0) : Type 0 where
  opened errored : Signal N
  frame : (now : String) (last_event_id : String) → Option (Value N) → Signal N

abbrev add_event :
    {N : Type 0} → Frame N → List (PromotionEventEnvelope N) → List (PromotionEventEnvelope N)
add_event (made event) rest = event ∷ rest
add_event _ rest = rest

abbrev stands_after : {N : Type 0} → Frame N → Bool → Bool
stands_after unread before = before
stands_after _ before = true

module _ {N : Type 0} (js : Runtime N) where
  -- The callbacks of a message: none for one that is ignored, else the connection before the event.
  abbrev frame_callbacks : ℕ → Frame N → List (ShellEvent N)
  frame_callbacks source unread = []
  frame_callbacks source unmade = connection_changed source true ∷ []
  frame_callbacks source (made event) = connection_changed source true ∷ received event ∷ []

  unfoldable pub callbacks : ℕ → Signal N → List (ShellEvent N)
  callbacks source opened = connection_changed source true ∷ []
  callbacks source errored = connection_changed source false ∷ []
  callbacks source (frame now last_event_id data_read) =
      frame_callbacks source (handle_event js now last_event_id data_read)

  unfoldable pub after_callbacks : List (ShellEvent N) → ShellState N → ShellState N
  after_callbacks [] s = s
  after_callbacks (e ∷ es) s = after_callbacks es (handle js e s)

  -- The signals of one subscription, in order.
  unfoldable pub after_signals : ℕ → List (Signal N) → ShellState N → ShellState N
  unfolding callbacks after_callbacks
  after_signals source [] s = s
  after_signals source (signal ∷ signals) s =
      after_signals source signals (after_callbacks (callbacks source signal) s)

  -- The events that the messages carry, in order.
  abbrev pub carried : List (Signal N) → List (PromotionEventEnvelope N)
  carried [] = []
  carried (frame now last_event_id data_read ∷ signals) =
      add_event (handle_event js now last_event_id data_read) (carried signals)
  carried (_ ∷ signals) = carried signals

  -- Whether the last signal that tells of the connection says that it stands.
  abbrev pub stands : List (Signal N) → Bool → Bool
  stands [] before = before
  stands (opened ∷ signals) before = stands signals true
  stands (errored ∷ signals) before = stands signals false
  stands (frame now last_event_id data_read ∷ signals) before =
      stands signals (stands_after (handle_event js now last_event_id data_read) before)

  abbrev pub applied : DashboardViewModel N → List (PromotionEventEnvelope N) → DashboardViewModel N
  applied dashboard [] = dashboard
  applied dashboard (event ∷ events) = applied (apply_promotion_event js dashboard event) events

nat_eq_self : (n : ℕ) → nat_eq n n ≡ true
nat_eq_self n = ground arith

module _ {N : Type 0} (js : Runtime N) (source : ℕ) where
  frame_applied :
      (heard : Frame N) (later : List (PromotionEventEnvelope N)) (s : ShellState N)
      → applied js (after_callbacks js (frame_callbacks js source heard) s).shown later
        ≡ applied js s.shown (add_event heard later)
  unfolding after_callbacks handle
  frame_applied unread later s = refl
  frame_applied unmade later s = refl
  frame_applied (made event) later s = refl

  frame_stands :
      (heard : Frame N) (s : ShellState N)
      → stream_connected js (some source) (after_callbacks js (frame_callbacks js source heard) s)
        ≡ stands_after heard (stream_connected js (some source) s)
  unfolding after_callbacks handle stream_connected
  frame_stands unread s = refl
  frame_stands unmade s = nat_eq_self source
  frame_stands (made event) s = nat_eq_self source

  after_signals-applied :
      (signals : List (Signal N)) (s : ShellState N)
      → (after_signals js source signals s).shown ≡ applied js s.shown (carried js signals)
  unfolding after_signals after_callbacks callbacks handle
  after_signals-applied [] s = refl
  after_signals-applied (opened ∷ signals) s = after_signals-applied signals _
  after_signals-applied (errored ∷ signals) s = after_signals-applied signals _
  after_signals-applied (frame now id data_read ∷ signals) s =
      after_signals-applied signals _ ∙ frame_applied (handle_event js now id data_read) _ s

  after_signals-stands :
      (signals : List (Signal N)) (s : ShellState N)
      → stream_connected js (some source) (after_signals js source signals s)
        ≡ stands js signals (stream_connected js (some source) s)
  unfolding after_signals after_callbacks callbacks handle stream_connected
  after_signals-stands [] s = refl
  after_signals-stands (opened ∷ signals) s =
      after_signals-stands signals _ ∙ ap (stands js signals) (nat_eq_self source)
  after_signals-stands (errored ∷ signals) s = after_signals-stands signals _
  after_signals-stands (frame now id data_read ∷ signals) s =
      after_signals-stands signals _
      ∙ ap (stands js signals) (frame_stands (handle_event js now id data_read) s)

  -- Whatever the EventSource of a subscription signals, the shell shows the snapshot with the events
  -- that the messages carry applied one by one in their order, and its indicator is what the last
  -- signal other than an unreadable message says: on for an opening or a message, off for an error.
  pub after_signals_lem :
      (signals : List (Signal N)) (s : ShellState N)
      → ((after_signals js source signals s).shown ≡ applied js s.shown (carried js signals))
        × (stream_connected js (some source) (after_signals js source signals s)
            ≡ stands js signals (stream_connected js (some source) s))
  after_signals_lem signals s = (after_signals-applied signals s, after_signals-stands signals s)
