-- ===== src/Shell/Stream.antt =====
-- packages/promotion-ui/src/PromotionShell.tsx with live.ts: what the shell shows at any time.
use agent_promotion_control.Prelude.{ℕ, ◌≤◌, ◌≡◌, true, String, Option, if-either}
use agent_promotion_control.Js.{Runtime, IsOrdered}
use agent_promotion_control.View.{DashboardViewModel}
use agent_promotion_control.Live.Orderly.{IsOrderly, apply_promotion_event-IsOrderly}
use agent_promotion_control.Shell.{
  ShellState, ShellEvent, rendered, received, connection_changed, went, initial_state, handle,
}

module _ {N : Type 0} (js : Runtime N) (n : ℕ) where
  -- Snapshots are orderly and sequence numbers finite.
  abbrev pub IsSound : ShellEvent N → Type 0
  IsSound (rendered changed initial_data) = IsOrderly js n initial_data
  IsSound (received event) = js.is_finite event.sequence ≡ true
  IsSound (connection_changed source connected) = Unit
  IsSound (went path) = Unit

  -- The states that the shell can be in.
  pub data Reached : ShellState N → Type 0 where
    start :
        (d : DashboardViewModel N) (path : Option String)
        → IsOrderly js n d
        → Reached (initial_state js d path)
    next : {s : ShellState N} (e : ShellEvent N) → IsSound e → Reached s → Reached (handle js e s)

module _ {N : Type 0} {js : Runtime N} (laws : IsOrdered N js) (n : ℕ) where
  handle-IsOrderly :
      (e : ShellEvent N) (s : ShellState N)
      → 40 ≤ n
      → IsSound js n e
      → IsOrderly js n s.shown
      → IsOrderly js n (handle js e s).shown
  unfolding handle
  handle-IsOrderly (rendered changed d) s wide sound o =
      if-either (λ (x : ShellState N). IsOrderly js n x.shown) changed (λ _. sound) (λ _. o)
  handle-IsOrderly (received event) s wide sound o =
      apply_promotion_event-IsOrderly laws n s.shown event wide sound o
  handle-IsOrderly (connection_changed source connected) s wide sound o = o
  handle-IsOrderly (went path) s wide sound o = o

  -- Where every snapshot that the shell is rendered with is orderly for a bound of 40 or more, and every
  -- event that arrives has a finite sequence number, the dashboard is orderly in every state that
  -- the shell reaches, in whatever order renderings, events and navigation happen.
  pub Reached-IsOrderly : (s : ShellState N) → 40 ≤ n → Reached js n s → IsOrderly js n s.shown
  Reached-IsOrderly s wide (start d path o) = o
  Reached-IsOrderly s wide (next {s = before} e sound h) =
      handle-IsOrderly e before wide sound (Reached-IsOrderly before wide h)
