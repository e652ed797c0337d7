-- ===== src/Web/Refresh.antt =====
-- apps/web/src/app/[[...route]]/promotion-client.tsx: the refresh of the page after an event. `timer`
-- is the time at which the timer that is set fires, in milliseconds; `refreshes` are the times at
-- which the router has refreshed, the last one first.
use agent_promotion_control.Prelude.{ℕ, ◌+◌, leb, Option, none, some, List, [], ◌∷◌, if◌then◌else◌}

pub record ClientState : Type 0 where
  pub timer : Option ℕ
  pub refreshes : List ℕ

abbrev pub mounted : ClientState
mounted = record { timer = none; refreshes = [] }

-- A timer whose time has come fires.
unfoldable pub elapse : ℕ → ClientState → ClientState
elapse now s = elim s.timer [
  | none ↦ s
  | some at ↦ if leb at now then record { timer = none; refreshes = at ∷ s.refreshes } else s
]

-- `refreshMaterialState` at a time: a timer that is set and has not fired is replaced.
unfoldable pub refresh_material_state : ℕ → ClientState → ClientState
unfolding elapse
refresh_material_state now s = record (elapse now s) { timer = some (now + 150) }

-- The effect's cleanup when the client goes.
unfoldable pub unmount : ℕ → ClientState → ClientState
unfolding elapse
unmount now s = record (elapse now s) { timer = none }

-- Events at these times, in order.
unfoldable pub after_events : List ℕ → ClientState → ClientState
unfolding refresh_material_state
after_events [] s = s
after_events (now ∷ later) s = after_events later (refresh_material_state now s)
