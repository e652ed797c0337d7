-- ===== src/Web/Bursts.antt =====
-- apps/web/src/app/[[...route]]/promotion-client.tsx: when the page is refreshed.
use agent_promotion_control.Prelude.{
  ℕ, ◌+◌, ◌≤◌, ◌<◌, ◌≡◌, refl, ap, ◌∙◌, leb, none, some, List, [], ◌∷◌, arith, true, false,
}
use agent_promotion_control.Web.Refresh.{
  ClientState, mounted, elapse, refresh_material_state, after_events,
}

-- Each event comes less than 150 milliseconds after the one before it.
abbrev pub IsBurst : ℕ → List ℕ → Type 0
IsBurst now [] = Unit
IsBurst now (next ∷ later) = (now ≤ next) × (next < now + 150) × IsBurst next later

abbrev pub last_of : ℕ → List ℕ → ℕ
last_of now [] = now
last_of now (next ∷ later) = last_of next later

waits :
    (now next : ℕ) (rs : List ℕ)
    → next < now + 150
    → refresh_material_state next (record { timer = some (now + 150); refreshes = rs })
      ≡ record { timer = some (next + 150); refreshes = rs }
unfolding refresh_material_state elapse
waits now next rs early =
    let unfired : leb (now + 150) next ≡ false = ground arith in rw unfired refl

after_burst :
    (now : ℕ) (later rs : List ℕ)
    → IsBurst now later
    → after_events later (record { timer = some (now + 150); refreshes = rs })
      ≡ record { timer = some (last_of now later + 150); refreshes = rs }
unfolding after_events
after_burst now [] rs burst = refl
after_burst now (next ∷ later) rs (from, early, burst) =
    ap (after_events later) (waits now next rs early) ∙ after_burst next later rs burst

-- After events each less than 150 milliseconds after the one before it, the page has not been
-- refreshed, and at any time from 150 milliseconds after the last of them on it has been refreshed
-- once, at that time, if nothing happens in between.
pub after_events-once :
    (first : ℕ) (later : List ℕ) (now : ℕ)
    → IsBurst first later
    → last_of first later + 150 ≤ now
    → let s = after_events (first ∷ later) mounted in
      (s.refreshes ≡ [])
      × (elapse now s ≡ record { timer = none; refreshes = (last_of first later + 150) ∷ [] })
unfolding after_events refresh_material_state elapse
after_events-once first later now burst due =
    let waiting = after_burst first later [] burst in
    let fires : leb (last_of first later + 150) now ≡ true = ground arith in
    (ap (λ (s : ClientState). s.refreshes) waiting, ap (elapse now) waiting ∙ rw fires refl)
