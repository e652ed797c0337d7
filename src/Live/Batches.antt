-- ===== src/Live/Batches.antt =====
-- packages/promotion-ui/src/live.ts: events that arrive one after the other, in any order.
use mathlib.Core.List.{Permᴰ}
use mathlib.Core.Path.{subst, ap₂}
use agent_promotion_control.Prelude.{◌≡◌, refl, ap, ◌∙◌, false, List, [], ◌∷◌, All}
use agent_promotion_control.Js.{Runtime, IsOrdered}
use agent_promotion_control.Js.Sorting.{IsOrderedBy}
use agent_promotion_control.View.{TimelineEventViewModel}
use agent_promotion_control.Live.Apply.{push_recent}
use agent_promotion_control.Live.Window.{IsFinite, IsTimeline}
use agent_promotion_control.Live.Feed.{push_recent-IsTimeline}
use agent_promotion_control.Live.Arrival.{push_recent_comm}

module _ {N : Type 0} (js : Runtime N) where
  -- The window after these events, the first of them first.
  unfoldable pub push_all :
      List (TimelineEventViewModel N)
      → List (TimelineEventViewModel N)
      → List (TimelineEventViewModel N)
  push_all [] window = window
  push_all (event ∷ later) window = push_all later (push_recent js event window)

  -- Other sequence numbers, in both directions.
  abbrev pub IsOther : TimelineEventViewModel N → TimelineEventViewModel N → Type 0
  IsOther a b = (js.same a.sequence b.sequence ≡ false) × (js.same b.sequence a.sequence ≡ false)

  abbrev pub IsBatch : List (TimelineEventViewModel N) → Type 0
  IsBatch es = All (IsFinite js) es × IsOrderedBy IsOther es

All-Permᴰ {ℓ κ} : {A : Type ℓ} (P : A → Type κ) {xs ys : List A} → Permᴰ xs ys → All P xs → All P ys
All-Permᴰ P Permᴰ.nil h = h
All-Permᴰ P (Permᴰ.cons e p) (q, h) = (subst P e q, All-Permᴰ P p h)
All-Permᴰ P (Permᴰ.swap e f) (q, (r, h)) = (subst P f r, (subst P e q, h))
All-Permᴰ P (Permᴰ.trans p q) h = All-Permᴰ P q (All-Permᴰ P p h)

module _ {N : Type 0} (js : Runtime N) where
  IsOther-along :
      {a b c d : TimelineEventViewModel N} → a ≡ c → b ≡ d → IsOther js a b → IsOther js d c
  IsOther-along {a} {b} {c} {d} e f (ab, ba) =
      subst (λ x. IsOther js d x) e (subst (λ y. IsOther js y a) f (ba, ab))

  apart-Permᴰ :
      {es fs : List (TimelineEventViewModel N)}
      → Permᴰ es fs
      → IsOrderedBy (IsOther js) es
      → IsOrderedBy (IsOther js) fs
  apart-Permᴰ Permᴰ.nil h = h
  apart-Permᴰ (Permᴰ.cons {a} {l₂ = later} e p) (low, h) =
      (subst (λ x. All (IsOther js x) later) e (All-Permᴰ (IsOther js a) p low), apart-Permᴰ p h)
  apart-Permᴰ (Permᴰ.swap {l = later} e f) ((other, low), (low', h)) = (
    (IsOther-along e f other, subst (λ x. All (IsOther js x) later) f low'),
    (subst (λ x. All (IsOther js x) later) e low, h),
  )
  apart-Permᴰ (Permᴰ.trans p q) h = apart-Permᴰ q (apart-Permᴰ p h)

module _ {N : Type 0} {js : Runtime N} (laws : IsOrdered N js) where
  -- Events with finite sequence numbers, no two of them the same, give the same window of recent
  -- events in whatever order they arrive, for a window that is newest first without repetition.
  pub push_all-Permᴰ :
      {es fs : List (TimelineEventViewModel N)} (window : List (TimelineEventViewModel N))
      → Permᴰ es fs
      → IsBatch js es
      → IsTimeline js window
      → push_all js es window ≡ push_all js fs window
  unfolding push_all
  push_all-Permᴰ window Permᴰ.nil b w = refl
  push_all-Permᴰ window (Permᴰ.cons {a} {l₂ = later} e p) ((fa, fs), (low, apart)) w =
      push_all-Permᴰ (push_recent js a window) p (fs, apart)
        (push_recent-IsTimeline laws a window fa w)
      ∙ ap (λ x. push_all js later (push_recent js x window)) e
  push_all-Permᴰ window (Permᴰ.swap {a} {b} {l = later} e f)
        ((fa, (fb, fs)), (((ab, ba), low), apart)) w =
      ap (push_all js later) (push_recent_comm laws b a window fb fa w ba)
      ∙ ap₂ (λ x y. push_all js later (push_recent js x (push_recent js y window))) e f
  push_all-Permᴰ window (Permᴰ.trans p q) (finite, apart) w =
      push_all-Permᴰ window p (finite, apart) w
      ∙ push_all-Permᴰ window q (All-Permᴰ (IsFinite js) p finite, apart-Permᴰ js p apart) w
