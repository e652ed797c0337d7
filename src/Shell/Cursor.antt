-- ===== src/Shell/Cursor.antt =====
-- packages/promotion-ui/src/PromotionShell.tsx: from where the stream of events is asked for.
use mathlib.Core.List.{Memᴰ}
use agent_promotion_control.Prelude.{
  ◌≡◌, ◌⊎◌, ◌↔◌, refl, inl, inr, ◌∙◌, true, false, Bool, List, [], ◌∷◌, All, Bool-cases, some, none,
  if◌then◌else◌,
}
use agent_promotion_control.Js.{Runtime, IsOrdered}
use agent_promotion_control.View.{TimelineEventViewModel, DashboardViewModel}
use agent_promotion_control.Live.Window.{IsFinite}
use agent_promotion_control.Shell.{last_from, last_event, last_event_id}

-- The documented behaviour of `Math.max` on finite numbers.
pub record IsMaximum (N : Type 0) (js : Runtime N) : Type 0 where
  pub zero_finite : js.is_finite (js.of_nat 0) ≡ true
  pub larger_left :
      (a b : N) → js.is_finite a ≡ true → js.is_finite b ≡ true → js.gt a (js.larger a b) ≡ false
  pub larger_right :
      (a b : N) → js.is_finite a ≡ true → js.is_finite b ≡ true → js.gt b (js.larger a b) ≡ false
  pub larger_either : (a b : N) → (js.larger a b ≡ a) ⊎ (js.larger a b ≡ b)

module _ {N : Type 0} {js : Runtime N} (laws : IsOrdered N js) (max : IsMaximum N js) where
  open laws use {gt_congr, gt_trans, gt_total}
  open max use {larger_left, larger_right, larger_either}

  -- What is not above a number is not above one that is not below it.
  gt_le_trans :
      (x m k : N)
      → js.is_finite m ≡ true
      → js.is_finite k ≡ true
      → js.gt x m ≡ false
      → js.gt m k ≡ false
      → js.gt x k ≡ false
  gt_le_trans x m k fm fk h low = elim (Bool-cases (js.gt x k)) [
    | inr below ↦ below
    | inl above ↦ elim (Bool-cases (js.same m k)) [
      | inl same ↦ cc (gt_congr x m k same)
      | inr other ↦ cc (gt_trans x k m above (gt_total m k fm fk other low))
    ]
  ]

  larger-finite :
      (a b : N)
      → js.is_finite a ≡ true
      → js.is_finite b ≡ true
      → js.is_finite (js.larger a b) ≡ true
  larger-finite a b fa fb = elim (larger_either a b) [
    | inl left ↦ rw left fa
    | inr right ↦ rw right fb
  ]

  -- No event is newer than this.
  abbrev pub IsAbove : N → List (TimelineEventViewModel N) → Type 0
  IsAbove k = All λ (e : TimelineEventViewModel N). js.gt e.sequence k ≡ false

  last_from-le :
      (largest : N) (es : List (TimelineEventViewModel N))
      → js.is_finite largest ≡ true
      → All (IsFinite js) es
      → (js.is_finite (last_from js largest es) ≡ true)
        × (js.gt largest (last_from js largest es) ≡ false)
  unfolding last_from
  last_from-le largest [] fin fs = (fin, not_above largest fin)
    where
      not_above : (a : N) → js.is_finite a ≡ true → js.gt a a ≡ false
      not_above a f = laws.gt_irrefl a a (laws.same_refl a f)
  last_from-le largest (e ∷ es) fin (fe, fs) =
      let k = js.larger largest e.sequence in
      let fk = larger-finite largest e.sequence fin fe in
      let (fl, low) = last_from-le k es fk fs in
      (fl, gt_le_trans largest k _ fk fl (larger_left largest e.sequence fin fe) low)

  last_from-IsAbove :
      (largest : N) (es : List (TimelineEventViewModel N))
      → js.is_finite largest ≡ true
      → All (IsFinite js) es
      → IsAbove (last_from js largest es) es
  unfolding last_from
  last_from-IsAbove largest [] fin fs = tt
  last_from-IsAbove largest (e ∷ es) fin (fe, fs) =
      let k = js.larger largest e.sequence in
      let fk = larger-finite largest e.sequence fin fe in
      let (fl, low) = last_from-le k es fk fs in
      (
        gt_le_trans e.sequence k _ fk fl (larger_right largest e.sequence fin fe) low,
        last_from-IsAbove k es fk fs,
      )

  last_from-either :
      (largest : N) (es : List (TimelineEventViewModel N))
      → (last_from js largest es ≡ largest)
        ⊎ ((e : TimelineEventViewModel N) × Memᴰ e es × (last_from js largest es ≡ e.sequence))
  unfolding last_from
  last_from-either largest [] = inl refl
  last_from-either largest (e ∷ es) = elim (last_from-either (js.larger largest e.sequence) es) [
    | inr (x, found, same) ↦ inr (x, Memᴰ.tail found, same)
    | inl kept ↦ elim (larger_either largest e.sequence) [
      | inl left ↦ inl (kept ∙ left)
      | inr right ↦ inr (e, Memᴰ.head refl, kept ∙ right)
    ]
  ]

  -- Where the sequence numbers of a snapshot's recent events are finite, none of them is above the
  -- number from which the shell asks for the stream, which is 0 or the number of one of them; and
  -- the shell asks with that number exactly if it is above 0.
  pub last_event_id-IsLatest :
      (d : DashboardViewModel N)
      → All (IsFinite js) d.recent_events
      → IsAbove (last_event js d) d.recent_events
        × ((last_event js d ≡ js.of_nat 0)
            ⊎ ((e : TimelineEventViewModel N) × Memᴰ e d.recent_events
                × (last_event js d ≡ e.sequence)))
        × ((last_event_id js d ≡ some (js.to_text (last_event js d)))
            ↔ (js.gt (last_event js d) (js.of_nat 0) ≡ true))
  unfolding last_event last_event_id
  last_event_id-IsLatest d fs = (
    last_from-IsAbove (js.of_nat 0) d.recent_events max.zero_finite fs,
    last_from-either (js.of_nat 0) d.recent_events,
    asked (js.gt (last_event js d) (js.of_nat 0)) _,
  )
    where
      asked : {A : Type 0} (b : Bool) (a : A) → ((if b then some a else none) ≡ some a) ↔ (b ≡ true)
      asked true a = (λ _. refl, λ _. refl)
      asked false a = (λ h. cc h, λ h. cc h)
