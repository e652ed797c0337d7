-- ===== src/Live/Arrival.antt =====
-- packages/promotion-ui/src/live.ts: events that arrive out of order. The window of recent events
-- does not depend on the order in which two events arrive.
use agent_promotion_control.Prelude.{
  ℕ, zero, suc, ◌≡◌, refl, sym, ap, ◌∙◌, inl, inr, true, false, List, [], ◌∷◌, arith, take, All,
  Bool-cases,
}
use agent_promotion_control.Js.{Runtime, IsOrdered, insert_sorted}
use agent_promotion_control.Js.Sorting.{All-insert_sorted}
use agent_promotion_control.View.{TimelineEventViewModel}
use agent_promotion_control.Live.Apply.{behind, has_sequence, push_recent}
use agent_promotion_control.Live.Window.{
  IsFinite, IsNewer, IsDescending, IsTimeline, gt_asymm, behind-eq, insert_sorted-IsDescending,
}
use agent_promotion_control.Live.Feed.{
  take-insert_sorted-take, push_recent-IsTimeline, push_recent-eq, push_recent_of_old,
}

module _ {N : Type 0} (js : Runtime N) where
  has-insert_sorted :
      (s : N) (x : TimelineEventViewModel N) (xs : List (TimelineEventViewModel N))
      → has_sequence js s xs ≡ true
      → has_sequence js s (insert_sorted (behind js) x xs) ≡ true
  unfolding insert_sorted
  has-insert_sorted s x [] h = cc
  has-insert_sorted s x (y ∷ ys) h = ground (arith, has-insert_sorted s x ys)

  has-insert_sorted_other :
      (s : N) (x : TimelineEventViewModel N) (xs : List (TimelineEventViewModel N))
      → js.same x.sequence s ≡ false
      → has_sequence js s xs ≡ false
      → has_sequence js s (insert_sorted (behind js) x xs) ≡ false
  unfolding insert_sorted
  has-insert_sorted_other s x [] ne h = ground arith
  has-insert_sorted_other s x (y ∷ ys) ne h = ground (arith, has-insert_sorted_other s x ys ne)

  has-take :
      (n : ℕ) (s : N) (xs : List (TimelineEventViewModel N))
      → has_sequence js s xs ≡ false
      → has_sequence js s (take n xs) ≡ false
  has-take zero s xs h = refl
  has-take (suc n) s [] h = refl
  has-take (suc n) s (x ∷ xs) h = ground (arith, has-take n s xs)

module _ {N : Type 0} {js : Runtime N} (laws : IsOrdered N js) where
  open laws use {gt_congr, gt_trans, gt_total}

  -- With neither behind the other's place, the two land in the order of their sequence numbers.
  newer_of_not_behind :
      (x y : TimelineEventViewModel N)
      → IsFinite js x
      → IsFinite js y
      → js.same y.sequence x.sequence ≡ false
      → behind js x y ≡ false
      → behind js y x ≡ true
  newer_of_not_behind x y fx fy ne h =
      behind-eq laws y x fy fx
      ∙ gt_total y.sequence x.sequence fy fx ne (sym (behind-eq laws x y fx fy) ∙ h)

  behind_asymm :
      (x y : TimelineEventViewModel N)
      → IsFinite js x
      → IsFinite js y
      → behind js x y ≡ true
      → behind js y x ≡ false
  behind_asymm x y fx fy h =
      behind-eq laws y x fy fx
      ∙ gt_asymm laws y.sequence x.sequence fy (sym (behind-eq laws x y fx fy) ∙ h)

  behind_trans :
      (x y z : TimelineEventViewModel N)
      → IsFinite js x
      → IsFinite js y
      → IsFinite js z
      → behind js x y ≡ true
      → behind js y z ≡ true
      → behind js x z ≡ true
  behind_trans x y z fx fy fz h k =
      behind-eq laws x z fx fz
      ∙ gt_trans z.sequence y.sequence x.sequence (sym (behind-eq laws y z fy fz) ∙ k)
          (sym (behind-eq laws x y fx fy) ∙ h)

  insert_sorted_comm :
      (x y : TimelineEventViewModel N) (xs : List (TimelineEventViewModel N))
      → IsFinite js x
      → IsFinite js y
      → All (IsFinite js) xs
      → js.same x.sequence y.sequence ≡ false
      → js.same y.sequence x.sequence ≡ false
      → has_sequence js x.sequence xs ≡ false
      → has_sequence js y.sequence xs ≡ false
      → insert_sorted (behind js) x (insert_sorted (behind js) y xs)
        ≡ insert_sorted (behind js) y (insert_sorted (behind js) x xs)
  unfolding insert_sorted
  insert_sorted_comm x y [] fx fy fs ne ne' hx hy =
      ground (arith, newer_of_not_behind x y fx fy ne', behind_asymm x y fx fy)
  insert_sorted_comm x y (z ∷ zs) fx fy (fz, fs) ne ne' hx hy = ground (
    arith,
    newer_of_not_behind x y fx fy ne',
    behind_asymm x y fx fy,
    newer_of_not_behind x z fx fz,
    newer_of_not_behind y z fy fz,
    behind_trans y z x fy fz fx,
    behind_trans x z y fx fz fy,
    insert_sorted_comm x y zs fx fy fs ne ne',
  )

  -- All that stands before an event in a descending list is newer than it.
  IsNewer-than_has :
      (z x : TimelineEventViewModel N) (zs : List (TimelineEventViewModel N))
      → All (IsNewer js z) zs
      → has_sequence js x.sequence zs ≡ true
      → IsNewer js z x
  IsNewer-than_has z x [] h has = cc
  IsNewer-than_has z x (w ∷ ws) (p, h) has = elim (Bool-cases (js.same w.sequence x.sequence)) [
    | inl same ↦ sym (gt_congr z.sequence w.sequence x.sequence same) ∙ p
    | inr other ↦ IsNewer-than_has z x ws h (rw other at has)
  ]

  -- An event that a descending list holds beyond the cut does not come back in front of it.
  take-insert_sorted_old :
      (n : ℕ) (x : TimelineEventViewModel N) (xs : List (TimelineEventViewModel N))
      → IsFinite js x
      → All (IsFinite js) xs
      → IsDescending js xs
      → has_sequence js x.sequence xs ≡ true
      → has_sequence js x.sequence (take n xs) ≡ false
      → take n (insert_sorted (behind js) x xs) ≡ take n xs
  unfolding insert_sorted
  take-insert_sorted_old zero x xs fx fs d has out = refl
  take-insert_sorted_old (suc n) x [] fx fs d has out = cc
  take-insert_sorted_old (suc n) x (z ∷ zs) fx (fz, fs) (above, d) has out =
      let other : js.same z.sequence x.sequence ≡ false = ground arith in
      let has' : has_sequence js x.sequence zs ≡ true = ground arith in
      let out' : has_sequence js x.sequence (take n zs) ≡ false = ground arith in
      let later : behind js x z ≡ true =
        behind-eq laws x z fx fz ∙ IsNewer-than_has z x zs above has' in
      rw later (ap (◌∷◌ z) (take-insert_sorted_old n x zs fx fs d has' out'))

  module _ (x y : TimelineEventViewModel N) (xs : List (TimelineEventViewModel N))
      (fx : IsFinite js x) (fy : IsFinite js y) (w : IsTimeline js xs) where
    -- An event that the window holds, or held before it was cut, is dropped.
    push_recent_absorb :
        has_sequence js x.sequence xs ≡ true
        → has_sequence js y.sequence xs ≡ false
        → push_recent js x (push_recent js y xs) ≡ push_recent js y xs
    push_recent_absorb old new =
        elim (Bool-cases (has_sequence js x.sequence (push_recent js y xs))) [
          | inl kept ↦ push_recent_of_old laws x (push_recent js y xs) kept
          | inr cut ↦
              let full = insert_sorted (behind js) y xs in
              let e = push_recent-eq laws y xs w new in
              push_recent-eq laws x (push_recent js y xs) (push_recent-IsTimeline laws y xs fy w)
                cut
              ∙ rw e (
                  take-insert_sorted-take js 40 x full
                  ∙ take-insert_sorted_old 40 x full fx
                      (All-insert_sorted (behind js) (IsFinite js) y xs fy w.finite)
                      (insert_sorted-IsDescending laws y xs fy w.finite new w.descending)
                      (has-insert_sorted js x.sequence y xs old) (rw e at cut))
        ]

    push_recent_both :
        js.same y.sequence x.sequence ≡ false
        → has_sequence js x.sequence xs ≡ false
        → has_sequence js y.sequence xs ≡ false
        → push_recent js x (push_recent js y xs)
          ≡ take 40 (insert_sorted (behind js) x (insert_sorted (behind js) y xs))
    push_recent_both ne new_x new_y =
        let e = push_recent-eq laws y xs w new_y in
        let absent : has_sequence js x.sequence (push_recent js y xs) ≡ false = rw e (
          has-take js 40 x.sequence (insert_sorted (behind js) y xs)
            (has-insert_sorted_other js x.sequence y xs ne new_x)) in
        push_recent-eq laws x (push_recent js y xs) (push_recent-IsTimeline laws y xs fy w) absent
        ∙ rw e (take-insert_sorted-take js 40 x (insert_sorted (behind js) y xs))

  -- Two events with different finite sequence numbers give the same window of recent events in
  -- whichever order they arrive, whether or not the window, which is newest first without
  -- repetition, holds one of them already.
  pub push_recent_comm :
      (x y : TimelineEventViewModel N) (xs : List (TimelineEventViewModel N))
      → IsFinite js x
      → IsFinite js y
      → IsTimeline js xs
      → js.same x.sequence y.sequence ≡ false
      → push_recent js x (push_recent js y xs) ≡ push_recent js y (push_recent js x xs)
  push_recent_comm x y xs fx fy w ne = elim (Bool-cases (has_sequence js x.sequence xs)) [
    | inl old_x ↦ elim (Bool-cases (has_sequence js y.sequence xs)) [
      | inl old_y ↦
          rw (push_recent_of_old laws y xs old_y, push_recent_of_old laws x xs old_x)
            (sym (push_recent_of_old laws y xs old_y))
      | inr new_y ↦
          push_recent_absorb x y xs fx fy w old_x new_y
          ∙ rw (push_recent_of_old laws x xs old_x) refl
    ]
    | inr new_x ↦ elim (Bool-cases (has_sequence js y.sequence xs)) [
      | inl old_y ↦
          rw (push_recent_of_old laws y xs old_y)
            (sym (push_recent_absorb y x xs fy fx w old_y new_x))
      | inr new_y ↦
          push_recent_both x y xs fx fy w ne' new_x new_y
          ∙ ap (take 40) (insert_sorted_comm x y xs fx fy w.finite ne ne' new_x new_y)
          ∙ sym (push_recent_both y x xs fy fx w ne new_y new_x)
    ]
  ]
    where
      ne' : js.same y.sequence x.sequence ≡ false
      ne' = elim (Bool-cases (js.same y.sequence x.sequence)) [
        | inl same ↦ cc (laws.same_symm y.sequence x.sequence same)
        | inr other ↦ other
      ]
