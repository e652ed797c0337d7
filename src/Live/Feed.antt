-- ===== src/Live/Feed.antt =====
-- packages/promotion-ui/src/live.ts: the window of recent events and a candidate's timeline stay
-- ordered, free of duplicates and bounded, and a redelivered event leaves them alone.
use agent_promotion_control.Prelude.{
  ℕ, zero, suc, ◌≤◌, ◌≡◌, refl, ap, ◌∙◌, inl, inr, true, false, List, [], ◌∷◌, arith, length,
  length-take-le, take, Bool-cases,
}
use agent_promotion_control.Js.{Runtime, IsOrdered, insert_sorted, sort}
use agent_promotion_control.View.{TimelineEventViewModel}
use agent_promotion_control.Live.Apply.{behind, has_sequence, push_recent, push_timeline}
use agent_promotion_control.Live.Window.{
  IsFinite, IsTimeline, sort-eq, sort-IsTimeline, take-IsTimeline,
}

module _ {N : Type 0} (js : Runtime N) where
  any-insert_sorted :
      (x : TimelineEventViewModel N) (xs : List (TimelineEventViewModel N))
      → js.same x.sequence x.sequence ≡ true
      → has_sequence js x.sequence (insert_sorted (behind js) x xs) ≡ true
  unfolding insert_sorted
  any-insert_sorted x [] same = ground arith
  any-insert_sorted x (y ∷ ys) same = ground (arith, any-insert_sorted x ys same)

  -- A candidate's timeline takes a redelivered event once.
  pub push_timeline_idem :
      (x : TimelineEventViewModel N) (xs : List (TimelineEventViewModel N))
      → js.same x.sequence x.sequence ≡ true
      → push_timeline js x (push_timeline js x xs) ≡ push_timeline js x xs
  unfolding push_timeline sort
  push_timeline_idem x xs same = elim (Bool-cases (has_sequence js x.sequence xs)) [
    | inl old ↦ rw (old, old)
    | inr new ↦ rw (new, any-insert_sorted x (sort (behind js) xs) same)
  ]

  -- An insertion into a cut list, cut again, is the insertion into the whole list, cut.
  pub take-insert_sorted-take :
      (n : ℕ) (x : TimelineEventViewModel N) (xs : List (TimelineEventViewModel N))
      → take n (insert_sorted (behind js) x (take n xs)) ≡ take n (insert_sorted (behind js) x xs)
  unfolding insert_sorted
  take-insert_sorted-take zero x xs = refl
  take-insert_sorted-take (suc n) x [] = refl
  take-insert_sorted-take (suc n) x (y ∷ ys) = elim (Bool-cases (behind js x y)) [
    | inl later ↦ rw later (ap (◌∷◌ y) (take-insert_sorted-take n x ys))
    | inr first ↦ rw first (ap (◌∷◌ x) (take-cons n y ys))
  ]
    where
      take-cons :
          (n : ℕ) (y : TimelineEventViewModel N) (ys : List (TimelineEventViewModel N))
          → take n (y ∷ take n ys) ≡ take n (y ∷ ys)
      take-cons zero y ys = refl
      take-cons (suc n) y ys = ap (◌∷◌ y) (take_take n ys)
        where
          take_take :
              (n : ℕ) (ys : List (TimelineEventViewModel N)) → take n (take (suc n) ys) ≡ take n ys
          take_take zero ys = refl
          take_take (suc n) [] = refl
          take_take (suc n) (z ∷ zs) = ap (◌∷◌ z) (take_take n zs)

  -- If the new event falls out of the window, the window is as it was.
  take-insert_sorted :
      (n : ℕ) (x : TimelineEventViewModel N) (xs : List (TimelineEventViewModel N))
      → js.same x.sequence x.sequence ≡ true
      → has_sequence js x.sequence (take n (insert_sorted (behind js) x xs)) ≡ false
      → take n (insert_sorted (behind js) x xs) ≡ take n xs
  unfolding insert_sorted
  take-insert_sorted zero x xs same out = refl
  take-insert_sorted (suc n) x [] same out = ground arith
  take-insert_sorted (suc n) x (y ∷ ys) same out = ground (arith, take-insert_sorted n x ys same)

  -- A window that is within a bound of 40 or more stays within it.
  pub length-push_recent-le :
      (n : ℕ) (x : TimelineEventViewModel N) (xs : List (TimelineEventViewModel N))
      → 40 ≤ n
      → length xs ≤ n
      → length (push_recent js x xs) ≤ n
  unfolding push_recent
  length-push_recent-le n x xs wide short =
      ground (arith, length-take-le 40 (sort (behind js) (x ∷ xs)))

module _ {N : Type 0} {js : Runtime N} (laws : IsOrdered N js) where
  pub push_recent-IsTimeline :
      (x : TimelineEventViewModel N) (xs : List (TimelineEventViewModel N))
      → IsFinite js x
      → IsTimeline js xs
      → IsTimeline js (push_recent js x xs)
  unfolding push_recent
  push_recent-IsTimeline x xs fx t = elim (Bool-cases (has_sequence js x.sequence xs)) [
    | inl old ↦ rw old t
    | inr new ↦ rw new (take-IsTimeline laws 40 _ (sort-IsTimeline laws x xs fx new t))
  ]

  pub push_timeline-IsTimeline :
      (x : TimelineEventViewModel N) (xs : List (TimelineEventViewModel N))
      → IsFinite js x
      → IsTimeline js xs
      → IsTimeline js (push_timeline js x xs)
  unfolding push_timeline
  push_timeline-IsTimeline x xs fx t = elim (Bool-cases (has_sequence js x.sequence xs)) [
    | inl old ↦ rw old t
    | inr new ↦ rw new (sort-IsTimeline laws x xs fx new t)
  ]

  -- `push_recent` of an event that is not in the window, by one insertion.
  pub push_recent-eq :
      (x : TimelineEventViewModel N) (xs : List (TimelineEventViewModel N))
      → IsTimeline js xs
      → has_sequence js x.sequence xs ≡ false
      → push_recent js x xs ≡ take 40 (insert_sorted (behind js) x xs)
  unfolding push_recent sort
  push_recent-eq x xs t new = rw (new, sort-eq laws xs t)

  pub push_recent_of_old :
      (x : TimelineEventViewModel N) (xs : List (TimelineEventViewModel N))
      → has_sequence js x.sequence xs ≡ true
      → push_recent js x xs ≡ xs
  unfolding push_recent
  push_recent_of_old x xs old = rw old

  -- A redelivered event changes nothing, also where it is too old for the window.
  pub push_recent_idem :
      (x : TimelineEventViewModel N) (xs : List (TimelineEventViewModel N))
      → IsFinite js x
      → IsTimeline js xs
      → push_recent js x (push_recent js x xs) ≡ push_recent js x xs
  push_recent_idem x xs fx t = elim (Bool-cases (has_sequence js x.sequence xs)) [
    | inl old ↦ rw (push_recent_of_old x xs old) (push_recent_of_old x xs old)
    | inr new ↦ elim (Bool-cases (has_sequence js x.sequence (push_recent js x xs))) [
      | inl kept ↦ push_recent_of_old x (push_recent js x xs) kept
      | inr cut ↦
          let e = push_recent-eq x xs t new in
          let out = rw e at cut in
          push_recent-eq x (push_recent js x xs) (push_recent-IsTimeline x xs fx t) cut
          ∙ rw e (
              ap (λ ys. take 40 (insert_sorted (behind js) x ys))
                (take-insert_sorted js 40 x xs (laws.same_refl x.sequence fx) out)
              ∙ take-insert_sorted-take js 40 x xs)
    ]
  ]
