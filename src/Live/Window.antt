-- ===== src/Live/Window.antt =====
-- packages/promotion-ui/src/live.ts: the ordered list of recent events. What holds of a list that is
-- strictly descending by finite sequence numbers, and of the stable sort on it.
use agent_promotion_control.Prelude.{
  ℕ, zero, suc, ◌≡◌, refl, sym, ◌∙◌, inl, inr, true, false, List, [], ◌∷◌, arith, take, All,
  All-take, Bool-cases,
}
use agent_promotion_control.Js.{Runtime, IsOrdered, insert_sorted, sort}
use agent_promotion_control.Js.Sorting.{All-insert_sorted}
use agent_promotion_control.View.{TimelineEventViewModel}
use agent_promotion_control.Live.Apply.{behind, has_sequence}

module _ {N : Type 0} (js : Runtime N) where
  abbrev pub IsFinite : TimelineEventViewModel N → Type 0
  IsFinite e = js.is_finite e.sequence ≡ true

  -- `a` is newer than `b`.
  abbrev pub IsNewer : TimelineEventViewModel N → TimelineEventViewModel N → Type 0
  IsNewer a b = js.gt a.sequence b.sequence ≡ true

  abbrev pub IsDescending : List (TimelineEventViewModel N) → Type 0
  IsDescending [] = Unit
  IsDescending (x ∷ xs) = All (IsNewer x) xs × IsDescending xs

  -- Finite sequence numbers, newest first, none twice.
  pub record IsTimeline (events : List (TimelineEventViewModel N)) : Type 0 where
    pub finite : All IsFinite events
    pub descending : IsDescending events

module _ {N : Type 0} {js : Runtime N} (laws : IsOrdered N js) where
  open laws use {same_refl, same_symm, gt_irrefl, gt_trans, gt_total, minus_pos}

  pub gt_asymm : (a b : N) → js.is_finite a ≡ true → js.gt a b ≡ true → js.gt b a ≡ false
  gt_asymm a b fin h = elim (Bool-cases (js.gt b a)) [
    | inl back ↦ cc (gt_trans a b a h back, gt_irrefl a a (same_refl a fin))
    | inr no_back ↦ no_back
  ]

  pub behind-eq :
      (a b : TimelineEventViewModel N)
      → IsFinite js a
      → IsFinite js b
      → behind js a b ≡ js.gt b.sequence a.sequence
  behind-eq a b fa fb = minus_pos b.sequence a.sequence fb fa

  -- What is newer than the head of a descending list is newer than all of it.
  All-IsNewer_trans :
      (x y : TimelineEventViewModel N) (ys : List (TimelineEventViewModel N))
      → IsNewer js x y
      → All (IsNewer js y) ys
      → All (IsNewer js x) ys
  All-IsNewer_trans x y [] h hs = tt
  All-IsNewer_trans x y (z ∷ zs) h (k, hs) =
      (gt_trans x.sequence y.sequence z.sequence h k, All-IsNewer_trans x y zs h hs)

  pub insert_sorted-IsDescending :
      (x : TimelineEventViewModel N) (xs : List (TimelineEventViewModel N))
      → IsFinite js x
      → All (IsFinite js) xs
      → has_sequence js x.sequence xs ≡ false
      → IsDescending js xs
      → IsDescending js (insert_sorted (behind js) x xs)
  unfolding insert_sorted
  insert_sorted-IsDescending x [] fx fs new d = (tt, tt)
  insert_sorted-IsDescending x (y ∷ ys) fx (fy, fs) new (above, d) =
      let same_no : js.same y.sequence x.sequence ≡ false = ground arith in
      let later_no : has_sequence js x.sequence ys ≡ false = ground arith in
      elim (Bool-cases (behind js x y)) [
        | inl later ↦
            let y_newer : IsNewer js y x = sym (behind-eq x y fx fy) ∙ later in
            rw later (
              All-insert_sorted (behind js) (IsNewer js y) x ys y_newer above,
              insert_sorted-IsDescending x ys fx fs later_no d,
            )
        | inr first ↦
            let not_newer : js.gt y.sequence x.sequence ≡ false =
              sym (behind-eq x y fx fy) ∙ first in
            let x_newer : IsNewer js x y = gt_total y.sequence x.sequence fy fx same_no not_newer in
            rw first ((x_newer, All-IsNewer_trans x y ys x_newer above), (above, d))
      ]

  insert_sorted-cons :
      (x : TimelineEventViewModel N) (xs : List (TimelineEventViewModel N))
      → IsFinite js x
      → All (IsFinite js) xs
      → All (IsNewer js x) xs
      → insert_sorted (behind js) x xs ≡ x ∷ xs
  unfolding insert_sorted
  insert_sorted-cons x [] fx fs above = refl
  insert_sorted-cons x (y ∷ ys) fx (fy, fs) (h, above) =
      let first : behind js x y ≡ false =
        behind-eq x y fx fy ∙ gt_asymm x.sequence y.sequence fx h in
      rw first

  -- Sorting a timeline changes nothing.
  pub sort-eq : (xs : List (TimelineEventViewModel N)) → IsTimeline js xs → sort (behind js) xs ≡ xs
  unfolding sort
  sort-eq [] t = refl
  sort-eq (x ∷ xs) t =
      let rest : IsTimeline js xs = record { finite = t.finite.1; descending = t.descending.1 } in
      rw (sort-eq xs rest) (insert_sorted-cons x xs t.finite.0 t.finite.1 t.descending.0)

  pub sort-IsTimeline :
      (x : TimelineEventViewModel N) (xs : List (TimelineEventViewModel N))
      → IsFinite js x
      → has_sequence js x.sequence xs ≡ false
      → IsTimeline js xs
      → IsTimeline js (sort (behind js) (x ∷ xs))
  unfolding sort
  sort-IsTimeline x xs fx new t = rw (sort-eq xs t) (record {
    finite = All-insert_sorted (behind js) (IsFinite js) x xs fx t.finite;
    descending = insert_sorted-IsDescending x xs fx t.finite new t.descending;
  })

  take-IsDescending :
      (n : ℕ) (xs : List (TimelineEventViewModel N))
      → IsDescending js xs
      → IsDescending js (take n xs)
  take-IsDescending zero xs d = tt
  take-IsDescending (suc n) [] d = tt
  take-IsDescending (suc n) (x ∷ xs) (above, d) =
      (All-take (IsNewer js x) n xs above, take-IsDescending n xs d)

  pub take-IsTimeline :
      (n : ℕ) (xs : List (TimelineEventViewModel N)) → IsTimeline js xs → IsTimeline js (take n xs)
  take-IsTimeline n xs t = record {
    finite = All-take (IsFinite js) n xs t.finite;
    descending = take-IsDescending n xs t.descending;
  }
