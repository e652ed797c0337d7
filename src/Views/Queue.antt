-- ===== src/Views/Queue.antt =====
-- packages/promotion-ui/src/views/overview.tsx: what the queue of the overview shows.
use mathlib.Core.List.{Perm}
use mathlib.Core.Path.{subst}
use agent_promotion_control.Prelude.{
  ℕ, zero, suc, ◌≤◌, ◌≡◌, refl, ap, sym, true, false, String, Bool, List, [], ◌∷◌, ◌++◌, All, arith,
  length, take, length-take-le, ltb, nat_eq, ◌||◌, ◌&&◌, ◌⊎◌, inl, inr, ◌==◌, eq_iff, Bool-cases,
  if◌then◌else◌,
}
use agent_promotion_control.Js.{sort}
use agent_promotion_control.Js.Sorting.{IsOrderedBy, sort-perm, sort-IsOrderedBy}
use agent_promotion_control.View.{CandidateViewModel}
use agent_promotion_control.Views.{priority, queue_after, queue}

module _ {ℓ} {A : Type ℓ} where
  abbrev pub drop : ℕ → List A → List A
  drop zero xs = xs
  drop (suc n) [] = []
  drop (suc n) (x ∷ xs) = drop n xs

  take-drop : (n : ℕ) (xs : List A) → take n xs ++ drop n xs ≡ xs
  take-drop zero xs = refl
  take-drop (suc n) [] = refl
  take-drop (suc n) (x ∷ xs) = ap (◌∷◌ x) (take-drop n xs)

  module _ {κ} (P : A → Type κ) where
    All-take : (n : ℕ) (xs : List A) → All P xs → All P (take n xs)
    All-take zero xs h = tt
    All-take (suc n) [] h = tt
    All-take (suc n) (x ∷ xs) (p, h) = (p, All-take n xs h)

    All-drop : (n : ℕ) (xs : List A) → All P xs → All P (drop n xs)
    All-drop zero xs h = h
    All-drop (suc n) [] h = tt
    All-drop (suc n) (x ∷ xs) (p, h) = All-drop n xs h

    all_hold : (xs : List A) → ((x : A) → P x) → All P xs
    all_hold [] h = tt
    all_hold (x ∷ xs) h = (h x, all_hold xs h)

  module _ {κ} (le : A → A → Type κ) where
    IsOrderedBy-take :
        (n : ℕ) (xs : List A)
        → IsOrderedBy le xs
        → IsOrderedBy le (take n xs) × All (λ x. All (le x) (drop n xs)) (take n xs)
    IsOrderedBy-take zero xs h = (tt, tt)
    IsOrderedBy-take (suc n) [] h = (tt, tt)
    IsOrderedBy-take (suc n) (x ∷ xs) (low, h) =
        let (ordered, below) = IsOrderedBy-take n xs h in
        ((All-take (le x) n xs low, ordered), (All-drop (le x) n xs low, below))

first :
    (blocked pending other : Bool)
    → (if blocked then 0 else if pending then 1 else 2)
      ≤ (if true then 0 else if other then 1 else 2)
    → blocked ≡ true
first blocked pending other h = ground arith

second :
    (other pending : Bool)
    → (if false then 0 else if pending then 1 else 2) ≤ (if other then 0 else if true then 1 else 2)
    → pending ≡ true
second other pending h = ground arith

module _ {N : Type 0} where
  -- `a` is at least as urgent as `b`: what is blocked comes first, then what is pending.
  abbrev pub IsAhead : CandidateViewModel N → CandidateViewModel N → Type 0
  IsAhead a b =
      (b.status ≡ "BLOCKED" → a.status ≡ "BLOCKED")
      × (b.status ≡ "PROMOTION_PENDING" → (a.status ≡ "BLOCKED") ⊎ (a.status ≡ "PROMOTION_PENDING"))

  priority-IsAhead : (a b : CandidateViewModel N) → priority a ≤ priority b → IsAhead a b
  priority-IsAhead a b h = (
    λ blocked. (eq_iff a.status "BLOCKED").0 (
        first (a.status == "BLOCKED") (a.status == "PROMOTION_PENDING")
          (b.status == "PROMOTION_PENDING") (rw ((eq_iff b.status "BLOCKED").1 blocked) at h)),
    λ pending. elim (Bool-cases (a.status == "BLOCKED")) [
      | inl blocked ↦ inl ((eq_iff a.status "BLOCKED").0 blocked)
      | inr other ↦ inr (
          (eq_iff a.status "PROMOTION_PENDING").0 (
            second (b.status == "BLOCKED") (a.status == "PROMOTION_PENDING")
              (rw (other, (eq_iff b.status "PROMOTION_PENDING").1 pending) at h)))
    ],
  )

  IsAhead-trans : (a b c : CandidateViewModel N) → IsAhead a b → IsAhead b c → IsAhead a c
  IsAhead-trans a b c (blocked, pending) (blocked', pending') = (
    λ h. blocked (blocked' h),
    λ h. elim (pending' h) [ inl first ↦ inl (blocked first) | inr second ↦ pending second ],
  )

  module _ (locale_after : String → String → Bool) where
    sorted-IsOrderedBy :
        (cs : List (CandidateViewModel N))
        → IsOrderedBy IsAhead (sort (queue_after locale_after) cs)
    sorted-IsOrderedBy cs =
        sort-IsOrderedBy (queue_after locale_after) (λ c. Unit {0}) IsAhead
          (λ a b _ _ h. priority-IsAhead b a (later (priority a) (priority b) _ h))
          (λ a b _ _ h. priority-IsAhead a b (not_later (priority a) (priority b) _ h))
          (λ a b c _ _ _ h k. IsAhead-trans a b c h k) cs (all_hold (λ c. Unit {0}) cs (λ c. tt))
      where
        later : (m n : ℕ) (tie : Bool) → (ltb n m || (nat_eq m n && tie)) ≡ true → n ≤ m
        later m n tie h = ground arith

        not_later : (m n : ℕ) (tie : Bool) → (ltb n m || (nat_eq m n && tie)) ≡ false → m ≤ n
        not_later m n tie h = ground arith

    -- The queue shows at most six candidates, blocked ones first, then those whose promotion is
    -- pending, then the others; it is, with the candidates that it does not show, a rearrangement of
    -- all of them; and none that it does not show is more urgent than one that it shows.
    pub queue-IsUrgent :
        (cs : List (CandidateViewModel N))
        → (length (queue locale_after cs) ≤ 6)
          × IsOrderedBy IsAhead (queue locale_after cs)
          × ((hidden : List (CandidateViewModel N)) × Perm (queue locale_after cs ++ hidden) cs
              × All (λ c. All (IsAhead c) hidden) (queue locale_after cs))
    unfolding queue
    queue-IsUrgent cs =
        let sorted = sort (queue_after locale_after) cs in
        let (ordered, below) = IsOrderedBy-take IsAhead 6 sorted (sorted-IsOrderedBy cs) in
        (
          length-take-le 6 sorted,
          ordered,
          (
            drop 6 sorted,
            subst (λ xs. Perm xs cs) (sym (take-drop 6 sorted))
                (sort-perm (queue_after locale_after) cs),
            below,
          ),
        )
