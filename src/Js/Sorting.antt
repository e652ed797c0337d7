-- ===== src/Js/Sorting.antt =====
-- What the stable sort gives: a rearrangement, in order, and the list itself if that is in order.
use mathlib.Core.List.{Perm}
use mathlib.Core.List.Perm
use agent_promotion_control.Prelude.{
  ◌≡◌, inl, inr, true, false, Bool, List, [], ◌∷◌, All, Bool-cases,
}
use agent_promotion_control.Js.{insert_sorted, sort}

-- Every earlier element stands in the relation to every later one.
abbrev pub IsOrderedBy {ℓ κ} : {A : Type ℓ} → (A → A → Type κ) → List A → Type κ
IsOrderedBy le [] = Unit
IsOrderedBy le (x ∷ xs) = All (le x) xs × IsOrderedBy le xs

pub All-both {ℓ κ μ ν} :
    {A : Type ℓ} (P : A → Type κ) (Q : A → Type μ) (R : A → Type ν) (xs : List A)
    → ((a : A) → P a → Q a → R a)
    → All P xs
    → All Q xs
    → All R xs
All-both P Q R [] f h k = tt
All-both P Q R (x ∷ xs) f (p, h) (q, k) = (f x p q, All-both P Q R xs f h k)

module _ {ℓ} {A : Type ℓ} (behind : A → A → Bool) where
  insert_sorted-perm : (x : A) (xs : List A) → Perm (insert_sorted behind x xs) (x ∷ xs)
  unfolding insert_sorted
  insert_sorted-perm x [] = Perm.rfl
  insert_sorted-perm x (y ∷ ys) = elim (Bool-cases (behind x y)) [
    | inl later ↦ rw later (Perm.trans (Perm.cons y (insert_sorted-perm x ys)) (Perm.swap x y ys))
    | inr first ↦ rw first Perm.rfl
  ]

  pub sort-perm : (xs : List A) → Perm (sort behind xs) xs
  unfolding sort
  sort-perm [] = Perm.rfl
  sort-perm (x ∷ xs) =
      Perm.trans (insert_sorted-perm x (sort behind xs)) (Perm.cons x (sort-perm xs))

  pub All-insert_sorted {κ} :
      (P : A → Type κ) (x : A) (xs : List A) → P x → All P xs → All P (insert_sorted behind x xs)
  unfolding insert_sorted
  All-insert_sorted P x [] p h = (p, tt)
  All-insert_sorted P x (y ∷ ys) p (q, h) = elim (Bool-cases (behind x y)) [
    | inl later ↦ rw later (q, All-insert_sorted P x ys p h)
    | inr first ↦ rw first (p, (q, h))
  ]

  pub All-sort {κ} : (P : A → Type κ) (xs : List A) → All P xs → All P (sort behind xs)
  unfolding sort
  All-sort P [] h = tt
  All-sort P (x ∷ xs) (p, h) = All-insert_sorted P x (sort behind xs) p (All-sort P xs h)

  -- A comparator that agrees with a preorder on the elements of a list sorts it.
  module _ {κ μ} (P : A → Type κ) (le : A → A → Type μ)
      (above : (a b : A) → P a → P b → behind a b ≡ true → le b a)
      (below : (a b : A) → P a → P b → behind a b ≡ false → le a b)
      (trans : (a b c : A) → P a → P b → P c → le a b → le b c → le a c) where
    insert_sorted-IsOrderedBy :
        (x : A) (xs : List A)
        → P x
        → All P xs
        → IsOrderedBy le xs
        → IsOrderedBy le (insert_sorted behind x xs)
    unfolding insert_sorted
    insert_sorted-IsOrderedBy x [] p h o = (tt, tt)
    insert_sorted-IsOrderedBy x (y ∷ ys) p (q, h) (low, o) = elim (Bool-cases (behind x y)) [
      | inl later ↦ rw later (
        All-insert_sorted (le y) x ys (above x y p q later) low,
        insert_sorted-IsOrderedBy x ys p h o,
      )
      | inr first ↦
          let first_le = below x y p q first in
          rw first (
            (
              first_le,
              All-both P (le y) (le x) ys (λ a pa low_a. trans x y a p q pa first_le low_a) h low,
            ),
            (low, o),
          )
    ]

    pub sort-IsOrderedBy : (xs : List A) → All P xs → IsOrderedBy le (sort behind xs)
    unfolding sort
    sort-IsOrderedBy [] h = tt
    sort-IsOrderedBy (x ∷ xs) (p, h) =
        insert_sorted-IsOrderedBy x (sort behind xs) p (All-sort P xs h) (sort-IsOrderedBy xs h)
