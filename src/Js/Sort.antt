-- ===== src/Js/Sort.antt =====
-- `Array.prototype.sort` with a comparator: the stable sort. `behind a b` says that the comparator
-- is positive at `(a, b)`, so that `a` goes behind `b`; the result is the one that the standard
-- fixes for a consistent comparator.
use agent_promotion_control.Prelude.{Bool, List, [], ◌∷◌, if◌then◌else◌}

module _ {ℓ} {A : Type ℓ} (behind : A → A → Bool) where
  unfoldable pub insert_sorted : A → List A → List A
  insert_sorted x [] = x ∷ []
  insert_sorted x (y ∷ ys) =
      let rest = insert_sorted x ys in if behind x y then y ∷ rest else x ∷ y ∷ ys

  unfoldable pub sort : List A → List A
  sort [] = []
  sort (x ∷ xs) = insert_sorted x (sort xs)
