-- ===== src/Prelude/Options.antt =====
-- Optional values: `??` on them and the default at the end of a chain.
use mathlib.Core.Path.{◌≡◌, refl}
use mathlib.Core.Logic.{◌⊎◌, inl, inr}
use mathlib.Core.Bool.{Bool, true, false}
use mathlib.Core.Option.{Option, none, some}

module _ {ℓ} {A : Type ℓ} where
  infixr 20 ◌or_else◌
  -- `a ?? b` where both sides may be missing.
  abbrev pub ◌or_else◌ : Option A → Option A → Option A
  none or_else b = b
  some a or_else b = some a

  -- `a ?? d` where `d` is there.
  abbrev pub get_or : Option A → A → A
  get_or none d = d
  get_or (some a) d = a

  abbrev pub is_some : Option A → Bool
  is_some none = false
  is_some (some a) = true

  pub Option-cases : (o : Option A) → (o ≡ none) ⊎ ((a : A) × (o ≡ some a))
  Option-cases none = inl refl
  Option-cases (some a) = inr (a, refl)
