-- ===== src/Finite/Told.antt =====
-- packages/promotion-ui/src/live.ts: the numbers that are read off a payload.
use mathlib.Core.Option
use agent_promotion_control.Prelude.{
  String, none, some, Option, List, [], ◌∷◌, get_or, ◌or_else◌, ◌==◌, if-either, inl, inr,
  Bool-cases,
}
use agent_promotion_control.Js.{Value, num, str, Fields, Runtime, ◌!◌, trim}
use agent_promotion_control.Live.{finite, scaled, numeric_value, number, ratio, in_either}
use agent_promotion_control.Finite.{KeepsFinite, IsFiniteNumber, IsFiniteOption}

module _ {N : Type 0} (js : Runtime N) where
  pub get_or-IsFinite :
      (o : Option N) (d : N)
      → IsFiniteOption js o
      → IsFiniteNumber js d
      → IsFiniteNumber js (get_or o d)
  get_or-IsFinite none d h k = k
  get_or-IsFinite (some n) d h k = h

  pub or_else-IsFinite :
      (o p : Option N) → IsFiniteOption js o → IsFiniteOption js p → IsFiniteOption js (o or_else p)
  or_else-IsFinite none p h k = k
  or_else-IsFinite (some n) p h k = h

  pub finite-IsFinite : (n : N) → IsFiniteOption js (finite js n)
  finite-IsFinite n = elim (Bool-cases (js.is_finite n)) [
    | inl good ↦ rw good good
    | inr bad ↦ rw bad tt
  ]

  pub numeric_value-IsFinite : (v : Value N) → IsFiniteOption js (numeric_value js v)
  unfolding numeric_value
  numeric_value-IsFinite (num n) = finite-IsFinite n
  numeric_value-IsFinite (str s) =
      if-either (IsFiniteOption js) (trim s == "") (λ blank. tt)
        (λ h. finite-IsFinite (js.of_text s))
  numeric_value-IsFinite _ = tt

  pub number-IsFinite :
      (fields : Fields N) (keys : List String) → IsFiniteOption js (number js fields keys)
  unfolding number
  number-IsFinite fields [] = tt
  number-IsFinite fields (key ∷ keys) =
      or_else-IsFinite _ _ (numeric_value-IsFinite (fields ! key)) (number-IsFinite fields keys)

  -- What an event says in either of two places, or else what was there.
  pub told_number :
      (readiness payload : Fields N) (keys : List String) (d : N)
      → IsFiniteNumber js d
      → IsFiniteNumber js (get_or (in_either js (number js) readiness payload keys) d)
  told_number readiness payload keys d =
      get_or-IsFinite _ d
        (or_else-IsFinite _ _ (number-IsFinite readiness keys) (number-IsFinite payload keys))

module _ {N : Type 0} {js : Runtime N} (laws : KeepsFinite N js) where
  pub scaled-IsFinite :
      (o : Option N) → IsFiniteOption js o → IsFiniteOption js (Option.map (scaled js) o)
  scaled-IsFinite none h = tt
  scaled-IsFinite (some n) h =
      if-either (IsFiniteNumber js) (js.gt n (js.of_nat 1)) (λ percentage. laws.over_finite n h)
        (λ share. h)

  pub ratio-IsFinite :
      (fields : Fields N) (keys : List String) → IsFiniteOption js (ratio js fields keys)
  unfolding ratio
  ratio-IsFinite fields keys = scaled-IsFinite _ (number-IsFinite js fields keys)

  pub told_ratio :
      (readiness payload : Fields N) (keys : List String) (d : N)
      → IsFiniteNumber js d
      → IsFiniteNumber js (get_or (in_either js (ratio js) readiness payload keys) d)
  told_ratio readiness payload keys d =
      get_or-IsFinite js _ d
        (or_else-IsFinite js _ _ (ratio-IsFinite readiness keys) (ratio-IsFinite payload keys))
