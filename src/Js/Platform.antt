-- ===== src/Js/Platform.antt =====
-- What the code takes from its runtime without looking inside: the arithmetic of doubles, the
-- Unicode case tables, and the printing and reading of numbers, dates and JSON.
use agent_promotion_control.Prelude.{ℕ, String, Bool, true, false, ◌≡◌}
use agent_promotion_control.Js.Json.{Value}

pub record Runtime (N : Type 0) : Type 0 where
  -- `Number.isFinite`.
  pub is_finite : N → Bool
  -- `a > b` and `a === b`.
  pub gt : N → N → Bool
  pub same : N → N → Bool
  pub plus : N → N → N
  pub minus : N → N → N
  pub over : N → N → N
  -- `Math.round` and `Math.max`.
  pub round : N → N
  pub larger : N → N → N
  -- A numeral of the source.
  pub of_nat : ℕ → N
  -- `Number(text)`, which may be NaN, and `String(number)`.
  pub of_text : String → N
  pub to_text : N → String
  -- `new Date(text).valueOf()`.
  pub of_date : String → N
  -- `toFixed(1)`.
  pub to_fixed : N → String
  pub to_lower_case : String → String
  pub to_upper_case : String → String
  -- `JSON.stringify`.
  pub stringify : Value N → String

-- The documented behaviour of finite doubles that the ordering of events by their sequence rests on:
-- `===` is reflexive and symmetric, `>` is a strict order that is total up to `===`, and the sign of
-- a difference tells the order.
pub record IsOrdered (N : Type 0) (js : Runtime N) : Type 0 where
  pub same_refl : (a : N) → js.is_finite a ≡ true → js.same a a ≡ true
  pub same_symm : (a b : N) → js.same a b ≡ true → js.same b a ≡ true
  pub gt_irrefl : (a b : N) → js.same a b ≡ true → js.gt a b ≡ false
  pub gt_congr : (a b c : N) → js.same b c ≡ true → js.gt a b ≡ js.gt a c
  pub gt_trans : (a b c : N) → js.gt a b ≡ true → js.gt b c ≡ true → js.gt a c ≡ true
  pub gt_total :
      (a b : N)
      → js.is_finite a ≡ true
      → js.is_finite b ≡ true
      → js.same a b ≡ false
      → js.gt a b ≡ false
      → js.gt b a ≡ true
  pub minus_pos :
      (a b : N)
      → js.is_finite a ≡ true
      → js.is_finite b ≡ true
      → js.gt (js.minus a b) (js.of_nat 0) ≡ js.gt a b
