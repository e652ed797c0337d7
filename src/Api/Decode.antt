-- ===== src/Api/Decode.antt =====
-- apps/web/src/lib/api.ts: typed reads of an unchecked body, each with its default.
use agent_promotion_control.Prelude.{
  ℕ, String, Bool, Option, none, some, List, [], ◌∷◌, map, length, ◌==◌, if◌then◌else◌,
}
use agent_promotion_control.Js.{
  Value, bool, num, str, arr, obj, Fields, end, elements, ◌!◌, ◌⁇◌, is_nullish, array_or_empty,
  Runtime, non_empty, join, text_or,
}

module _ {N : Type 0} where
  unfoldable pub to_record : Value N → Fields N
  to_record (obj fs) = fs
  to_record _ = end

  unfoldable pub records : Value N → List (Fields N)
  records (arr vs) = map to_record (elements vs)
  records _ = []

  -- `body.items ?? body.results ?? value`.
  unfoldable pub items : Value N → List (Fields N)
  items value = let body = to_record value in records (body ! "items" ⁇ body ! "results" ⁇ value)

  unfoldable pub string : Value N → String → String
  string (str s) fallback = s
  string _ fallback = fallback

  unfoldable pub boolean : Value N → Bool → Bool
  boolean (bool b) fallback = b
  boolean _ fallback = fallback

  -- `typeof value === "boolean" ? value : null`.
  unfoldable pub nullable_boolean : Value N → Option Bool
  nullable_boolean (bool b) = some b
  nullable_boolean _ = none

  unfoldable pub nullable_string : Value N → Option String
  nullable_string (str s) = if s == "" then none else some s
  nullable_string _ = none

  -- `[first, second].filter(Boolean).join(" · ") || fallback`.
  unfoldable pub evaluator_label : Value N → Value N → String → String
  evaluator_label name version fallback =
      text_or (join " · " (non_empty (string name "" ∷ string version "" ∷ []))) fallback

  -- The number of elements of an array, 0 for anything else.
  unfoldable pub array_length : Value N → ℕ
  array_length value = length (array_or_empty value)

module _ {N : Type 0} (js : Runtime N) where
  abbrev pub finite_or : N → N → N
  finite_or n fallback = if js.is_finite n then n else fallback

  -- A finite number, or a text that reads as one; the empty text reads as 0.
  unfoldable pub number : Value N → N → N
  number (num n) fallback = finite_or n fallback
  number (str s) fallback = finite_or (js.of_text s) fallback
  number _ fallback = fallback

  -- `number(value)`.
  unfoldable pub number_or_zero : Value N → N
  unfolding number
  number_or_zero value = number value (js.of_nat 0)

  -- `value === null || value === undefined ? null : number(value)`.
  unfoldable pub nullable_number : Value N → Option N
  unfolding number_or_zero
  nullable_number value = if is_nullish value then none else some (number_or_zero value)

  unfoldable pub ratio : Value N → N → N
  ratio value fallback =
      let parsed = number value fallback in
      if js.gt parsed (js.of_nat 1) then js.over parsed (js.of_nat 100) else parsed
