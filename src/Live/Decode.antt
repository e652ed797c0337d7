-- ===== src/Live/Decode.antt =====
-- packages/promotion-ui/src/live.ts: typed reads of an event's payload.
use mathlib.Core.Option
use agent_promotion_control.Prelude.{
  String, Bool, true, false, Option, none, some, List, [], ◌∷◌, ◌or_else◌, ◌==◌, if◌then◌else◌,
}
use agent_promotion_control.Js.{Value, bool, num, str, obj, Fields, end, ◌!◌, Runtime, trim}

module _ {N : Type 0} where
  -- `record`: an object as it is, anything else as the empty object.
  unfoldable pub to_record : Value N → Fields N
  to_record (obj fs) = fs
  to_record _ = end

  abbrev pub as_text : Value N → Option String
  as_text (str s) = some s
  as_text _ = none

  unfoldable pub text : Fields N → String → Option String
  text payload key = as_text (payload ! key)

  abbrev pub as_boolean : Value N → Option Bool
  as_boolean (bool b) = some b
  as_boolean (str s) = if s == "true" then some true else if s == "false" then some false else none
  as_boolean _ = none

  -- The first key with a Boolean, written as such or as a text.
  unfoldable pub boolean : Fields N → List String → Option Bool
  boolean payload [] = none
  boolean payload (key ∷ keys) = as_boolean (payload ! key) or_else boolean payload keys

module _ {N : Type 0} (js : Runtime N) where
  -- A number if it is finite.
  abbrev pub finite : N → Option N
  finite n = if js.is_finite n then some n else none

  unfoldable pub numeric_value : Value N → Option N
  numeric_value (num n) = finite n
  numeric_value (str s) = if trim s == "" then none else finite (js.of_text s)
  numeric_value _ = none

  -- The first key with a number.
  unfoldable pub number : Fields N → List String → Option N
  number payload [] = none
  number payload (key ∷ keys) = numeric_value (payload ! key) or_else number payload keys

  -- A number above 1 counts as a percentage.
  abbrev pub scaled : N → N
  scaled n = if js.gt n (js.of_nat 1) then js.over n (js.of_nat 100) else n

  unfoldable pub ratio : Fields N → List String → Option N
  ratio payload keys = Option.map scaled (number payload keys)
