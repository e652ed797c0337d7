-- ===== src/Js/Coerce.antt =====
-- Conversions of unchecked values: truthiness, `String(value)` and `Number(value)`. A conversion of an
-- object throws if the object has a property `toString` of its own, which in JSON is never a function;
-- `prints` is where it does not, and what it gives is `text_of` and `number_of`.
use agent_promotion_control.Prelude.{
  String, Bool, true, false, not, ◌&&◌, ◌||◌, List, [], ◌∷◌, ◌==◌,
}
use agent_promotion_control.Js.Json.{
  Value, undefined, null, bool, num, str, arr, obj, Items, nil, cons, Fields, end, field,
}
use agent_promotion_control.Js.Platform.{Runtime}
use agent_promotion_control.Js.Text.{join}

-- The message of the TypeError that a conversion throws.
abbrev pub cannot_convert : String
cannot_convert = "Cannot convert object to primitive value"

module _ {N : Type 0} where
  -- A property of the object itself.
  unfoldable pub has_own : String → Fields N → Bool
  has_own key end = false
  has_own key (field k v fs) = k == key || has_own key fs

  -- The conversion does not throw. An array's converts its elements.
  unfoldable mutual
    unfolding has_own

    pub prints : Value N → Bool
    prints (obj fs) = not (has_own "toString" fs)
    prints (arr vs) = all_print vs
    prints _ = true

    pub all_print : Items N → Bool
    all_print nil = true
    all_print (cons v vs) = prints v && all_print vs

module _ {N : Type 0} (js : Runtime N) where
  -- The condition of `value ? a : b`: 0 and NaN count as false.
  unfoldable pub is_truthy : Value N → Bool
  is_truthy undefined = false
  is_truthy null = false
  is_truthy (bool b) = b
  is_truthy (num n) = js.same n n && not (js.same n (js.of_nat 0))
  is_truthy (str s) = not (s == "")
  is_truthy (arr vs) = true
  is_truthy (obj fs) = true

  unfoldable mutual
    -- `String(value)`, where it does not throw.
    pub text_of : Value N → String
    text_of undefined = "undefined"
    text_of null = "null"
    text_of (bool true) = "true"
    text_of (bool false) = "false"
    text_of (num n) = js.to_text n
    text_of (str s) = s
    text_of (arr vs) = join "," (texts_of vs)
    text_of (obj fs) = "[object Object]"

    -- The elements of an array, of which `null` and `undefined` print as nothing.
    pub texts_of : Items N → List String
    texts_of nil = []
    texts_of (cons undefined vs) = "" ∷ texts_of vs
    texts_of (cons null vs) = "" ∷ texts_of vs
    texts_of (cons (bool b) vs) = text_of (bool b) ∷ texts_of vs
    texts_of (cons (num n) vs) = text_of (num n) ∷ texts_of vs
    texts_of (cons (str s) vs) = text_of (str s) ∷ texts_of vs
    texts_of (cons (arr ws) vs) = text_of (arr ws) ∷ texts_of vs
    texts_of (cons (obj fs) vs) = text_of (obj fs) ∷ texts_of vs

  -- `Number(value)`, where it does not throw; a text that is no number reads as NaN.
  unfoldable pub number_of : Value N → N
  number_of undefined = js.of_text "undefined"
  number_of null = js.of_nat 0
  number_of (bool true) = js.of_nat 1
  number_of (bool false) = js.of_nat 0
  number_of (num n) = n
  number_of (str s) = js.of_text s
  number_of (arr vs) = js.of_text (text_of (arr vs))
  number_of (obj fs) = js.of_text (text_of (obj fs))
