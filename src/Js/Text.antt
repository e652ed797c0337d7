-- ===== src/Js/Text.antt =====
-- The string methods of the source, over the characters of a text.
use Prim.Native.Char.{Char, code}
use Prim.Native.String
use Prim.Native.String.{[], ◌∷◌}
use text.Mathlib.Text.{starts_with}
use agent_promotion_control.Prelude.{
  ℕ, ◌+◌, ◌-◌, ◌/◌, ◌%◌, zero, suc, Option, none, some, true, false, String, Bool, ◌&&◌, ◌||◌, List,
  [], ◌∷◌, ltb, leb, nat_eq, ◌==◌, if◌then◌else◌,
}

-- `a + b`.
infixr 65 ◌^^◌
unfoldable pub ◌^^◌ : String → String → String
s ^^ t = String.◌++◌ s t

-- `a || b` on texts.
abbrev pub text_or : String → String → String
text_or s d = if s == "" then d else s

abbrev pub is_char : ℕ → Char → Bool
is_char n c = nat_eq (code c) n

abbrev pub cons_part : Char → List String → List String
cons_part c [] = (c ∷ []) ∷ []
cons_part c (s ∷ rest) = (c ∷ s) ∷ rest

-- `text.split(separator)` at one separating character.
unfoldable pub split : ℕ → String → List String
split sep [] = "" ∷ []
split sep (c ∷ s) = let rest = split sep s in if is_char sep c then "" ∷ rest else cons_part c rest

-- `parts.join(glue)`.
unfoldable pub join : String → List String → String
join glue [] = ""
join glue (s ∷ []) = s
join glue (s ∷ t ∷ rest) = s ^^ glue ^^ join glue (t ∷ rest)

-- `parts.filter(Boolean)` on texts.
unfoldable pub non_empty : List String → List String
non_empty [] = []
non_empty (s ∷ rest) = let kept = non_empty rest in if s == "" then kept else s ∷ kept

-- `text.replaceAll(a, b)` for single characters.
unfoldable pub replace_all : ℕ → Char → String → String
replace_all from to [] = []
replace_all from to (c ∷ s) = (if is_char from c then to else c) ∷ replace_all from to s

-- `text.includes(part)`.
unfoldable pub includes : String → String → Bool
includes [] part = part == ""
includes (c ∷ s) part = starts_with (c ∷ s) part || includes s part

-- The white space that `trim` removes.
unfoldable pub is_space : ℕ → Bool
is_space c =
    (leb 9 c && leb c 13)
    || nat_eq c 32
    || nat_eq c 160
    || nat_eq c 0x1680
    || (leb 0x2000 c && leb c 0x200a)
    || nat_eq c 0x2028
    || nat_eq c 0x2029
    || nat_eq c 0x202f
    || nat_eq c 0x205f
    || nat_eq c 0x3000
    || nat_eq c 0xfeff

unfoldable pub trim_start : String → String
trim_start [] = []
trim_start (c ∷ s) = if is_space (code c) then trim_start s else c ∷ s

-- Drops the white space at the end: a space stays if something after it does.
unfoldable pub trim_end : String → String
trim_end [] = []
trim_end (c ∷ s) = let t = trim_end s in if is_space (code c) && t == "" then [] else c ∷ t

unfoldable pub trim : String → String
unfolding is_space trim_start trim_end
trim s = trim_end (trim_start s)

-- `text.length`, which counts UTF-16 units.
unfoldable pub utf16_length : String → ℕ
utf16_length [] = 0
utf16_length (c ∷ s) = (if ltb (code c) 0x10000 then 1 else 2) + utf16_length s

-- `text.startsWith(start) ? text.slice(start.length)`.
unfoldable pub after_prefix : String → String → Option String
after_prefix [] s = some s
after_prefix (c ∷ start) [] = none
after_prefix (c ∷ start) (d ∷ s) =
    let rest = after_prefix start s in if nat_eq (code c) (code d) then rest else none

-- The UTF-16 units, by which `sort` without a comparator orders texts.
unfoldable pub code_units : String → List ℕ
code_units [] = []
code_units (c ∷ s) =
    let rest = code_units s in
    if ltb (code c) 0x10000
    then code c ∷ rest
    else (0xd800 + (code c - 0x10000) / 0x400) ∷ (0xdc00 + (code c - 0x10000) % 0x400) ∷ rest

unfoldable pub units_after : List ℕ → List ℕ → Bool
units_after [] ns = false
units_after (m ∷ ms) [] = true
units_after (m ∷ ms) (n ∷ ns) = let later = units_after ms ns in ltb n m || (nat_eq m n && later)

-- `a` goes behind `b`.
unfoldable pub text_after : String → String → Bool
unfolding code_units units_after
text_after a b = units_after (code_units a) (code_units b)

-- `text.padStart(2, "0")`.
unfoldable pub pad_two : String → String
unfolding utf16_length
pad_two s = if ltb (utf16_length s) 1 then "00" else if ltb (utf16_length s) 2 then "0" ^^ s else s

-- `text.slice(0, n)`, for a text whose characters are single UTF-16 units.
unfoldable pub slice_to : ℕ → String → String
slice_to zero s = []
slice_to (suc n) [] = []
slice_to (suc n) (c ∷ s) = c ∷ slice_to n s
