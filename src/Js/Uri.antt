-- ===== src/Js/Uri.antt =====
-- `encodeURIComponent`: the unreserved characters stand for themselves, every other character is
-- written as the bytes of its UTF-8 form. (The characters of a text are scalar values here, so the
-- error that the runtime raises for half of a surrogate pair does not arise.)
use Prim.Native.Char.{code}
use Prim.Native.String.{[], ◌∷◌}
use agent_promotion_control.Prelude.{
  ℕ, zero, suc, ◌+◌, ◌/◌, ◌%◌, String, Bool, ◌&&◌, ◌||◌, List, [], ◌∷◌, ltb, leb, nat_eq,
  if◌then◌else◌,
}
use agent_promotion_control.Js.Text.{◌^^◌}

unfoldable pub is_unreserved : ℕ → Bool
is_unreserved c =
    (leb b'A' c && leb c b'Z')
    || (leb b'a' c && leb c b'z')
    || (leb b'0' c && leb c b'9')
    || nat_eq c b'-'
    || nat_eq c b'_'
    || nat_eq c b'.'
    || nat_eq c b'!'
    || nat_eq c b'~'
    || nat_eq c b'*'
    || nat_eq c 39
    || nat_eq c b'('
    || nat_eq c b')'

unfoldable pub utf8 : ℕ → List ℕ
utf8 c =
    if ltb c 0x80
    then c ∷ []
    else if ltb c 0x800
    then (0xc0 + c / 0x40) ∷ (0x80 + c % 0x40) ∷ []
    else if ltb c 0x10000
    then (0xe0 + c / 0x1000) ∷ (0x80 + c / 0x40 % 0x40) ∷ (0x80 + c % 0x40) ∷ []
    else (0xf0 + c / 0x40000)
      ∷ (0x80 + c / 0x1000 % 0x40)
      ∷ (0x80 + c / 0x40 % 0x40)
      ∷ (0x80 + c % 0x40)
      ∷ []

unfoldable pub digit_at : String → ℕ → String
digit_at [] n = ""
digit_at (c ∷ s) zero = c ∷ []
digit_at (c ∷ s) (suc n) = digit_at s n

-- The hexadecimal digits, in upper case.
unfoldable pub hex_digit : ℕ → String
unfolding digit_at
hex_digit = digit_at "0123456789ABCDEF"

unfoldable pub percent : List ℕ → String
unfolding hex_digit
percent [] = ""
percent (b ∷ bs) = "%" ^^ hex_digit (b / 16) ^^ hex_digit (b % 16) ^^ percent bs

unfoldable pub encode_uri_component : String → String
unfolding is_unreserved utf8 percent
encode_uri_component [] = []
encode_uri_component (c ∷ s) =
    let rest = encode_uri_component s in
    if is_unreserved (code c) then c ∷ rest else percent (utf8 (code c)) ^^ rest

-- The characters that `URLSearchParams` leaves as they are.
unfoldable pub is_form_plain : ℕ → Bool
is_form_plain c =
    (leb b'A' c && leb c b'Z')
    || (leb b'a' c && leb c b'z')
    || (leb b'0' c && leb c b'9')
    || nat_eq c b'*'
    || nat_eq c b'-'
    || nat_eq c b'.'
    || nat_eq c b'_'

-- A value of `URLSearchParams.toString()`, with `+` for a space.
unfoldable pub form_encode : String → String
unfolding is_form_plain utf8 percent
form_encode [] = []
form_encode (c ∷ s) =
    let rest = form_encode s in
    if is_form_plain (code c)
    then c ∷ rest
    else if nat_eq (code c) b' '
    then "+" ^^ rest
    else percent (utf8 (code c)) ^^ rest
