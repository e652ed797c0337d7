-- ===== src/Examples/Machine.antt =====
-- A runtime that computes: whole numbers for the doubles, ASCII for the case tables.
use Prim.Native.Char.{Char, code}
use Prim.Native.Nat.{max}
use Prim.Native.String.{[], ◌∷◌}
use agent_promotion_control.Prelude.{
  ℕ, zero, suc, ◌+◌, ◌-◌, ◌*◌, ◌/◌, ◌%◌, String, true, ◌&&◌, ltb, leb, nat_eq, arith, if◌then◌else◌,
}
use agent_promotion_control.Js.{Runtime, IsOrdered}

abbrev letter : String → ℕ → Char → Char
letter [] n d = d
letter (c ∷ s) zero d = c
letter (c ∷ s) (suc n) d = letter s n d

abbrev lower_char : Char → Char
lower_char c =
    if leb b'A' (code c) && leb (code c) b'Z'
    then letter "abcdefghijklmnopqrstuvwxyz" (code c - b'A') c
    else c

abbrev upper_char : Char → Char
upper_char c =
    if leb b'a' (code c) && leb (code c) b'z'
    then letter "ABCDEFGHIJKLMNOPQRSTUVWXYZ" (code c - b'a') c
    else c

abbrev map_text : (Char → Char) → String → String
map_text f [] = []
map_text f (c ∷ s) = f c ∷ map_text f s

abbrev decimal : ℕ → String → ℕ
decimal acc [] = acc
decimal acc (c ∷ s) = decimal (acc * 10 + (code c - b'0')) s

abbrev digit : ℕ → Char
digit d = letter "0123456789" d "0"

-- The decimal digits, on fuel.
print_from : ℕ → ℕ → String → String
print_from zero n acc = acc
print_from (suc fuel) n acc =
    let rest = print_from fuel (n / 10) (digit (n % 10) ∷ acc) in
    if ltb n 10 then digit n ∷ acc else rest

unfoldable pub print : ℕ → String
unfolding print_from
print n = print_from (suc n) n ""

abbrev pub machine : Runtime ℕ
machine = record {
  is_finite = λ a. true;
  gt = λ a b. ltb b a;
  same = nat_eq;
  plus = ◌+◌;
  minus = ◌-◌;
  over = ◌/◌;
  round = λ a. a;
  larger = max;
  of_nat = λ n. n;
  of_text = decimal 0;
  to_text = print;
  of_date = decimal 0;
  to_fixed = print;
  to_lower_case = map_text lower_char;
  to_upper_case = map_text upper_char;
  stringify = λ value. "";
}

pub machine-IsOrdered : IsOrdered ℕ machine
machine-IsOrdered = record {
  same_refl = λ a h. ground arith;
  same_symm = λ a b h. ground arith;
  gt_irrefl = λ a b h. ground arith;
  gt_congr = λ a b c h. ground arith;
  gt_trans = λ a b c h k. ground arith;
  gt_total = λ a b h k p q. ground arith;
  minus_pos = λ a b h k. ground arith;
}
