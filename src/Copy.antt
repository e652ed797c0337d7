-- ===== src/Copy.antt =====
-- packages/promotion-ui/src/governed-copy.ts: the canonical text of the governed copy.
-- `locale_after a b` is `a.localeCompare(b) > 0`. A key is not a numeral, which the runtime would
-- move to the front of an object.
pub mod Canonical
pub mod Body
use agent_promotion_control.Prelude.{String, Bool, List, [], ◌∷◌}
use agent_promotion_control.Js.{
  Value, undefined, null, bool, num, str, arr, obj, Items, nil, cons, Fields, end, field, Runtime,
  sort,
}

-- `Object.fromEntries` of entries whose keys differ.
abbrev pub from_entries : {N : Type 0} → List (String × Value N) → Fields N
from_entries [] = end
from_entries ((key, child) ∷ rest) = field key child (from_entries rest)

abbrev pub key_after :
    {N : Type 0} → (String → String → Bool) → String × Value N → String × Value N → Bool
key_after locale_after (left, _) (right, _) = locale_after left right

-- `normalize`. The children are normalized before the entries are sorted by their keys, which sorts
-- them alike.
unfoldable mutual
  pub normalize : {N : Type 0} → (String → String → Bool) → Value N → Value N
  normalize locale_after (arr vs) = arr (normalize_items locale_after vs)
  normalize locale_after (obj fs) =
      obj (from_entries (sort (key_after locale_after) (normalize_entries locale_after fs)))
  normalize locale_after input = input

  pub normalize_items : {N : Type 0} → (String → String → Bool) → Items N → Items N
  normalize_items locale_after nil = nil
  normalize_items locale_after (cons v vs) =
      cons (normalize locale_after v) (normalize_items locale_after vs)

  pub normalize_entries :
      {N : Type 0} → (String → String → Bool) → Fields N → List (String × Value N)
  normalize_entries locale_after end = []
  normalize_entries locale_after (field key child fs) =
      (key, normalize locale_after child) ∷ normalize_entries locale_after fs

unfoldable pub canonicalize_governed_copy :
    {N : Type 0} → Runtime N → (String → String → Bool) → Value N → String
unfolding normalize
canonicalize_governed_copy js locale_after value = js.stringify (normalize locale_after value)
