-- ===== src/Js/Json.antt =====
-- `unknown` values, as the control-plane API hands them over, and the reads that the code makes.
-- The type of numbers is a parameter: the program stores doubles.
use agent_promotion_control.Prelude.{String, Bool, true, false, List, [], ◌∷◌, ◌==◌, if◌then◌else◌}

mutual
  pub data Value (N : Type 0) : Type 0 where
    undefined null : Value N
    bool : Bool → Value N
    num : N → Value N
    str : String → Value N
    arr : Items N → Value N
    obj : Fields N → Value N

  pub data Items (N : Type 0) : Type 0 where
    nil : Items N
    cons : Value N → Items N → Items N

  pub data Fields (N : Type 0) : Type 0 where
    end : Fields N
    field : String → Value N → Fields N → Fields N

module _ {N : Type 0} where
  abbrev pub elements : Items N → List (Value N)
  elements nil = []
  elements (cons v vs) = v ∷ elements vs

  abbrev pub items_of : List (Value N) → Items N
  items_of [] = nil
  items_of (v ∷ vs) = cons v (items_of vs)

  -- `Object.entries`.
  abbrev pub entries : Fields N → List (String × Value N)
  entries end = []
  entries (field k v fs) = (k, v) ∷ entries fs

  -- `source.key`: a key that is missing reads `undefined`.
  infixl 80 ◌!◌
  abbrev pub ◌!◌ : Fields N → String → Value N
  end ! key = undefined
  field k v fs ! key = if k == key then v else fs ! key

  -- A property of any value but `null` and `undefined`, whose reads throw.
  abbrev pub property : Value N → String → Value N
  property (obj fs) key = fs ! key
  property _ key = undefined

  -- `a ?? b`.
  infixr 20 ◌⁇◌
  abbrev pub ◌⁇◌ : Value N → Value N → Value N
  undefined ⁇ b = b
  null ⁇ b = b
  a ⁇ b = a

  -- `value === null || value === undefined`.
  abbrev pub is_nullish : Value N → Bool
  is_nullish undefined = true
  is_nullish null = true
  is_nullish _ = false

  -- One assignment of `{ ...fields, key: value }`: a key that is there keeps its place.
  abbrev pub assign : String → Value N → Fields N → Fields N
  assign key v end = field key v end
  assign key v (field k w fs) = if k == key then field k v fs else field k w (assign key v fs)

  -- `{ ...base, ...over }`.
  abbrev pub spread : Fields N → Fields N → Fields N
  spread base end = base
  spread base (field k v fs) = spread (assign k v base) fs

  -- `Array.isArray(value) ? value : []`.
  abbrev pub array_or_empty : Value N → List (Value N)
  array_or_empty (arr vs) = elements vs
  array_or_empty _ = []

  abbrev pub is_string : Value N → Bool
  is_string (str s) = true
  is_string _ = false

  -- `value === true`.
  abbrev pub is_true : Value N → Bool
  is_true (bool b) = b
  is_true _ = false

  -- `value === false`.
  abbrev pub is_false : Value N → Bool
  is_false (bool true) = false
  is_false (bool false) = true
  is_false _ = false
