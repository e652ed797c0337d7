-- ===== src/Markup.antt =====
-- What the components and the views of packages/promotion-ui/src return: the tree of elements that
-- the rendering library is given. An event handler stands for the call that it makes, none if its
-- own test keeps it from calling anything. `key` and `ref` are left out, which only the rendering
-- library reads.
pub mod Outline
pub mod Quiet
pub mod Marks
pub mod Sound
use agent_promotion_control.Prelude.{
  ℕ, String, Bool, Option, none, some, List, [], ◌∷◌, map, map_index, if◌then◌else◌,
}

pub data Attribute (E : Type 0) : Type 0 where
  class_name : String → Attribute E
  identifier : String → Attribute E
  labelled_by : String → Attribute E
  href : String → Attribute E
  disabled : Bool → Attribute E
  named : (name : String) → (value : String) → Attribute E
  flag : (name : String) → Bool → Attribute E
  on_press : Option E → Attribute E
  on_change : (String → E) → Attribute E

mutual
  pub data Node (E : Type 0) : Type 0 where
    text : String → Node E
    element : (tag : String) → List (Attribute E) → Nodes E → Node E
    fragment : Nodes E → Node E

  pub data Nodes (E : Type 0) : Type 0 where
    no_nodes : Nodes E
    more_nodes : Node E → Nodes E → Nodes E

module _ {E : Type 0} where
  abbrev pub nodes : List (Node E) → Nodes E
  nodes [] = no_nodes
  nodes (n ∷ ns) = more_nodes n (nodes ns)

  -- `null` in the place of a child.
  abbrev pub nothing : Node E
  nothing = fragment no_nodes

  -- An element with its attributes, with a class only, with none, and with none around a text.
  abbrev pub el : String → List (Attribute E) → List (Node E) → Node E
  el tag attributes children = element tag attributes (nodes children)

  abbrev pub styled : String → String → List (Node E) → Node E
  styled tag class children = el tag (class_name class ∷ []) children

  abbrev pub plain : String → List (Node E) → Node E
  plain tag children = el tag [] children

  abbrev pub line : String → String → Node E
  line tag s = plain tag (text s ∷ [])

  abbrev pub styled_line : String → String → String → Node E
  styled_line tag class s = styled tag class (text s ∷ [])

  -- `condition ? child : null`, and the same of a value that may be missing.
  abbrev pub when : Bool → Node E → Node E
  when condition child = if condition then child else nothing

  abbrev pub optional {ℓ} : {A : Type ℓ} → Option A → (A → Node E) → Node E
  optional none child = nothing
  optional (some a) child = child a

  -- `list.map(child)`.
  abbrev pub each {ℓ} : {A : Type ℓ} → List A → (A → Node E) → Node E
  each list child = fragment (nodes (map child list))

  abbrev pub each_index {ℓ} : {A : Type ℓ} → List A → (A → ℕ → Node E) → Node E
  each_index list child = fragment (nodes (map_index child list))

  -- `list.length === 0 ? empty : filled`.
  abbrev pub unless_empty {ℓ} : {A : Type ℓ} → List A → Node E → Node E → Node E
  unless_empty [] empty filled = empty
  unless_empty (x ∷ xs) empty filled = filled

  -- A term with its description.
  abbrev pub fact_of : String → List (Node E) → Node E
  fact_of term description = plain "div" (line "dt" term ∷ plain "dd" description ∷ [])

  abbrev pub fact : String → String → Node E
  fact term description = fact_of term (text description ∷ [])
