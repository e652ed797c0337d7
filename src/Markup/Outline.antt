-- ===== src/Markup/Outline.antt =====
-- What a user can do with a tree of elements, in document order: its main headings, the identifiers
-- that it declares and refers to, its links, and the handlers of its controls that are not disabled.
use agent_promotion_control.Prelude.{
  ◌≡◌, String, Bool, false, some, List, [], ◌∷◌, ◌++◌, ◌==◌, if◌then◌else◌,
}
use agent_promotion_control.Markup.{
  Attribute, identifier, labelled_by, href, disabled, on_press, on_change, Node, text, element,
  fragment, Nodes, no_nodes, more_nodes, nodes,
}

pub data Mark (E : Type 0) : Type 0 where
  main_heading : Mark E
  declared : String → Mark E
  referred : String → Mark E
  link : String → Mark E
  press : E → Mark E
  change : (String → E) → Mark E

module _ {E : Type 0} where
  unfoldable pub is_disabled : List (Attribute E) → Bool
  is_disabled [] = false
  is_disabled (disabled b ∷ rest) = b
  is_disabled (_ ∷ rest) = is_disabled rest

  unfoldable pub attribute_mark : Attribute E → List (Mark E)
  attribute_mark (identifier s) = declared s ∷ []
  attribute_mark (labelled_by s) = referred s ∷ []
  attribute_mark (href s) = link s ∷ []
  attribute_mark (on_press (some e)) = press e ∷ []
  attribute_mark (on_change f) = change f ∷ []
  attribute_mark _ = []

  unfoldable pub attribute_marks : List (Attribute E) → List (Mark E)
  unfolding attribute_mark
  attribute_marks [] = []
  attribute_marks (attribute ∷ rest) = attribute_mark attribute ++ attribute_marks rest

  abbrev tag_marks : String → List (Mark E)
  tag_marks tag = if tag == "h1" then main_heading ∷ [] else []

  unfoldable pub element_marks : String → List (Attribute E) → List (Mark E)
  unfolding is_disabled attribute_marks
  element_marks tag attributes =
      tag_marks tag ++ (if is_disabled attributes then [] else attribute_marks attributes)

  unfoldable mutual
    unfolding element_marks

    pub outline : Node E → List (Mark E)
    outline (text s) = []
    outline (element tag attributes children) = element_marks tag attributes ++ outline_all children
    outline (fragment children) = outline_all children

    pub outline_all : Nodes E → List (Mark E)
    outline_all no_nodes = []
    outline_all (more_nodes n ns) = outline n ++ outline_all ns

  -- Nothing to do and nothing to refer to.
  abbrev pub IsQuiet : Node E → Type 0
  IsQuiet n = outline n ≡ []

  abbrev pub AreQuiet : List (Node E) → Type 0
  AreQuiet ns = outline_all (nodes ns) ≡ []
