-- ===== src/Shell/Current.antt =====
-- packages/promotion-ui/src/PromotionShell.tsx: the control of the navigation that is shown as the current
-- one.
use agent_promotion_control.Prelude.{
  ◌≡◌, get_or, String, Bool, false, ◌&&◌, ◌||◌, Option, none, some, List, [], ◌∷◌, ◌++◌, ◌==◌,
  if◌then◌else◌,
}
use agent_promotion_control.Js.{Runtime}
use agent_promotion_control.Routes.{PromotionRouteName, parse_promotion_route}
use agent_promotion_control.Markup.{
  Attribute, named, Node, text, element, fragment, Nodes, no_nodes, more_nodes,
}
use agent_promotion_control.Markup.Outline.{Mark, press, attribute_marks}
use agent_promotion_control.Shell.{ShellState, ShownView, NavigationItem, shell_view}
use agent_promotion_control.Shell.Frame.{ShellProps, promotion_shell}

module _ {E : Type 0} where
  -- `aria-current="page"`.
  abbrev is_page : Attribute E → Bool
  is_page (named key value) = key == "aria-current" && value == "page"
  is_page _ = false

  abbrev has_page : List (Attribute E) → Bool
  has_page [] = false
  has_page (attribute ∷ rest) = is_page attribute || has_page rest

  -- What the elements of a tree do that are shown as the current page.
  unfoldable mutual
    pub current_marks : Node E → List (Mark E)
    current_marks (text s) = []
    current_marks (element tag attributes children) =
        (if has_page attributes then attribute_marks attributes else [])
        ++ current_marks_all children
    current_marks (fragment children) = current_marks_all children

    pub current_marks_all : Nodes E → List (Mark E)
    current_marks_all no_nodes = []
    current_marks_all (more_nodes n ns) = current_marks n ++ current_marks_all ns

  abbrev pub slot_currents : Option (Node E) → List (Mark E)
  slot_currents none = []
  slot_currents (some slot) = current_marks slot

abbrev shown_name : {N E : Type 0} → ShellProps E → ShellState N → PromotionRouteName
shown_name props s = (parse_promotion_route (get_or props.current_path s.internal_path)).name

module _ {N E : Type 0} (js : Runtime N) (go : String → E) (render : ShownView N → Node E) where
  -- Around the slot and the view, exactly the control of the item is shown as the current page.
  abbrev pub ShowsCurrent : ShellProps E → ShellState N → NavigationItem → Type 0
  ShowsCurrent props s item =
      current_marks (promotion_shell js go render props s)
      ≡ press (go item.path) ∷ slot_currents props.header_slot
        ++ current_marks (render (shell_view js props.current_path s).1)
