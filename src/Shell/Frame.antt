-- ===== src/Shell/Frame.antt =====
-- packages/promotion-ui/src/PromotionShell.tsx: the elements around a view, without their style, which is
-- Theme's, and where the navigation leads.
use mathlib.Core.List.{append-nil, append_assoc}
use agent_promotion_control.Prelude.{
  ◌≡◌, refl, String, Bool, Option, none, some, List, [], ◌∷◌, ◌++◌, ◌==◌, get_or, ℕ, Bool-cases,
  inl, inr, if◌then◌else◌,
}
use agent_promotion_control.Js.{Runtime, ◌^^◌}
use agent_promotion_control.Format.{humanize}
use agent_promotion_control.Routes.{PromotionRouteName, parse_promotion_route}
use agent_promotion_control.Markup.{
  Attribute, class_name, identifier, href, named, flag, on_press, Node, text, el, styled, plain,
  line, styled_line, when, optional, each,
}
use agent_promotion_control.Markup.Outline.{Mark, declared, link, press, outline}
use agent_promotion_control.Markup.Quiet.{marks_of, outline-each}
use agent_promotion_control.Components.{hidden, button_type}
use agent_promotion_control.Components.Outlines.{component_outlines}
use agent_promotion_control.Shell.{
  ShellState, ShownView, shell_view, stream_connected, active_root, NavigationItem,
  promotion_navigation, name_text, is_current,
}

-- The digest of the governed copy.
abbrev digest : String
digest = "sha256:6c3060d3827f78b69454eff28cdfac2a7e7c45a36f04c8058454b03c6161fc70"

-- What the shell is rendered with, other than the snapshot.
pub record ShellProps (E : Type 0) : Type 0 where
  pub current_path : Option String
  pub data_source : Option ℕ
  pub embedded : Bool
  pub header_slot : Option (Node E)
  pub class_name : Option String

-- `["pcp-shell", className].filter(Boolean).join(" ")`.
unfoldable pub shell_class : Option String → String
shell_class none = "pcp-shell"
shell_class (some name) = if name == "" then "pcp-shell" else "pcp-shell " ^^ name

module _ {E : Type 0} where
  abbrev current_attribute : Bool → List (Attribute E)
  current_attribute active = if active then named "aria-current" "page" ∷ [] else []

  unfoldable pub navigation_entry : (String → E) → PromotionRouteName → NavigationItem → Node E
  navigation_entry go name item = plain "li" (
      el "button"
        (button_type ∷ on_press (some (go item.path)) ∷ current_attribute (is_current name item))
        (line "span" item.index ∷ line "strong" item.label ∷ el "i" (hidden ∷ []) [] ∷ [])
      ∷ [])

  unfoldable pub rail : (String → E) → PromotionRouteName → Node E
  rail go name =
      el "aside" (class_name "pcp-rail" ∷ named "aria-label" "Promotion control plane" ∷ []) (
        styled "div" "pcp-wordmark" (
          el "span" (class_name "pcp-wordmark-mark" ∷ hidden ∷ [])
            (plain "i" [] ∷ plain "i" [] ∷ plain "i" [] ∷ [])
          ∷ plain "div" (line "strong" "AP" ∷ line "span" "CONTROL" ∷ [])
          ∷ [])
        ∷ el "nav" (named "aria-label" "Promotion sections" ∷ [])
            (plain "ol" (each promotion_navigation (navigation_entry go name) ∷ []) ∷ [])
        ∷ styled "div" "pcp-rail-foot" (
            line "span" "REFERENCE / 01"
            ∷ line "p" "Evidence governs promotion. Authority governs every run."
            ∷ [])
        ∷ [])

module _ {N E : Type 0} (js : Runtime N) where
  unfoldable pub topbar : Option (Node E) → Bool → Bool → PromotionRouteName → Node E
  topbar header_slot demo_mode connected section = styled "header" "pcp-topbar" (
      plain "div" (
        styled_line "span" "pcp-topbar-index" "AGENT PROMOTION"
        ∷ el "span" (class_name "pcp-topbar-rule" ∷ hidden ∷ []) []
        ∷ line "strong" (js.to_upper_case (humanize js (name_text section)))
        ∷ [])
      ∷ styled "div" "pcp-topbar-state" (
          optional header_slot (λ slot. slot)
          ∷ when demo_mode (styled_line "span" "pcp-demo-label" "DETERMINISTIC DEMO")
          ∷ el "span" (class_name "pcp-stream-state" ∷ flag "data-connected" connected ∷ []) (
              el "i" (hidden ∷ []) []
              ∷ text (if connected then "Event stream connected" else "Snapshot only")
              ∷ [])
          ∷ [])
      ∷ [])

  -- The whole shell, where `render` stands for the views.
  unfoldable pub promotion_shell :
      (String → E) → (ShownView N → Node E) → ShellProps E → ShellState N → Node E
  promotion_shell go render props s =
      let name = (parse_promotion_route (get_or props.current_path s.internal_path)).name in
      el "div"
        (named "data-promotion-control-plane" ""
          ∷ named "data-governed-copy-digest" digest
          ∷ flag "data-embedded" props.embedded
          ∷ class_name (shell_class props.class_name)
          ∷ [])
        (el "a" (class_name "pcp-skip-link" ∷ href "#promotion-main" ∷ [])
            (text "Skip to promotion content" ∷ [])
          ∷ rail go name
          ∷ styled "div" "pcp-workspace" (
              topbar props.header_slot s.shown.demo_mode (stream_connected js props.data_source s)
                (active_root name)
              ∷ el "main" (identifier "promotion-main" ∷ named "tabIndex" "-1" ∷ [])
                  (render (shell_view js props.current_path s).1 ∷ [])
              ∷ [])
          ∷ [])

module _ {E : Type 0} where
  outline-navigation_entry :
      (go : String → E) (name : PromotionRouteName) (item : NavigationItem)
      → outline (navigation_entry go name item) ≡ press (go item.path) ∷ []
  unfolding navigation_entry outline
  outline-navigation_entry go name item = elim (Bool-cases (is_current name item)) [
    | inl h ↦ rw h refl
    | inr h ↦ rw h refl
  ]

  outline-rail :
      (go : String → E) (name : PromotionRouteName)
      → outline (rail go name) ≡ marks_of (λ item. press (go item.path) ∷ []) promotion_navigation
  unfolding rail outline
  outline-rail go name = simp (append-nil) (
      outline-each (λ item. press (go item.path) ∷ []) promotion_navigation
        (navigation_entry go name) (outline-navigation_entry go name))

  abbrev pub slot_marks : Option (Node E) → List (Mark E)
  slot_marks none = []
  slot_marks (some slot) = outline slot

module _ {N E : Type 0} (js : Runtime N) where
  outline-topbar :
      (header_slot : Option (Node E)) (demo_mode connected : Bool) (section : PromotionRouteName)
      → outline (topbar js header_slot demo_mode connected section) ≡ slot_marks header_slot
  unfolding topbar outline
  outline-topbar none demo_mode connected section = simp component_outlines
  outline-topbar (some slot) demo_mode connected section = simp (append-nil, component_outlines)

  pub outline-promotion_shell :
      (go : String → E) (render : ShownView N → Node E) (props : ShellProps E) (s : ShellState N)
      → outline (promotion_shell js go render props s)
        ≡ link "#promotion-main" ∷ marks_of (λ item. press (go item.path) ∷ []) promotion_navigation
          ++ slot_marks props.header_slot
          ++ declared "promotion-main" ∷ outline (render (shell_view js props.current_path s).1)
  unfolding promotion_shell outline
  outline-promotion_shell go render props s =
      simp (append-nil, append_assoc, outline-rail, outline-topbar)
