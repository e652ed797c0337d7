-- ===== src/Theme.antt =====
-- packages/promotion-ui/src/theme.ts: the style that the tokens of a theme give. The tokens that are
-- given have the names of the default ones.
pub mod Variables
use agent_promotion_control.Prelude.{String, List, [], ◌∷◌, ◌==◌, if◌then◌else◌}
use agent_promotion_control.Js.{Value, str, Fields, end, field, spread}

unfoldable pub default_promotion_theme : List (String × String)
default_promotion_theme =
    ("background", "#101116")
    ∷ ("surface", "#161820")
    ∷ ("surfaceRaised", "#1b1e27")
    ∷ ("text", "#f4f1e9")
    ∷ ("textMuted", "#a6a5ae")
    ∷ ("line", "#30323c")
    ∷ ("lineStrong", "#4a4d59")
    ∷ ("decision", "#9578ff")
    ∷ ("comparison", "#2f9d82")
    ∷ ("degraded", "#c9963f")
    ∷ ("stop", "#d16065")
    ∷ ("focus", "#c4b7ff")
    ∷ (
      "fontSans",
      "Inter, ui-sans-serif, system-ui, -apple-system, BlinkMacSystemFont, 'Segoe UI', sans-serif",
    )
    ∷ ("fontMono", "'IBM Plex Mono', 'SFMono-Regular', Consolas, monospace")
    ∷ ("radiusSmall", "2px")
    ∷ ("radiusLarge", "6px")
    ∷ []

unfoldable pub token_to_variable : List (String × String)
token_to_variable =
    ("background", "--pcp-background")
    ∷ ("surface", "--pcp-surface")
    ∷ ("surfaceRaised", "--pcp-surface-raised")
    ∷ ("text", "--pcp-text")
    ∷ ("textMuted", "--pcp-text-muted")
    ∷ ("line", "--pcp-line")
    ∷ ("lineStrong", "--pcp-line-strong")
    ∷ ("decision", "--pcp-decision")
    ∷ ("comparison", "--pcp-comparison")
    ∷ ("degraded", "--pcp-degraded")
    ∷ ("stop", "--pcp-stop")
    ∷ ("focus", "--pcp-focus")
    ∷ ("fontSans", "--pcp-font-sans")
    ∷ ("fontMono", "--pcp-font-mono")
    ∷ ("radiusSmall", "--pcp-radius-small")
    ∷ ("radiusLarge", "--pcp-radius-large")
    ∷ []

-- `tokenToVariable[key]`.
unfoldable pub variable_in : List (String × String) → String → String
variable_in [] key = "undefined"
variable_in ((k, v) ∷ rest) key = let later = variable_in rest key in if k == key then v else later

module _ {N : Type 0} where
  abbrev pub text_fields : List (String × String) → Fields N
  text_fields [] = end
  text_fields ((k, s) ∷ rest) = field k (str s) (text_fields rest)

  -- The properties under the names of their variables.
  unfoldable pub renamed : Fields N → Fields N
  unfolding variable_in token_to_variable
  renamed end = end
  renamed (field k v fs) = field (variable_in token_to_variable k) v (renamed fs)

  -- `{ ...defaultPromotionTheme, ...tokens }`.
  unfoldable pub resolved : Fields N → Fields N
  unfolding default_promotion_theme
  resolved tokens = spread (text_fields default_promotion_theme) tokens

  unfoldable pub theme_token_style : Fields N → Fields N
  unfolding resolved renamed
  theme_token_style tokens = renamed (resolved tokens)
