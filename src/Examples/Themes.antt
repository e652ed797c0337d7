-- ===== src/Examples/Themes.antt =====
-- A theme with one token of its own.
use agent_promotion_control.Prelude.{ℕ, ◌≡◌, refl}
use agent_promotion_control.Js.{str, Fields, end, field, ◌!◌}
use agent_promotion_control.Theme.{
  default_promotion_theme, token_to_variable, resolved, theme_token_style, renamed, variable_in,
}

abbrev tokens : Fields ℕ
tokens = field "decision" (str "#0000ff") end

theme_run : theme_token_style tokens ! "--pcp-decision" ≡ str "#0000ff"
unfolding theme_token_style resolved renamed variable_in token_to_variable default_promotion_theme
theme_run = refl
