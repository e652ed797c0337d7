-- ===== src/Theme/Variables.antt =====
-- packages/promotion-ui/src/theme.ts: which variables the style sets, and to what.
use agent_promotion_control.Prelude.{
  ◌≡◌, refl, ap, ◌∙◌, String, true, List, [], ◌∷◌, map, All, Bool-cases, inl, inr, ◌==◌,
  if◌then◌else◌,
}
use agent_promotion_control.Js.{Value, Fields, end, field, ◌!◌, assign, spread}
use agent_promotion_control.Api.{has_text}
use agent_promotion_control.Mutation.Agreement.{get-assign}
use agent_promotion_control.Theme.{
  default_promotion_theme, token_to_variable, variable_in, text_fields, renamed, resolved,
  theme_token_style,
}

-- The second of a pair.
abbrev pub second : String × String → String
second (a, b) = b

abbrev pub token_name : String × String → String
token_name (a, b) = a

module _ {N : Type 0} where
  abbrev pub keys : Fields N → List String
  keys end = []
  keys (field k v fs) = k ∷ keys fs

  -- The value that the last property of this name has, or else this one.
  abbrev pub last_given : Fields N → String → Value N → Value N
  last_given end key v = v
  last_given (field k w fs) key v = last_given fs key (if k == key then w else v)

  keys-assign :
      (k : String) (v : Value N) (fs : Fields N)
      → has_text k (keys fs) ≡ true
      → keys (assign k v fs) ≡ keys fs
  unfolding has_text
  keys-assign k v end h = cc h
  keys-assign k v (field j w fs) h = elim (Bool-cases (j == k)) [
    | inl same ↦ rw same refl
    | inr other ↦ rw other (ap (◌∷◌ j) (keys-assign k v fs (rw other at h)))
  ]

  keys-spread :
      (ks : List String) (base over : Fields N)
      → keys base ≡ ks
      → All (λ k. has_text k ks ≡ true) (keys over)
      → keys (spread base over) ≡ ks
  keys-spread ks base end e h = e
  keys-spread ks base (field k v fs) e (known, h) =
      keys-spread ks (assign k v base) fs (keys-assign k v base (ap (has_text k) e ∙ known) ∙ e) h

  get-spread :
      (base over : Fields N) (key : String)
      → spread base over ! key ≡ last_given over key (base ! key)
  get-spread base end key = refl
  get-spread base (field k v fs) key =
      get-spread (assign k v base) fs key ∙ ap (last_given fs key) (get-assign k key v base)

  keys-renamed : (fs : Fields N) → keys (renamed fs) ≡ map (variable_in token_to_variable) (keys fs)
  unfolding renamed
  keys-renamed end = refl
  keys-renamed (field k v fs) = ap (◌∷◌ (variable_in token_to_variable k)) (keys-renamed fs)

  -- For tokens with the names of the default theme's, the style sets exactly the variables of the
  -- table, each once and in its order; and the theme that it is made of has, for each name, the value
  -- that the tokens give it, or else the default one.
  theme_token_style-keys :
      (tokens : Fields N)
      → All (λ k. has_text k (map token_name default_promotion_theme) ≡ true) (keys tokens)
      → (keys (theme_token_style tokens) ≡ map second token_to_variable)
        × ((key : String)
            → resolved tokens ! key
              ≡ last_given tokens key (text_fields default_promotion_theme ! key))
  unfolding theme_token_style resolved token_to_variable default_promotion_theme variable_in
  theme_token_style-keys tokens known = (
    keys-renamed (spread (text_fields default_promotion_theme) tokens)
        ∙ ap (map (variable_in token_to_variable)) (
            keys-spread (map token_name default_promotion_theme)
              (text_fields default_promotion_theme) tokens refl known),
    λ key. get-spread (text_fields default_promotion_theme) tokens key,
  )
