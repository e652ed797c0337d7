-- ===== src/Components/Outlines.antt =====
-- packages/promotion-ui/src/components.tsx: what each component adds to the outline of a view: an
-- introduction its main heading, a link what it does, and the others nothing.
use agent_promotion_control.Prelude.{
  ◌≡◌, refl, String, Bool, Option, none, some, [], ◌∷◌, not, get_or, ◌==◌,
}
use agent_promotion_control.Js.{Runtime}
use agent_promotion_control.Format.{VisualTone}
use agent_promotion_control.Markup.{Node, line, optional, styled}
use agent_promotion_control.Markup.Outline.{main_heading, press, outline, IsQuiet}
use agent_promotion_control.Markup.Quiet.{when-IsQuiet, quiet_elements}
use agent_promotion_control.Components.{
  Rendering, screen_intro, status_mark, section_heading, empty_state, draft_link, technical_ref,
  metric_card,
}

module _ {E : Type 0} where
  pub outline-screen_intro :
      (eyebrow title line1 line2 : String) (aside : Option (Node E))
      → IsQuiet (optional aside (λ child. styled "div" "pcp-intro-aside" (child ∷ [])))
      → outline (screen_intro eyebrow title line1 line2 aside) ≡ main_heading ∷ []
  unfolding screen_intro outline
  outline-screen_intro eyebrow title line1 line2 aside h = rw h refl

  pub status_mark-IsQuiet :
      (tone : VisualTone) (compact : Bool) (label : String)
      → IsQuiet {E = E} (status_mark tone compact label)
  unfolding status_mark outline
  status_mark-IsQuiet tone compact label = refl

  pub section_heading-IsQuiet :
      (index title : String) (detail : Option String)
      → IsQuiet {E = E} (section_heading index title detail none)
  unfolding section_heading outline
  section_heading-IsQuiet index title detail =
      rw (when-IsQuiet (not (get_or detail "" == "")) (line {E = E} "p" (get_or detail "")) refl)
        refl

  pub outline-draft_link :
      (e : E) (label : Option String) (s : String) → outline (draft_link e label s) ≡ press e ∷ []
  unfolding draft_link outline
  outline-draft_link e none s = refl
  outline-draft_link e (some label) s = refl

  pub empty_state-IsQuiet : (s : String) → IsQuiet {E = E} (empty_state s)
  unfolding empty_state outline
  empty_state-IsQuiet s = refl

  pub technical_ref-IsQuiet : (a b : String) → IsQuiet {E = E} (technical_ref a b)
  unfolding technical_ref outline
  technical_ref-IsQuiet a b = refl

  pub metric_card-IsQuiet :
      {N : Type 0} (js : Runtime N) (rt : Rendering N) (label value meaning : String)
      (tone : VisualTone) (progress : Option N)
      → IsQuiet {E = E} (metric_card js rt label value meaning tone progress)
  unfolding metric_card outline
  metric_card-IsQuiet js rt label value meaning tone none = refl
  metric_card-IsQuiet js rt label value meaning tone (some share) = refl

pub ruleset component_outlines = (
  quiet_elements, outline-screen_intro, status_mark-IsQuiet, section_heading-IsQuiet,
  outline-draft_link, empty_state-IsQuiet, technical_ref-IsQuiet, metric_card-IsQuiet,
)
