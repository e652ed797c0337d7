-- ===== src/Markup/Sound.antt =====
-- Marks that add no main heading, and whose references lead into a whole outline.
use agent_promotion_control.Prelude.{
  ◌≡◌, ◌∙◌, refl, Bool, true, false, List, [], ◌∷◌, ◌++◌, if◌then◌else◌,
}
use agent_promotion_control.Markup.Outline.{Mark}
use agent_promotion_control.Markup.Marks.{
  main_headings, resolves_in, main_headings-append, resolves_in-append,
}
use agent_promotion_control.Markup.Quiet.{marks_of}

module _ {E : Type 0} (whole : List (Mark E)) where
  abbrev pub IsSound : List (Mark E) → Type 0
  IsSound marks = (main_headings marks ≡ 0) × (resolves_in whole marks ≡ true)

  pub append-IsSound : (xs ys : List (Mark E)) → IsSound xs → IsSound ys → IsSound (xs ++ ys)
  append-IsSound xs ys (h, k) (h', k') = (
    main_headings-append xs ys ∙ rw (h, h') refl,
    resolves_in-append whole xs ys ∙ rw (k, k') refl,
  )

  -- What is shown under a condition is sound if it is whenever the condition holds.
  pub shown-IsSound :
      (b : Bool) (marks : List (Mark E))
      → (b ≡ true → IsSound marks)
      → IsSound (if b then marks else [])
  unfolding main_headings resolves_in
  shown-IsSound true marks h = h refl
  shown-IsSound false marks h = (refl, refl)

  pub marks_of-IsSound {ℓ} :
      {A : Type ℓ} (g : A → List (Mark E)) (xs : List A)
      → ((a : A) → IsSound (g a))
      → IsSound (marks_of g xs)
  unfolding main_headings resolves_in
  marks_of-IsSound g [] h = (refl, refl)
  marks_of-IsSound g (x ∷ xs) h =
      append-IsSound (g x) (marks_of g xs) (h x) (marks_of-IsSound g xs h)
