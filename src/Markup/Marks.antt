-- ===== src/Markup/Marks.antt =====
-- What a list of marks offers and declares.
use agent_promotion_control.Prelude.{
  ◌≡◌, ◌∙◌, refl, ℕ, suc, ◌+◌, String, Bool, true, false, ◌&&◌, ◌||◌, List, [], ◌∷◌, ◌++◌, any,
  ◌==◌, if◌then◌else◌, Bool-cases, arith, inl, inr,
}
use agent_promotion_control.Markup.Outline.{
  Mark, main_heading, declared, referred, link, press, change,
}
use agent_promotion_control.Markup.Quiet.{marks_of}

module _ {E : Type 0} where
  abbrev pub is_main : Mark E → Bool
  is_main main_heading = true
  is_main _ = false

  -- A control whose handler makes a call that the test accepts.
  abbrev pub is_control : (E → Bool) → Mark E → Bool
  is_control accepts (press e) = accepts e
  is_control accepts (change f) = accepts (f "")
  is_control accepts _ = false

  -- A control of that kind is offered.
  unfoldable pub offers : (E → Bool) → List (Mark E) → Bool
  offers accepts marks = any (is_control accepts) marks

  unfoldable pub main_headings : List (Mark E) → ℕ
  main_headings [] = 0
  main_headings (main_heading ∷ rest) = suc (main_headings rest)
  main_headings (_ ∷ rest) = main_headings rest

  unfoldable pub declares : String → List (Mark E) → Bool
  declares id [] = false
  declares id (declared other ∷ rest) = id == other || declares id rest
  declares id (_ ∷ rest) = declares id rest

  -- Every reference is to an identifier that the marks declare.
  unfoldable pub resolves_in : List (Mark E) → List (Mark E) → Bool
  unfolding declares
  resolves_in whole [] = true
  resolves_in whole (referred id ∷ rest) = declares id whole && resolves_in whole rest
  resolves_in whole (_ ∷ rest) = resolves_in whole rest

  unfoldable pub go_paths : (E → List String) → List (Mark E) → List String
  go_paths path [] = []
  go_paths path (press e ∷ rest) = path e ++ go_paths path rest
  go_paths path (_ ∷ rest) = go_paths path rest

  pub offers-append :
      (accepts : E → Bool) (xs ys : List (Mark E))
      → offers accepts (xs ++ ys) ≡ (offers accepts xs || offers accepts ys)
  unfolding offers
  offers-append accepts [] ys = refl
  offers-append accepts (x ∷ xs) ys = elim (Bool-cases (is_control accepts x)) [
    | inl h ↦ rw h refl
    | inr h ↦ rw h (offers-append accepts xs ys)
  ]

  pub offers-if :
      (accepts : E → Bool) (b : Bool) (xs : List (Mark E))
      → offers accepts (if b then xs else []) ≡ (b && offers accepts xs)
  unfolding offers
  offers-if accepts true xs = refl
  offers-if accepts false xs = refl

  pub offers-marks_of {ℓ} :
      {A : Type ℓ} (accepts : E → Bool) (g : A → List (Mark E)) (xs : List A)
      → ((a : A) → offers accepts (g a) ≡ false)
      → offers accepts (marks_of g xs) ≡ false
  unfolding offers
  offers-marks_of accepts g [] h = refl
  offers-marks_of accepts g (x ∷ xs) h =
      offers-append accepts (g x) (marks_of g xs) ∙ rw (h x) (offers-marks_of accepts g xs h)

  pub declares-append :
      (id : String) (xs ys : List (Mark E))
      → declares id (xs ++ ys) ≡ (declares id xs || declares id ys)
  unfolding declares
  declares-append id [] ys = refl
  declares-append id (declared other ∷ xs) ys = elim (Bool-cases (id == other)) [
    | inl h ↦ rw h refl
    | inr h ↦ rw h (declares-append id xs ys)
  ]
  declares-append id (main_heading ∷ xs) ys = declares-append id xs ys
  declares-append id (referred s ∷ xs) ys = declares-append id xs ys
  declares-append id (link s ∷ xs) ys = declares-append id xs ys
  declares-append id (press e ∷ xs) ys = declares-append id xs ys
  declares-append id (change f ∷ xs) ys = declares-append id xs ys

  pub resolves_in-append :
      (whole xs ys : List (Mark E))
      → resolves_in whole (xs ++ ys) ≡ (resolves_in whole xs && resolves_in whole ys)
  unfolding resolves_in
  resolves_in-append whole [] ys = refl
  resolves_in-append whole (referred id ∷ xs) ys = elim (Bool-cases (declares id whole)) [
    | inl h ↦ rw h (resolves_in-append whole xs ys)
    | inr h ↦ rw h refl
  ]
  resolves_in-append whole (main_heading ∷ xs) ys = resolves_in-append whole xs ys
  resolves_in-append whole (declared s ∷ xs) ys = resolves_in-append whole xs ys
  resolves_in-append whole (link s ∷ xs) ys = resolves_in-append whole xs ys
  resolves_in-append whole (press e ∷ xs) ys = resolves_in-append whole xs ys
  resolves_in-append whole (change f ∷ xs) ys = resolves_in-append whole xs ys

  pub main_headings-append :
      (xs ys : List (Mark E)) → main_headings (xs ++ ys) ≡ main_headings xs + main_headings ys
  unfolding main_headings
  main_headings-append [] ys = omega arith
  main_headings-append (main_heading ∷ xs) ys = let rest = main_headings-append xs ys in omega arith
  main_headings-append (declared s ∷ xs) ys = main_headings-append xs ys
  main_headings-append (referred s ∷ xs) ys = main_headings-append xs ys
  main_headings-append (link s ∷ xs) ys = main_headings-append xs ys
  main_headings-append (press e ∷ xs) ys = main_headings-append xs ys
  main_headings-append (change f ∷ xs) ys = main_headings-append xs ys
