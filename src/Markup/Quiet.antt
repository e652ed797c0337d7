-- ===== src/Markup/Quiet.antt =====
-- The outline of the elements that the code puts together from conditions and lists.
use agent_promotion_control.Prelude.{
  ◌≡◌, ◌∙◌, refl, String, Bool, true, false, Option, none, some, List, [], ◌∷◌, ◌++◌, ℕ, suc,
  map_index_from,
}
use agent_promotion_control.Markup.{
  Attribute, Node, nodes, el, when, optional, each, each_index, unless_empty,
}
use agent_promotion_control.Markup.Outline.{
  Mark, element_marks, outline, outline_all, IsQuiet, AreQuiet,
}

module _ {E : Type 0} where
  pub AreQuiet-cons :
      (n : Node E) (ns : List (Node E)) → IsQuiet n → AreQuiet ns → AreQuiet (n ∷ ns)
  unfolding outline
  AreQuiet-cons n ns h hs = rw (h, hs) refl

  pub el-IsQuiet :
      (tag : String) (attributes : List (Attribute E)) (ns : List (Node E))
      → element_marks tag attributes ≡ []
      → AreQuiet ns
      → IsQuiet (el tag attributes ns)
  unfolding outline
  el-IsQuiet tag attributes ns h hs = rw (h, hs) refl

  pub when-IsQuiet : (b : Bool) (n : Node E) → IsQuiet n → IsQuiet (when b n)
  unfolding outline
  when-IsQuiet true n h = h
  when-IsQuiet false n h = refl

  pub optional-IsQuiet {ℓ} :
      {A : Type ℓ} (o : Option A) (f : A → Node E)
      → ((a : A) → IsQuiet (f a))
      → IsQuiet (optional o f)
  unfolding outline
  optional-IsQuiet none f h = refl
  optional-IsQuiet (some a) f h = h a

  pub unless_empty-IsQuiet {ℓ} :
      {A : Type ℓ} (xs : List A) (a b : Node E)
      → IsQuiet a
      → IsQuiet b
      → IsQuiet (unless_empty xs a b)
  unless_empty-IsQuiet [] a b ha hb = ha
  unless_empty-IsQuiet (x ∷ xs) a b ha hb = hb

  -- What each child adds.
  abbrev pub marks_of {ℓ} : {A : Type ℓ} → (A → List (Mark E)) → List A → List (Mark E)
  marks_of g [] = []
  marks_of g (x ∷ xs) = g x ++ marks_of g xs

  each_from {ℓ} :
      {A : Type ℓ} (g : A → List (Mark E)) (f : A → ℕ → Node E)
      → ((a : A) (i : ℕ) → outline (f a i) ≡ g a)
      → (i : ℕ) (xs : List A) → outline_all (nodes (map_index_from i f xs)) ≡ marks_of g xs
  unfolding outline
  each_from g f h i [] = refl
  each_from g f h i (x ∷ xs) = rw (h x i, each_from g f h (suc i) xs) refl

  pub outline-each_index {ℓ} :
      {A : Type ℓ} (g : A → List (Mark E)) (xs : List A) (f : A → ℕ → Node E)
      → ((a : A) (i : ℕ) → outline (f a i) ≡ g a)
      → outline (each_index xs f) ≡ marks_of g xs
  unfolding outline
  outline-each_index g xs f h = each_from g f h 0 xs

  pub outline-each {ℓ} :
      {A : Type ℓ} (g : A → List (Mark E)) (xs : List A) (f : A → Node E)
      → ((a : A) → outline (f a) ≡ g a)
      → outline (each xs f) ≡ marks_of g xs
  unfolding outline
  outline-each g [] f h = refl
  outline-each g (x ∷ xs) f h = rw (h x, outline-each g xs f h) refl

  -- A list that is shown only if it has something.
  pub outline-unless_empty {ℓ} :
      {A : Type ℓ} (g : A → List (Mark E)) (xs : List A) (a b : Node E)
      → IsQuiet a
      → outline b ≡ marks_of g xs
      → outline (unless_empty xs a b) ≡ marks_of g xs
  outline-unless_empty g [] a b ha hb = ha
  outline-unless_empty g (x ∷ xs) a b ha hb = hb

  pub no_marks {ℓ} : {A : Type ℓ} (xs : List A) → marks_of (λ a. []) xs ≡ []
  no_marks [] = refl
  no_marks (x ∷ xs) = no_marks xs

  pub each-IsQuiet {ℓ} :
      {A : Type ℓ} (xs : List A) (f : A → Node E) → ((a : A) → IsQuiet (f a)) → IsQuiet (each xs f)
  each-IsQuiet xs f h = outline-each (λ a. []) xs f h ∙ no_marks xs

  pub each_index-IsQuiet {ℓ} :
      {A : Type ℓ} (xs : List A) (f : A → ℕ → Node E)
      → ((a : A) (i : ℕ) → IsQuiet (f a i))
      → IsQuiet (each_index xs f)
  each_index-IsQuiet xs f h = outline-each_index (λ a. []) xs f h ∙ no_marks xs

-- What the code puts together from quiet elements is quiet.
pub ruleset quiet_elements =
    (when-IsQuiet, optional-IsQuiet, each-IsQuiet, each_index-IsQuiet, unless_empty-IsQuiet)
