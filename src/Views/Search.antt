-- ===== src/Views/Search.antt =====
-- packages/promotion-ui/src/views/candidates.tsx, about the inventory: what each selection shows, and
-- which options it offers.
use Prim.Native.Char.{Char, code}
use Prim.Native.String.{[], ◌∷◌}
use text.Mathlib.TextLemmas.{nil-append, cons-append}
use agent_promotion_control.Prelude.{
  ◌≡◌, ◌≢◌, refl, ap, ◌∙◌, inl, inr, true, false, Bool, ◌&&◌, ◌||◌, not, none, some, String, List,
  [], ◌∷◌, map, keep, any, arith, nat_eq, ◌==◌, eq_iff, eq_refl, Bool-cases,
}
use agent_promotion_control.Js.{Runtime, ◌^^◌, trim, after_prefix, sort, insert_sorted, text_after}
use agent_promotion_control.View.{CandidateViewModel}
use agent_promotion_control.Api.{distinct, distinct_from, has_text}
use agent_promotion_control.Views.{
  Filters, initial_filters, type_option, detector_option, matches_source, matches_stage,
  matches_disposition, matches_query, is_shown, shown_candidates, options, is_ready,
}

after_prefix-^^ : (start s : String) → after_prefix start (start ^^ s) ≡ some s
unfolding after_prefix ◌^^◌
after_prefix-^^ [] s = rw (nil-append s) refl
after_prefix-^^ (c ∷ start) s = rw (cons-append c start s) (ground (arith, after_prefix-^^ start s))

-- The first characters differ.
after_prefix_other :
    (c d : Char) (start other s : String)
    → nat_eq (code c) (code d) ≡ false
    → after_prefix (c ∷ start) ((d ∷ other) ^^ s) ≡ none
unfolding after_prefix ◌^^◌
after_prefix_other c d start other s ne = rw (cons-append d other s, ne) refl

-- A prefixed value is not the value that selects all.
not_all : (start s : String) → after_prefix start "ALL" ≡ none → ((start ^^ s) == "ALL") ≡ false
not_all start s h = elim (Bool-cases ((start ^^ s) == "ALL")) [
  | inl same ↦
      let e = (eq_iff (start ^^ s) "ALL").0 same in cc (rw e at (after_prefix-^^ start s), h)
  | inr other ↦ other
]

or_false : (b : Bool) → (b || false) ≡ b
or_false true = refl
or_false false = refl

and_true : (b : Bool) → (b && true) ≡ b
and_true true = refl
and_true false = refl

keep_congr {ℓ} :
    {A : Type ℓ} (p q : A → Bool) (xs : List A) → ((x : A) → p x ≡ q x) → keep p xs ≡ keep q xs
keep_congr p q [] h = refl
keep_congr p q (x ∷ xs) h = rw (h x, keep_congr p q xs h) refl

keep_all {ℓ} : {A : Type ℓ} (xs : List A) → keep (λ x. true) xs ≡ xs
keep_all [] = refl
keep_all (x ∷ xs) = ap (◌∷◌ x) (keep_all xs)

module _ {N : Type 0} where
  matches_source-type_option :
      (value : String) (c : CandidateViewModel N)
      → matches_source (type_option value) c ≡ (c.candidate_type == value)
  unfolding matches_source after_prefix
  matches_source-type_option value c =
      rw
        (
          not_all "TYPE:" value refl,
          after_prefix-^^ "TYPE:" value,
          after_prefix_other "D" "T" "ETECTOR:" "YPE:" value refl,
        )
        (or_false (c.candidate_type == value))

  matches_source-detector_option :
      (value : String) (c : CandidateViewModel N)
      → matches_source (detector_option value) c ≡ (c.detector_lineage == value)
  unfolding matches_source after_prefix
  matches_source-detector_option value c =
      rw
        (
          not_all "DETECTOR:" value refl,
          after_prefix-^^ "DETECTOR:" value,
          after_prefix_other "T" "D" "YPE:" "ETECTOR:" value refl,
        )
        refl

module _ {N : Type 0} (js : Runtime N) (lower : js.to_lower_case "" ≡ "") where
  -- Without a text in the search box, the selections alone decide.
  is_shown_unsearched :
      (f : Filters) (c : CandidateViewModel N)
      → f.query ≡ ""
      → is_shown js f c ≡ (
          matches_stage f.stage c
          && matches_source f.source c
          && matches_disposition f.disposition c)
  unfolding is_shown trim matches_query
  is_shown_unsearched f c empty = rw (empty, lower) refl

  shown-eq :
      (f : Filters) (p : CandidateViewModel N → Bool) (cs : List (CandidateViewModel N))
      → f.query ≡ ""
      → ((c : CandidateViewModel N)
          → (matches_stage f.stage c
              && matches_source f.source c
              && matches_disposition f.disposition c)
            ≡ p c)
      → shown_candidates js f cs ≡ keep p cs
  unfolding shown_candidates
  shown-eq f p cs empty h =
      keep_congr (is_shown js f) p cs (λ c. is_shown_unsearched f c empty ∙ h c)

  -- Where the empty text is its own lower case, with an empty search box, and one selection made, the
  -- inventory shows the candidates of exactly the type, detector or stage that is selected, or those
  -- that are ready for a decision, blocked or pending, as the disposition says, in their order; and
  -- with no selection it shows them all. The stage is not the text ALL, which selects every stage.
  pub shown_candidates_lem :
      (value : String) (cs : List (CandidateViewModel N))
      → value ≢ "ALL"
      → (shown_candidates js initial_filters cs ≡ cs)
        × (shown_candidates js (record initial_filters { source = type_option value }) cs
            ≡ keep (λ c. c.candidate_type == value) cs)
        × (shown_candidates js (record initial_filters { source = detector_option value }) cs
            ≡ keep (λ c. c.detector_lineage == value) cs)
        × (shown_candidates js (record initial_filters { stage = value }) cs
            ≡ keep (λ c. c.stage == value) cs)
        × (shown_candidates js (record initial_filters { disposition = "PROMOTION_READY" }) cs
            ≡ keep (λ c. c.promotion_eligible && c.activation_state == "NOT_REQUESTED") cs)
        × (shown_candidates js (record initial_filters { disposition = "BLOCKED" }) cs
            ≡ keep (λ c. c.status == "BLOCKED") cs)
        × (shown_candidates js (record initial_filters { disposition = "PROMOTION_PENDING" }) cs
            ≡ keep (λ c. c.activation_state == "PENDING") cs)
  unfolding matches_stage matches_source matches_disposition is_ready
  shown_candidates_lem value cs ne =
      let one_stage : (value == "ALL") ≡ false = ground (arith, eq_iff value "ALL") in
      (
        shown-eq initial_filters (λ c. true) cs refl (λ c. refl) ∙ keep_all cs,
        shown-eq (record initial_filters { source = type_option value }) _ cs refl
            (λ c. and_true _ ∙ matches_source-type_option value c),
        shown-eq (record initial_filters { source = detector_option value }) _ cs refl
            (λ c. and_true _ ∙ matches_source-detector_option value c),
        shown-eq (record initial_filters { stage = value }) _ cs refl (λ c. ground arith),
        shown-eq (record initial_filters { disposition = "PROMOTION_READY" }) _ cs refl
            (λ c. or_false _),
        shown-eq (record initial_filters { disposition = "BLOCKED" }) _ cs refl
            (λ c. or_false _ ∙ or_false _),
        shown-eq (record initial_filters { disposition = "PROMOTION_PENDING" }) _ cs refl
            (λ c. refl),
      )

-- No text twice.
abbrev pub HasNoRepeats : List String → Type 0
HasNoRepeats [] = Unit
HasNoRepeats (s ∷ rest) = (has_text s rest ≡ false) × HasNoRepeats rest

has_text-distinct_from :
    (s : String) (seen xs : List String)
    → has_text s (distinct_from seen xs) ≡ (not (has_text s seen) && has_text s xs)
unfolding distinct_from has_text
has_text-distinct_from s seen [] = ground arith
has_text-distinct_from s seen (x ∷ xs) =
    ground
      (arith, eq_iff x s, has_text-distinct_from s seen xs, has_text-distinct_from s (x ∷ seen) xs)

distinct_from-HasNoRepeats : (seen xs : List String) → HasNoRepeats (distinct_from seen xs)
unfolding distinct_from has_text
distinct_from-HasNoRepeats seen [] = tt
distinct_from-HasNoRepeats seen (x ∷ xs) = elim (Bool-cases (has_text x seen)) [
  | inl old ↦ rw (old, distinct_from) (distinct_from-HasNoRepeats seen xs)
  | inr new ↦
      rw (new, distinct_from)
        (
          has_text-distinct_from x (x ∷ seen) xs ∙ rw (eq_refl x) refl,
          distinct_from-HasNoRepeats (x ∷ seen) xs,
        )
]

has_text-insert_sorted :
    (s x : String) (xs : List String)
    → has_text s (insert_sorted text_after x xs) ≡ (x == s || has_text s xs)
unfolding insert_sorted has_text
has_text-insert_sorted s x [] = refl
has_text-insert_sorted s x (y ∷ ys) = ground (arith, has_text-insert_sorted s x ys)

has_text-sort : (s : String) (xs : List String) → has_text s (sort text_after xs) ≡ has_text s xs
unfolding sort has_text
has_text-sort s [] = refl
has_text-sort s (x ∷ xs) =
    has_text-insert_sorted s x (sort text_after xs) ∙ ap (λ b. x == s || b) (has_text-sort s xs)

insert_sorted-HasNoRepeats :
    (x : String) (xs : List String)
    → has_text x xs ≡ false
    → HasNoRepeats xs
    → HasNoRepeats (insert_sorted text_after x xs)
unfolding insert_sorted has_text
insert_sorted-HasNoRepeats x [] h r = (refl, tt)
insert_sorted-HasNoRepeats x (y ∷ ys) h (new, r) = elim (Bool-cases (text_after x y)) [
  | inl later ↦
      let other : (x == y) ≡ false = ground (arith, eq_iff x y, eq_iff y x) in
      rw later (
        has_text-insert_sorted y x ys ∙ rw (other, new) refl,
        insert_sorted-HasNoRepeats x ys (ground arith) r,
      )
  | inr first ↦ rw first (h, (new, r))
]

sort-HasNoRepeats : (xs : List String) → HasNoRepeats xs → HasNoRepeats (sort text_after xs)
unfolding sort
sort-HasNoRepeats [] r = tt
sort-HasNoRepeats (x ∷ xs) (new, r) =
    insert_sorted-HasNoRepeats x (sort text_after xs) (has_text-sort x xs ∙ new)
      (sort-HasNoRepeats xs r)

has_text-map :
    {A : Type 0} (s : String) (f : A → String) (xs : List A)
    → has_text s (map f xs) ≡ any (λ x. f x == s) xs
unfolding has_text
has_text-map s f [] = refl
has_text-map s f (x ∷ xs) = ap (λ b. f x == s || b) (has_text-map s f xs)

-- A selection offers each value that a candidate has, no other, and none twice.
options-HasNoRepeats :
    {N : Type 0} (read : CandidateViewModel N → String) (cs : List (CandidateViewModel N))
    → ((s : String) → has_text s (options read cs) ≡ any (λ c. read c == s) cs)
      × HasNoRepeats (options read cs)
unfolding options distinct
options-HasNoRepeats read cs = (
  λ s.
      has_text-sort s (distinct_from [] (map read cs))
      ∙ has_text-distinct_from s [] (map read cs)
      ∙ has_text-map s read cs,
  sort-HasNoRepeats (distinct_from [] (map read cs)) (distinct_from-HasNoRepeats [] (map read cs)),
)
