-- ===== src/Copy/Canonical.antt =====
-- packages/promotion-ui/src/governed-copy.ts: the canonical text does not depend on the order in which
-- the fields of an object stand.
use mathlib.Core.Path.{ap₂}
use agent_promotion_control.Prelude.{
  ◌≡◌, ◌⊎◌, refl, ap, ◌∙◌, sym, true, false, String, Bool, List, [], ◌∷◌, inl, inr, Bool-cases,
}
use agent_promotion_control.Js.{
  Value, arr, obj, Items, nil, cons, Fields, end, field, Runtime, sort, insert_sorted,
}
use agent_promotion_control.Copy.{
  from_entries, key_after, normalize, normalize_items, normalize_entries,
  canonicalize_governed_copy,
}

module _ {ℓ} {A : Type ℓ} (behind : A → A → Bool)
    (trans : (a b c : A) → behind a b ≡ true → behind b c ≡ true → behind a c ≡ true) where
  insert_sorted_comm :
      (x y : A) (zs : List A)
      → behind x y ≡ true
      → behind y x ≡ false
      → insert_sorted behind x (insert_sorted behind y zs)
        ≡ insert_sorted behind y (insert_sorted behind x zs)
  unfolding insert_sorted
  insert_sorted_comm x y [] xy yx = rw (xy, yx) refl
  insert_sorted_comm x y (z ∷ zs) xy yx = elim (Bool-cases (behind y z)) [
    | inl yz ↦ rw (yz, trans x y z xy yz) (rw yz (ap (◌∷◌ z) (insert_sorted_comm x y zs xy yx)))
    | inr first ↦ elim (Bool-cases (behind x z)) [
      | inl xz ↦ rw (first, xz) (rw (xy, first) refl)
      | inr low ↦ rw (first, low) (rw (xy, yx) refl)
    ]
  ]

-- The collation puts one of the keys behind the other.
abbrev pub IsApart : (String → String → Bool) → String → String → Type 0
IsApart locale_after k l =
    ((locale_after k l ≡ true) × (locale_after l k ≡ false))
    ⊎ ((locale_after l k ≡ true) × (locale_after k l ≡ false))

module _ {N : Type 0} (locale_after : String → String → Bool) where
  -- The same value, but for the order in which the fields of its objects stand, at any depth.
  mutual
    pub data SameValue : Value N → Value N → Type 0 where
      itself : {v : Value N} → SameValue v v
      in_array : {vs ws : Items N} → SameItems vs ws → SameValue (arr vs) (arr ws)
      in_object : {fs gs : Fields N} → SameFields fs gs → SameValue (obj fs) (obj gs)

    pub data SameItems : Items N → Items N → Type 0 where
      no_items : SameItems nil nil
      more_items :
          {v w : Value N} {vs ws : Items N}
          → SameValue v w
          → SameItems vs ws
          → SameItems (cons v vs) (cons w ws)

    pub data SameFields : Fields N → Fields N → Type 0 where
      no_fields : SameFields end end
      more_fields :
          {k : String} {v w : Value N} {fs gs : Fields N}
          → SameValue v w
          → SameFields fs gs
          → SameFields (field k v fs) (field k w gs)
      swapped :
          {k l : String} {v w : Value N} {fs : Fields N}
          → IsApart locale_after k l
          → SameFields (field k v (field l w fs)) (field l w (field k v fs))
      in_turn : {fs gs hs : Fields N} → SameFields fs gs → SameFields gs hs → SameFields fs hs

  module _
      (trans : (a b c : String)
        → locale_after a b ≡ true
        → locale_after b c ≡ true
        → locale_after a c ≡ true) where
    swap_entries :
        (k l : String) (v w : Value N) (es : List (String × Value N))
        → IsApart locale_after k l
        → sort (key_after locale_after) ((k, v) ∷ (l, w) ∷ es)
          ≡ sort (key_after locale_after) ((l, w) ∷ (k, v) ∷ es)
    unfolding sort
    swap_entries k l v w es (inl (after, before)) =
        insert_sorted_comm (key_after locale_after) (λ (a, _) (b, _) (c, _) h g. trans a b c h g)
          (k, v) (l, w) _ after before
    swap_entries k l v w es (inr (after, before)) = sym (
        insert_sorted_comm (key_after locale_after) (λ (a, _) (b, _) (c, _) h g. trans a b c h g)
          (l, w) (k, v) _ after before)

    mutual
      unfolding normalize sort

      normalize-SameValue :
          (v w : Value N) → SameValue v w → normalize locale_after v ≡ normalize locale_after w
      normalize-SameValue v w itself = refl
      normalize-SameValue v w (in_array h) = ap arr (normalize_items-SameItems _ _ h)
      normalize-SameValue v w (in_object h) =
          ap (λ es. obj (from_entries es)) (sorted-SameFields _ _ h)

      normalize_items-SameItems :
          (vs ws : Items N)
          → SameItems vs ws
          → normalize_items locale_after vs ≡ normalize_items locale_after ws
      normalize_items-SameItems vs ws no_items = refl
      normalize_items-SameItems vs ws (more_items h hs) =
          ap₂ cons (normalize-SameValue _ _ h) (normalize_items-SameItems _ _ hs)

      sorted-SameFields :
          (fs gs : Fields N)
          → SameFields fs gs
          → sort (key_after locale_after) (normalize_entries locale_after fs)
            ≡ sort (key_after locale_after) (normalize_entries locale_after gs)
      sorted-SameFields fs gs no_fields = refl
      sorted-SameFields fs gs (more_fields {k} h hs) =
          ap₂ (λ u es. insert_sorted (key_after locale_after) (k, u) es) (normalize-SameValue _ _ h)
            (sorted-SameFields _ _ hs)
      sorted-SameFields fs gs (swapped apart) = swap_entries _ _ _ _ _ apart
      sorted-SameFields fs gs (in_turn h g) = sorted-SameFields _ _ h ∙ sorted-SameFields _ _ g

    -- Where the collation is transitive, two values that differ only in the order in which the fields
    -- of their objects stand, at any depth, have the same canonical text, if the collation tells the
    -- keys apart that change places.
    pub canonicalize_governed_copy-SameValue :
        (js : Runtime N) (v w : Value N)
        → SameValue v w
        → canonicalize_governed_copy js locale_after v
          ≡ canonicalize_governed_copy js locale_after w
    unfolding canonicalize_governed_copy
    canonicalize_governed_copy-SameValue js v w h = ap js.stringify (normalize-SameValue v w h)
