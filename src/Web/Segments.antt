-- ===== src/Web/Segments.antt =====
-- apps/web/src/app/api/control/[...path]/route.ts: the path of the URL that the proxy makes of its
-- segments.
use Prim.Native.Char.{Char, code}
use Prim.Native.String.{[], ◌∷◌}
use text.Mathlib.TextLemmas.{cons-append, append_assoc}
use text.Mathlib.TextEquality.{Char-path}
use agent_promotion_control.Prelude.{
  ℕ, ◌≡◌, ◌≢◌, refl, ap, ◌∙◌, sym, String, Bool, true, false, ◌||◌, List, [], ◌∷◌, map, any, inl,
  inr, arith, nat_eq, eq_iff, ◌==◌, Bool-cases,
}
use agent_promotion_control.Js.{◌^^◌, is_unreserved, utf8, percent, encode_uri_component}
use agent_promotion_control.Routes.Laws.{utf8-ne, encode_uri_component-ne}
use agent_promotion_control.Web.Proxy.{put_back, resolve_dots}

-- The segments of a path that are not names.
abbrev pub is_dots : String → Bool
is_dots s = s == ".." || s == "."

abbrev first_code : String → ℕ
first_code [] = 0
first_code (c ∷ s) = code c

percent-first : (bs : List ℕ) (t : String) → bs ≢ [] → first_code (percent bs ^^ t) ≡ b'%'
unfolding percent ◌^^◌
percent-first [] t ne = absurd (ne refl)
percent-first (b ∷ bs) t ne = ap first_code (append_assoc "%" _ t ∙ cons-append "%" [] _)

abbrev rest_of : String → String
rest_of [] = []
rest_of (c ∷ s) = s

encode_uri_component-plain :
    (c : Char) (s : String)
    → is_unreserved (code c) ≡ true
    → encode_uri_component (c ∷ s) ≡ String.◌∷◌ c (encode_uri_component s)
unfolding encode_uri_component
encode_uri_component-plain c s plain = rw plain refl

encode_uri_component-coded :
    (c : Char) (s : String)
    → is_unreserved (code c) ≡ false
    → encode_uri_component (c ∷ s) ≡ percent (utf8 (code c)) ^^ encode_uri_component s
unfolding encode_uri_component
encode_uri_component-coded c s coded = rw coded refl

encode_uri_component_nothing : encode_uri_component "" ≡ ""
unfolding encode_uri_component
encode_uri_component_nothing = refl

nat_eq-ne : (m n : ℕ) → nat_eq m n ≡ false → m ≢ n
nat_eq-ne m n h e = ground arith

-- An encoded text that starts with a dot is that of a text that does.
encode_uri_component-dot :
    (s : String)
    → first_code (encode_uri_component s) ≡ b'.'
    → (s ≡ String.◌∷◌ "." (rest_of s))
      × (rest_of (encode_uri_component s) ≡ encode_uri_component (rest_of s))
encode_uri_component-dot [] h =
    absurd (nat_eq-ne 0 b'.' refl (sym (ap first_code encode_uri_component_nothing) ∙ h))
encode_uri_component-dot (c ∷ s) h = elim (Bool-cases (is_unreserved (code c))) [
  | inl plain ↦
      let same = encode_uri_component-plain c s plain in
      (ap (λ d. d ∷ s) (Char-path c "." (sym (ap first_code same) ∙ h)), ap rest_of same)
  | inr coded ↦ absurd (
      nat_eq-ne b'%' b'.' refl (
        sym (percent-first (utf8 (code c)) (encode_uri_component s) (utf8-ne (code c)))
        ∙ sym (ap first_code (encode_uri_component-coded c s coded))
        ∙ h))
]

encode_uri_component-nil : (s : String) → encode_uri_component s ≡ "" → s ≡ ""
encode_uri_component-nil [] h = refl
encode_uri_component-nil (c ∷ s) h = absurd (encode_uri_component-ne (c ∷ s) (λ e. cc e) h)

encode_uri_component-one : (s : String) → encode_uri_component s ≡ "." → s ≡ "."
encode_uri_component-one s h =
    let dot = encode_uri_component-dot s (ap first_code h) in
    dot.0 ∙ ap (String.◌∷◌ ".") (encode_uri_component-nil (rest_of s) (sym dot.1 ∙ ap rest_of h))

encode_uri_component-two : (s : String) → encode_uri_component s ≡ ".." → s ≡ ".."
encode_uri_component-two s h =
    let dot = encode_uri_component-dot s (ap first_code h) in
    dot.0 ∙ ap (String.◌∷◌ ".") (encode_uri_component-one (rest_of s) (sym dot.1 ∙ ap rest_of h))

-- Only dots are encoded as dots.
encode_uri_component-dots :
    (s : String) → is_dots s ≡ false → is_dots (encode_uri_component s) ≡ false
encode_uri_component-dots s h =
    let encoded = encode_uri_component s in
    ground (
      arith,
      eq_iff encoded "..",
      eq_iff encoded ".",
      eq_iff s "..",
      eq_iff s ".",
      encode_uri_component-one s,
      encode_uri_component-two s,
    )

or-eq-false : (a b : Bool) → (a || b) ≡ false → (a ≡ false) × (b ≡ false)
or-eq-false true b h = cc h
or-eq-false false b h = (refl, h)

-- Where no segment is a dot segment, nothing is resolved.
resolve_dots-put_back :
    (done segments : List String)
    → any is_dots segments ≡ false
    → resolve_dots done segments ≡ put_back done segments
unfolding resolve_dots put_back
resolve_dots-put_back done [] h = refl
resolve_dots-put_back done (s ∷ segments) h =
    let parts = or-eq-false (is_dots s) _ h in
    let names = or-eq-false (s == "..") _ parts.0 in
    rw (names.0, names.1) (resolve_dots-put_back (s ∷ done) segments parts.1)

pub resolve_dots-encoded :
    (segments : List String)
    → any is_dots segments ≡ false
    → resolve_dots [] (map encode_uri_component segments) ≡ map encode_uri_component segments
unfolding put_back
resolve_dots-encoded segments h =
    resolve_dots-put_back [] (map encode_uri_component segments) (any-encoded segments h)
  where
    any-encoded :
        (ss : List String)
        → any is_dots ss ≡ false
        → any is_dots (map encode_uri_component ss) ≡ false
    any-encoded [] h = refl
    any-encoded (s ∷ ss) h = ground (arith, encode_uri_component-dots s, any-encoded ss)
