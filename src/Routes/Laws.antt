-- ===== src/Routes/Laws.antt =====
-- packages/promotion-ui/src/routes.ts, about the paths that are built: they parse back.
use Prim.Native.Char.{code}
use Prim.Native.String
use Prim.Native.String.{[], ◌∷◌}
use text.Mathlib.TextLemmas.{nil-append, cons-append, append_assoc, append-eq-nil_iff}
use agent_promotion_control.Prelude.{
  ℕ, zero, suc, ◌/◌, ◌%◌, String, Bool, ◌≡◌, ◌≢◌, refl, ap, ◌∙◌, sym, true, false, not, ◌&&◌, inl,
  inr, List, [], ◌∷◌, arith, nat_eq, ltb, Bool-cases, ◌==◌, eq_iff,
}
use agent_promotion_control.Js.{
  ◌^^◌, split, non_empty, is_unreserved, utf8, digit_at, hex_digit, percent, encode_uri_component,
}
use agent_promotion_control.Routes.{
  candidate, evaluation, registry_agent, route_to, before_query, drop_slashes, drop_prefix,
  route_of, parse_promotion_route, candidate_route, evaluation_route, registry_agent_route,
}

-- The character with this code does not occur.
unfoldable pub lacks : ℕ → String → Bool
lacks n [] = true
lacks n (c ∷ s) = not (nat_eq (code c) n) && lacks n s

pub lacks-^^ :
    (n : ℕ) (s t : String) → lacks n s ≡ true → lacks n t ≡ true → lacks n (s ^^ t) ≡ true
unfolding lacks ◌^^◌
lacks-^^ n [] t h k = rw (nil-append t) k
lacks-^^ n (c ∷ s) t h k = rw (cons-append c s t) (ground (arith, lacks-^^ n s t))

lacks-digit_at : (n : ℕ) (s : String) (d : ℕ) → lacks n s ≡ true → lacks n (digit_at s d) ≡ true
unfolding lacks digit_at
lacks-digit_at n [] d h = refl
lacks-digit_at n (c ∷ s) zero h = ground arith
lacks-digit_at n (c ∷ s) (suc d) h = lacks-digit_at n s d (ground arith)

-- A separator of paths or queries: neither it nor its code stands in an encoded text.
pub record IsSeparator (n : ℕ) : Type 0 where
  reserved : is_unreserved n ≡ false
  no_percent : lacks n "%" ≡ true
  no_digit : lacks n "0123456789ABCDEF" ≡ true

module _ (n : ℕ) (separator : IsSeparator n) where
  open separator use {reserved, no_percent, no_digit}

  lacks-percent : (bs : List ℕ) → lacks n (percent bs) ≡ true
  unfolding percent lacks hex_digit
  lacks-percent [] = refl
  lacks-percent (b ∷ bs) = lacks-^^ n "%" _ no_percent (
      lacks-^^ n (hex_digit (b / 16)) _ (lacks-digit_at n "0123456789ABCDEF" (b / 16) no_digit) (
        lacks-^^ n (hex_digit (b % 16)) _ (lacks-digit_at n "0123456789ABCDEF" (b % 16) no_digit)
          (lacks-percent bs)))

  pub lacks-encode_uri_component : (s : String) → lacks n (encode_uri_component s) ≡ true
  unfolding encode_uri_component lacks
  lacks-encode_uri_component [] = refl
  lacks-encode_uri_component (c ∷ s) = elim (Bool-cases (is_unreserved (code c))) [
    | inl plain ↦
        let other : nat_eq (code c) n ≡ false = elim (Bool-cases (nat_eq (code c) n)) [
          | inl same ↦ cc (ap is_unreserved (nat_eq-eq (code c) n same), plain, reserved)
          | inr other ↦ other
        ] in
        rw (plain, other) (lacks-encode_uri_component s)
    | inr coded ↦ rw coded (
        lacks-^^ n (percent (utf8 (code c))) _ (lacks-percent (utf8 (code c)))
          (lacks-encode_uri_component s))
  ]
    where
      nat_eq-eq : (m n : ℕ) → nat_eq m n ≡ true → m ≡ n
      nat_eq-eq m n h = ground arith

pub before_query-lacks : (s : String) → lacks b'?' s ≡ true → before_query s ≡ s
unfolding before_query lacks
before_query-lacks [] h = refl
before_query-lacks (c ∷ s) h = ground (arith, before_query-lacks s)

pub drop_slashes-lacks : (s : String) → lacks b'/' s ≡ true → drop_slashes s ≡ s
unfolding drop_slashes lacks
drop_slashes-lacks [] h = refl
drop_slashes-lacks (c ∷ s) h = ground (arith, drop_slashes-lacks s)

pub not_empty : (s : String) → s ≢ "" → (s == "") ≡ false
not_empty s ne = ground (arith, eq_iff s "")

pub drop_slashes-^^ : (s t : String) → t ≢ "" → drop_slashes t ≡ t → drop_slashes (s ^^ t) ≡ s ^^ t
unfolding drop_slashes ◌^^◌
drop_slashes-^^ [] t ne h = rw (nil-append t) h
drop_slashes-^^ (c ∷ s) t ne h =
    let present : (String.◌++◌ s t == "") ≡ false =
      not_empty (String.◌++◌ s t) (λ e. ne ((append-eq-nil_iff {p = s}).0 e).1) in
    rw (cons-append c s t, drop_slashes-^^ s t ne h, present) (ground arith)

pub split-lacks : (s : String) → lacks b'/' s ≡ true → split b'/' s ≡ s ∷ []
unfolding split lacks
split-lacks [] h = refl
split-lacks (c ∷ s) h = ground (arith, split-lacks s)

pub split-^^ :
    (p t : String) → lacks b'/' p ≡ true → split b'/' (p ^^ ("/" ^^ t)) ≡ p ∷ split b'/' t
unfolding split lacks ◌^^◌
split-^^ [] t h = rw (nil-append (String.◌++◌ "/" t), cons-append "/" [] t, nil-append t) refl
split-^^ (c ∷ p) t h = rw (cons-append c p (String.◌++◌ "/" t)) (ground (arith, split-^^ p t))

-- A path of two parts.
parse_two :
    (name part : String)
    → lacks b'/' name ≡ true
    → lacks b'?' name ≡ true
    → lacks b'/' part ≡ true
    → lacks b'?' part ≡ true
    → name ≢ ""
    → part ≢ ""
    → parse_promotion_route ("/" ^^ (name ^^ ("/" ^^ part)))
      ≡ route_of (drop_prefix (name ∷ part ∷ []))
unfolding parse_promotion_route lacks ◌^^◌ non_empty
parse_two name part hn qn hp qp nn np =
    let tail = "/" ^^ part in
    let rest = name ^^ tail in
    let path = "/" ^^ rest in
    let all_there : before_query path ≡ path =
      before_query-lacks path (
        lacks-^^ b'?' "/" rest refl
          (lacks-^^ b'?' name tail qn (lacks-^^ b'?' "/" part refl qp))) in
    let rest_there : rest ≢ "" = λ e. nn ((append-eq-nil_iff {p = name}).0 e).0 in
    let path_there : path ≢ "" = λ e. rest_there ((append-eq-nil_iff {p = "/"}).0 e).1 in
    let tail_there : tail ≢ "" = λ e. np ((append-eq-nil_iff {p = "/"}).0 e).1 in
    let no_slashes : drop_slashes path ≡ path = drop_slashes-^^ "/" rest rest_there (
      drop_slashes-^^ name tail tail_there
        (drop_slashes-^^ "/" part np (drop_slashes-lacks part hp))) in
    let parts : split b'/' path ≡ "" ∷ name ∷ part ∷ [] =
      ap (split b'/') (sym (nil-append path))
      ∙ split-^^ "" rest refl
      ∙ ap (◌∷◌ "") (split-^^ name part hn ∙ ap (◌∷◌ name) (split-lacks part hp)) in
    rw
      (
        all_there,
        no_slashes,
        not_empty path path_there,
        parts,
        not_empty name nn,
        not_empty part np,
      )
      refl

pub utf8-ne : (n : ℕ) → utf8 n ≢ []
unfolding utf8
utf8-ne n h = elim (Bool-cases (ltb n 0x80)) [
  | inl one ↦ cc (rw one at h)
  | inr more ↦ elim (Bool-cases (ltb n 0x800)) [
    | inl two ↦ cc (rw (more, two) at h)
    | inr longer ↦ elim (Bool-cases (ltb n 0x10000)) [
      | inl three ↦ cc (rw (more, longer, three) at h)
      | inr four ↦ cc (rw (more, longer, four) at h)
    ]
  ]
]

percent-ne : (bs : List ℕ) → bs ≢ [] → percent bs ≢ ""
unfolding percent ◌^^◌
percent-ne [] ne h = ne refl
percent-ne (b ∷ bs) ne h = cc (((append-eq-nil_iff {p = "%"}).0 h).0)

pub encode_uri_component-ne : (id : String) → id ≢ "" → encode_uri_component id ≢ ""
unfolding encode_uri_component ◌^^◌ percent
encode_uri_component-ne [] ne h = ne refl
encode_uri_component-ne (c ∷ s) ne h = elim (Bool-cases (is_unreserved (code c))) [
  | inl plain ↦ cc (rw plain at h)
  | inr coded ↦
      percent-ne (utf8 (code c)) (utf8-ne (code c))
        ((append-eq-nil_iff {p = percent (utf8 (code c))}).0 (rw coded at h)).0
]

pub slash-IsSeparator : IsSeparator b'/'
unfolding lacks is_unreserved
slash-IsSeparator = record { reserved = refl; no_percent = refl; no_digit = refl }

query-IsSeparator : IsSeparator b'?'
unfolding lacks is_unreserved
query-IsSeparator = record { reserved = refl; no_percent = refl; no_digit = refl }

-- The path of one item of a collection.
parse_item :
    (name id : String)
    → lacks b'/' name ≡ true
    → lacks b'?' name ≡ true
    → name ≢ ""
    → id ≢ ""
    → parse_promotion_route ("/" ^^ (name ^^ ("/" ^^ encode_uri_component id)))
      ≡ route_of (drop_prefix (name ∷ encode_uri_component id ∷ []))
parse_item name id hn qn nn ne =
    parse_two name (encode_uri_component id) hn qn
      (lacks-encode_uri_component b'/' slash-IsSeparator id)
      (lacks-encode_uri_component b'?' query-IsSeparator id) nn (encode_uri_component-ne id ne)

-- For an id that is not empty, the paths of a candidate, an evaluation and a registry agent, which
-- hold the id percent-encoded, parse to the route of that name with the id still encoded.
pub parse_promotion_route-candidate_route :
    (id : String)
    → id ≢ ""
    → (parse_promotion_route (candidate_route id) ≡ route_to candidate (encode_uri_component id))
      × (parse_promotion_route (evaluation_route id)
          ≡ route_to evaluation (encode_uri_component id))
      × (parse_promotion_route (registry_agent_route id)
          ≡ route_to registry_agent (encode_uri_component id))
unfolding candidate_route evaluation_route registry_agent_route route_of drop_prefix lacks ◌^^◌
parse_promotion_route-candidate_route id ne = (
  item "candidates" refl refl (ground (arith, eq_iff "candidates" "")),
  item "evaluations" refl refl (ground (arith, eq_iff "evaluations" "")),
  item "registry" refl refl (ground (arith, eq_iff "registry" "")),
)
  where
    item :
        (name : String)
        → lacks b'/' name ≡ true
        → lacks b'?' name ≡ true
        → name ≢ ""
        → parse_promotion_route
            (String.◌++◌ (String.◌++◌ "/" (String.◌++◌ name "/")) (encode_uri_component id))
          ≡ route_of (drop_prefix (name ∷ encode_uri_component id ∷ []))
    item name hn qn nn =
        ap parse_promotion_route (
          append_assoc "/" (String.◌++◌ name "/") (encode_uri_component id)
          ∙ ap (String.◌++◌ "/") (append_assoc name "/" (encode_uri_component id)))
        ∙ parse_item name id hn qn nn ne
