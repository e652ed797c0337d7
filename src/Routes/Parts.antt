-- ===== src/Routes/Parts.antt =====
-- packages/promotion-ui/src/routes.ts, about paths that are joined from their parts.
use text.Mathlib.TextLemmas.{nil-append, append-eq-nil_iff}
use agent_promotion_control.Prelude.{
  String, ◌≡◌, ◌≢◌, refl, ap, ◌∙◌, sym, true, List, [], ◌∷◌, map, All,
}
use agent_promotion_control.Js.{◌^^◌, split, join, non_empty, encode_uri_component}
use agent_promotion_control.Routes.{
  before_query, drop_slashes, drop_prefix, route_of, parse_promotion_route,
}
use agent_promotion_control.Routes.Laws.{
  lacks, lacks-^^, before_query-lacks, drop_slashes-lacks, drop_slashes-^^, not_empty, split-lacks,
  split-^^, slash-IsSeparator, lacks-encode_uri_component,
}

-- A part of a path: it is not empty, and has no slash and no question mark.
pub record IsPart (s : String) : Type 0 where
  pub there : s ≢ ""
  pub no_slash : lacks b'/' s ≡ true
  pub no_query : lacks b'?' s ≡ true

pub split-join :
    (a : String) (rest : List String)
    → lacks b'/' a ≡ true
    → All (λ s. lacks b'/' s ≡ true) rest
    → split b'/' (join "/" (a ∷ rest)) ≡ a ∷ rest
unfolding join
split-join a [] h hs = split-lacks a h
split-join a (b ∷ rest) h (k, hs) =
    split-^^ a (join "/" (b ∷ rest)) h ∙ ap (◌∷◌ a) (split-join b rest k hs)

-- Encoded segments stay apart.
pub split-encoded :
    (a : String) (rest : List String)
    → split b'/' (join "/" (map encode_uri_component (a ∷ rest)))
      ≡ map encode_uri_component (a ∷ rest)
split-encoded a rest =
    split-join (encode_uri_component a) (map encode_uri_component rest)
      (lacks-encode_uri_component b'/' slash-IsSeparator a) (encoded rest)
  where
    encoded : (ss : List String) → All (λ s. lacks b'/' s ≡ true) (map encode_uri_component ss)
    encoded [] = tt
    encoded (s ∷ ss) = (lacks-encode_uri_component b'/' slash-IsSeparator s, encoded ss)

join-ne : (a : String) (rest : List String) → a ≢ "" → join "/" (a ∷ rest) ≢ ""
unfolding join ◌^^◌
join-ne a [] ne h = ne h
join-ne a (b ∷ rest) ne h = ne ((append-eq-nil_iff {p = a}).0 h).0

lacks-join :
    (a : String) (rest : List String)
    → IsPart a
    → All IsPart rest
    → lacks b'?' (join "/" (a ∷ rest)) ≡ true
unfolding join lacks
lacks-join a [] p ps = p.no_query
lacks-join a (b ∷ rest) p (q, ps) =
    lacks-^^ b'?' a _ p.no_query (lacks-^^ b'?' "/" _ refl (lacks-join b rest q ps))

slash-ne : (s : String) → s ≢ "" → ("/" ^^ s) ≢ ""
unfolding ◌^^◌
slash-ne s ne h = ne ((append-eq-nil_iff {p = "/"}).0 h).1

drop_slashes-join :
    (a : String) (rest : List String)
    → IsPart a
    → All IsPart rest
    → drop_slashes (join "/" (a ∷ rest)) ≡ join "/" (a ∷ rest)
unfolding join
drop_slashes-join a [] p ps = drop_slashes-lacks a p.no_slash
drop_slashes-join a (b ∷ rest) p (q, ps) =
    let tail = join "/" (b ∷ rest) in
    let tail_ne = join-ne b rest q.there in
    drop_slashes-^^ a ("/" ^^ tail) (slash-ne tail tail_ne)
      (drop_slashes-^^ "/" tail tail_ne (drop_slashes-join b rest q ps))

non_empty-parts : (ss : List String) → All IsPart ss → non_empty ss ≡ ss
unfolding non_empty
non_empty-parts [] ps = refl
non_empty-parts (s ∷ ss) (p, ps) = rw (not_empty s p.there, non_empty-parts ss ps) refl

no_slashes : (ss : List String) → All IsPart ss → All (λ s. lacks b'/' s ≡ true) ss
no_slashes [] ps = tt
no_slashes (s ∷ ss) (p, ps) = (p.no_slash, no_slashes ss ps)

-- The path of these parts is read as these parts.
pub parse_parts :
    (a : String) (rest : List String)
    → IsPart a
    → All IsPart rest
    → parse_promotion_route ("/" ^^ join "/" (a ∷ rest)) ≡ route_of (drop_prefix (a ∷ rest))
unfolding parse_promotion_route non_empty lacks ◌^^◌
parse_parts a rest p ps =
    let whole = join "/" (a ∷ rest) in
    let whole_ne = join-ne a rest p.there in
    let path = "/" ^^ whole in
    let kept : before_query path ≡ path =
      before_query-lacks path (lacks-^^ b'?' "/" whole refl (lacks-join a rest p ps)) in
    let undropped : drop_slashes path ≡ path =
      drop_slashes-^^ "/" whole whole_ne (drop_slashes-join a rest p ps) in
    let path_ne : path ≢ "" = λ e. whole_ne ((append-eq-nil_iff {p = "/"}).0 e).1 in
    let parts : split b'/' path ≡ "" ∷ a ∷ rest =
      ap (split b'/') (sym (nil-append path))
      ∙ split-^^ "" whole refl
      ∙ ap (◌∷◌ "") (split-join a rest p.no_slash (no_slashes rest ps)) in
    rw
      (kept, undropped, not_empty path path_ne, parts, not_empty a p.there, non_empty-parts rest ps)
      refl
