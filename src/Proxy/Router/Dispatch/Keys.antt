-- ===== src/Proxy/Router/Dispatch/Keys.antt =====
-- A route of internal/proxy/router.go that matches a path has the key of the path.
use gh_aw_mcpg.Common.{
  Bool, List, Option, Option-cases, [], arith, eqb, false, inl, inr, is_nil, none, not, refl, some,
  true, ◌++◌, ◌||◌, ◌∙◌, ◌∷◌, ◌≡◌,
}
use gh_aw_mcpg.Common.Split.{cut_at}
use gh_aw_mcpg.Common.Text.{Str, bytes, has_byte, str_eq, strip_prefix}
use gh_aw_mcpg.Proxy.Router.{
  Piece, group, match_pieces, not_slash, number, one_of, optional_rest, optional_segment,
  optional_skipped, segment, span, tail, text,
}
use gh_aw_mcpg.Proxy.Router.Args.{in_repo}
use gh_aw_mcpg.Proxy.Router.Dispatch.{
  after_slash, first_segment, repo_key, route_match_key, without_prefix,
}

strip_prefix-append : (t s rest : Str) → strip_prefix t s ≡ some rest → s ≡ t ++ rest
unfolding strip_prefix
strip_prefix-append [] s rest h = ground arith
strip_prefix-append (b ∷ t) [] rest h = ground arith
strip_prefix-append (b ∷ t) (c ∷ s) rest h = ground (arith, strip_prefix-append t s rest)

-- a path with a text and a match of what follows
match_pieces-text :
    (t : Str) (ps : List Piece) (s : Str) (groups : List Str)
    → match_pieces (text t ∷ ps) s ≡ some groups
    → (rest : Str) × (s ≡ t ++ rest) × (match_pieces ps rest ≡ some groups)
unfolding match_pieces
match_pieces-text t ps s groups h = elim (Option-cases (strip_prefix t s)) [
  | inl e ↦ ground arith
  | inr (rest, e) ↦ (rest, strip_prefix-append t s rest e, ground arith)
]

match_pieces-strip_prefix :
    (t : Str) (ps : List Piece) (s : Str) (groups : List Str)
    → match_pieces (text t ∷ ps) s ≡ some groups
    → (rest : Str) × (strip_prefix t s ≡ some rest) × (match_pieces ps rest ≡ some groups)
unfolding match_pieces
match_pieces-strip_prefix t ps s groups h = elim (Option-cases (strip_prefix t s)) [
  | inl e ↦ ground arith
  | inr (rest, e) ↦ (rest, e, ground arith)
]

group-some :
    (s : Str) (rest : Option (List Str)) (groups : List Str)
    → group s rest ≡ some groups
    → (inner : List Str) × (rest ≡ some inner)
group-some [] rest groups h = ground arith
group-some (c ∷ s) none groups h = ground arith
group-some (c ∷ s) (some inner) groups h = (inner, refl)

match_pieces-segment :
    (ps : List Piece) (s : Str) (groups : List Str)
    → match_pieces (segment ∷ ps) s ≡ some groups
    → (inner : List Str) × (match_pieces ps (span not_slash s).1 ≡ some inner)
unfolding match_pieces
match_pieces-segment ps s groups h =
    group-some (span not_slash s).0 (match_pieces ps (span not_slash s).1) groups h

after_slash-span : (s rest : Str) → (span not_slash s).1 ≡ b'/' ∷ rest → after_slash s ≡ some rest
unfolding after_slash span cut_at
after_slash-span [] rest h = ground arith
after_slash-span (c ∷ s) rest h = ground (arith, after_slash-span s rest)

-- a segment that a slash follows
after_slash-segment :
    (t : Str) (ps : List Piece) (s : Str) (groups : List Str)
    → match_pieces (segment ∷ text (b'/' ∷ t) ∷ ps) s ≡ some groups
    → (rest : Str) × (inner : List Str) × (after_slash s ≡ some (t ++ rest))
      × (match_pieces ps rest ≡ some inner)
after_slash-segment t ps s groups h =
    let (inner, m) = match_pieces-segment (text (b'/' ∷ t) ∷ ps) s groups h in
    let (rest, e, below) = match_pieces-text (b'/' ∷ t) ps (span not_slash s).1 inner m in
    (rest, inner, after_slash-span s (t ++ rest) e, below)

-- what follows a text ends its last segment
abbrev closes : List Piece → Bool
closes [] = true
closes (optional_segment ∷ ps) = true
closes other = false

first_segment-closes :
    (ps : List Piece) (rest : Str) (groups : List Str)
    → closes ps ≡ true
    → match_pieces ps rest ≡ some groups
    → first_segment rest ≡ []
unfolding match_pieces first_segment span
first_segment-closes [] [] groups c h = refl
first_segment-closes [] (b ∷ rest) groups c h = ground arith
first_segment-closes (optional_segment ∷ ps) [] groups c h = refl
first_segment-closes (optional_segment ∷ ps) (b ∷ rest) groups c h = ground arith
first_segment-closes (text t ∷ ps) rest groups c h = ground arith
first_segment-closes (segment ∷ ps) rest groups c h = ground arith
first_segment-closes (number ∷ ps) rest groups c h = ground arith
first_segment-closes (tail ∷ ps) rest groups c h = ground arith
first_segment-closes (one_of ts ∷ ps) rest groups c h = ground arith
first_segment-closes (optional_skipped ∷ ps) rest groups c h = ground arith
first_segment-closes (optional_rest ∷ ps) rest groups c h = ground arith

first_segment-append :
    (t rest : Str)
    → (has_byte b'/' t || is_nil (first_segment rest)) ≡ true
    → first_segment (t ++ rest) ≡ first_segment t
unfolding first_segment span has_byte
first_segment-append [] rest h = ground arith
first_segment-append (c ∷ t) rest h = ground (arith, first_segment-append t rest)

abbrev pub ends : Str → List Piece → Bool
ends t ps = has_byte b'/' t || closes ps

first_segment-ends :
    (t rest : Str) (ps : List Piece) (groups : List Str)
    → ends t ps ≡ true
    → match_pieces ps rest ≡ some groups
    → first_segment (t ++ rest) ≡ first_segment t
first_segment-ends t rest ps groups e h =
    ground (arith, first_segment-append t rest, first_segment-closes ps rest groups)

route_match_key_below :
    (path below repo sub : Str)
    → strip_prefix (bytes "/repos/") path ≡ some below
    → after_slash below ≡ some repo
    → after_slash repo ≡ some sub
    → route_match_key path ≡ first_segment sub
unfolding route_match_key repo_key
route_match_key_below path below repo sub h i j = ground arith

pub route_match_key-in_repo :
    (t : Str) (ps : List Piece) (path : Str) (groups : List Str)
    → ends t ps ≡ true
    → match_pieces (in_repo (text (b'/' ∷ t) ∷ ps)) path ≡ some groups
    → route_match_key path ≡ first_segment t
route_match_key-in_repo t ps path groups e h =
    let inside = segment ∷ text (b'/' ∷ t) ∷ ps in
    let (below, stripped, m1) =
      match_pieces-strip_prefix (bytes "/repos/") (segment ∷ text (bytes "/") ∷ inside) path groups
        h in
    let (repo, g2, at_repo, m2) = after_slash-segment [] inside below groups m1 in
    let (rest, g3, at_sub, m3) = after_slash-segment t ps repo g2 m2 in
    route_match_key_below path below repo (t ++ rest) stripped at_repo at_sub
    ∙ first_segment-ends t rest ps g3 e m3

-- the two texts differ at a place that both have
abbrev pub clash : Str → Str → Bool
clash (b ∷ s) (c ∷ t) = not (eqb b c) || clash s t
clash s t = false

strip_prefix-clash :
    (prefix t rest : Str) → clash prefix t ≡ true → strip_prefix prefix (t ++ rest) ≡ none
unfolding strip_prefix
strip_prefix-clash [] t rest h = ground arith
strip_prefix-clash (b ∷ s) [] rest h = ground arith
strip_prefix-clash (b ∷ s) (c ∷ t) rest h = ground (arith, strip_prefix-clash s t rest)

without_prefix-slash : (s : Str) → without_prefix (bytes "/") (b'/' ∷ s) ≡ s
unfolding strip_prefix
without_prefix-slash s = refl

route_match_key_top :
    (s : Str)
    → strip_prefix (bytes "/repos/") (b'/' ∷ s) ≡ none
    → route_match_key (b'/' ∷ s) ≡ first_segment s
unfolding route_match_key
route_match_key_top s h = ground (arith, without_prefix-slash s)

pub route_match_key-text :
    (t : Str) (ps : List Piece) (path : Str) (groups : List Str)
    → clash (bytes "/repos/") (b'/' ∷ t) ≡ true
    → ends t ps ≡ true
    → match_pieces (text (b'/' ∷ t) ∷ ps) path ≡ some groups
    → route_match_key path ≡ first_segment t
route_match_key-text t ps path groups c e h =
    let (rest, at, m) = match_pieces-text (b'/' ∷ t) ps path groups h in
    rw at (
      route_match_key_top (t ++ rest) (strip_prefix-clash (bytes "/repos/") (b'/' ∷ t) rest c)
      ∙ first_segment-ends t rest ps groups e m)
