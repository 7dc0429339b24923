-- ===== src/Proxy/Router/Dispatch/Matches.antt =====
-- The routes of internal/proxy/router.go with a key match only the paths with that key.
-- the two forms of a pattern with a key: below a repository, and at the top
use gh_aw_mcpg.Common.{
  Bool, Bool-cases, List, Option, Option-cases, [], ap, arith, eqb, false, inl, inr, is_nil, keep,
  none, not, refl, some, sym, true, ℕ, ◌&&◌, ◌==◌, ◌∙◌, ◌∷◌, ◌≡◌,
}
use gh_aw_mcpg.Common.Text.{Str, bytes, has_byte, join, str_beq, str_beq_iff, str_eq, strip_prefix}
use gh_aw_mcpg.Proxy.Router.{Piece, Route, match_pieces, segment, source, span, text}
use gh_aw_mcpg.Proxy.Router.Args.{in_repo}
use gh_aw_mcpg.Proxy.Router.Dispatch.{
  dispatch_key, first_match, first_segment, fixed_segment, or_next, route_match_key, try_match,
}
use gh_aw_mcpg.Proxy.Router.Dispatch.Keys.{
  clash, ends, route_match_key-in_repo, route_match_key-text,
}
use gh_aw_mcpg.Proxy.Router.Routes.{keyed_routes}

pub data Shape : List Piece → Type 0 where
  below_repo :
      (a b : Str) (c : ℕ) (t : Str) (ps : List Piece)
      → Shape (text a ∷ segment ∷ text b ∷ segment ∷ text (c ∷ t) ∷ ps)
  at_top : (c : ℕ) (t : Str) (ps : List Piece) → Shape (text (c ∷ t) ∷ ps)

abbrev pub shape : (ps : List Piece) → Option (Shape ps)
shape (text a ∷ segment ∷ text b ∷ segment ∷ text (c ∷ t) ∷ ps) = some (below_repo a b c t ps)
shape (text (c ∷ t) ∷ ps) = some (at_top c t ps)
shape other = none

-- the key that the paths of the form have
abbrev pub has_shape_key : {ps : List Piece} → Str → Option (Shape ps) → Bool
has_shape_key key none = false
has_shape_key key (some (below_repo a b c t ps)) =
    a == bytes "/repos/" && b == bytes "/" && eqb c b'/' && ends t ps && first_segment t == key
has_shape_key key (some (at_top c t ps)) =
    eqb c b'/' && clash (bytes "/repos/") (c ∷ t) && ends t ps && first_segment t == key

abbrev pub key_of : Route → Str
key_of r = dispatch_key (source r.pattern)

abbrev pub is_keyed : Route → Bool
is_keyed r = not (is_nil (key_of r)) && has_shape_key (key_of r) (shape r.pattern)

abbrev pub all_keyed : List Route → Bool
all_keyed [] = true
all_keyed (r ∷ rs) = is_keyed r && all_keyed rs

pub all_keyed-keyed_routes : all_keyed keyed_routes ≡ true
unfolding dispatch_key fixed_segment first_segment span strip_prefix has_byte str_beq join
all_keyed-keyed_routes = refl

shape-route_match_key :
    (ps : List Piece) (form : Shape ps) (key path : Str) (groups : List Str)
    → has_shape_key key (some form) ≡ true
    → match_pieces ps path ≡ some groups
    → route_match_key path ≡ key
shape-route_match_key ps (below_repo a b c t qs) key path groups h m =
    let at : a ≡ bytes "/repos/" = ground (arith, str_beq_iff a (bytes "/repos/")) in
    let next : b ≡ bytes "/" = ground (arith, str_beq_iff b (bytes "/")) in
    let slash : c ≡ b'/' = ground arith in
    let same : match_pieces (text a ∷ segment ∷ text b ∷ segment ∷ text (c ∷ t) ∷ qs) path
        ≡ match_pieces (in_repo (text (b'/' ∷ t) ∷ qs)) path =
      rw (at, next, slash) refl in
    route_match_key-in_repo t qs path groups (ground arith) (sym same ∙ m)
    ∙ ground (arith, str_beq_iff (first_segment t) key)
shape-route_match_key ps (at_top c t qs) key path groups h m =
    let slash : c ≡ b'/' = ground arith in
    let same : match_pieces (text (c ∷ t) ∷ qs) path ≡ match_pieces (text (b'/' ∷ t) ∷ qs) path =
      rw slash refl in
    let differs : clash (bytes "/repos/") (c ∷ t) ≡ true = ground arith in
    route_match_key-text t qs path groups
      (sym (ap (λ x. clash (bytes "/repos/") (x ∷ t)) slash) ∙ differs) (ground arith)
      (sym same ∙ m)
    ∙ ground (arith, str_beq_iff (first_segment t) key)

has_shape_key-route_match_key :
    (ps : List Piece) (form : Option (Shape ps)) (key path : Str) (groups : List Str)
    → has_shape_key key form ≡ true
    → match_pieces ps path ≡ some groups
    → route_match_key path ≡ key
has_shape_key-route_match_key ps none key path groups h m = ground arith
has_shape_key-route_match_key ps (some form) key path groups h m =
    shape-route_match_key ps form key path groups h m

is_keyed-route_match_key :
    (r : Route) (path : Str) (groups : List Str)
    → is_keyed r ≡ true
    → match_pieces r.pattern path ≡ some groups
    → route_match_key path ≡ key_of r
is_keyed-route_match_key r path groups h m =
    has_shape_key-route_match_key r.pattern (shape r.pattern) (key_of r) path groups (ground arith)
      m

-- a route with another key than the path does not match it
try_match_other :
    (r : Route) (path : Str)
    → is_keyed r ≡ true
    → (key_of r == route_match_key path) ≡ false
    → try_match path r ≡ none
unfolding try_match
try_match_other r path k h = elim (Option-cases (match_pieces r.pattern path)) [
  | inl e ↦ rw e refl
  | inr (groups, e) ↦ ground (
    arith,
    is_keyed-route_match_key r path groups k e,
    str_beq_iff (key_of r) (route_match_key path),
  )
]

pub first_match-keep :
    (path : Str) (rs : List Route)
    → all_keyed rs ≡ true
    → first_match path (keep (λ r. key_of r == route_match_key path) rs) ≡ first_match path rs
unfolding first_match keep or_next
first_match-keep path [] h = refl
first_match-keep path (r ∷ rs) h = elim (Bool-cases (key_of r == route_match_key path)) [
  | inl e ↦ rw e (ap (or_next (try_match path r)) (first_match-keep path rs (ground arith)))
  | inr e ↦
      rw (e, try_match_other r path (ground arith) e) (first_match-keep path rs (ground arith))
]

-- no route with a key matches a path without
pub first_match_keyless :
    (path : Str) (rs : List Route)
    → all_keyed rs ≡ true
    → route_match_key path ≡ []
    → first_match path rs ≡ none
unfolding first_match or_next
first_match_keyless path [] h e = refl
first_match_keyless path (r ∷ rs) h e = ground (
  arith,
  try_match_other r path,
  str_beq_iff (key_of r) (route_match_key path),
  first_match_keyless path rs,
)
