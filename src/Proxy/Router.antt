-- ===== src/Proxy/Router.antt =====
-- The routes of REST requests to the tools that their guard knows: internal/proxy/router.go. The regular
-- expressions of the table are lists of pieces, between `^` and `$`.
pub mod Args
pub mod Services
pub mod Routes
pub mod Dispatch
use gh_aw_mcpg.Common.{
  Bool, List, Option, [], arith, eqb, if◌then◌else◌, is_nil, leb, none, not, refl, some, ℕ, ◌&&◌,
  ◌++◌, ◌-◌, ◌||◌, ◌∷◌,
}
use gh_aw_mcpg.Common.Text.{Str, bytes, has_byte, join, str_eq, strip_prefix}

pub data Piece : Type 0 where
  text : Str → Piece
  segment number tail : Piece
  one_of : List Str → Piece
  optional_segment optional_skipped optional_rest : Piece

pub record Route : Type 0 where
  pub pattern : List Piece
  pub tool_name : Str
  pub extract_args : List Str → List (Str × Str)

pub record RouteMatch : Type 0 where
  pub tool_name : Str
  pub owner : Str
  pub repo : Str
  pub args : List (Str × Str)

-- `pattern.String()`
abbrev piece_source : Piece → Str
piece_source (text t) = t
piece_source segment = bytes "([^/]+)"
piece_source number = bytes "(\\d+)"
piece_source tail = bytes "(.+)"
piece_source (one_of ts) = bytes "(?:" ++ (join (bytes "|") ts ++ bytes ")")
piece_source optional_segment = bytes "(?:/([^/]+))?"
piece_source optional_skipped = bytes "(?:/[^/]+)?"
piece_source optional_rest = bytes "(?:/.*)?"

abbrev pieces_source : List Piece → Str
pieces_source [] = bytes "$"
pieces_source (p ∷ ps) = piece_source p ++ pieces_source ps

abbrev pub source : List Piece → Str
source ps = bytes "^" ++ pieces_source ps

-- the longest prefix of bytes that pass, and the rest
unfoldable pub span : (ℕ → Bool) → Str → Str × Str
span p [] = ([], [])
span p (c ∷ s) = let rest = span p s in if p c then (c ∷ rest.0, rest.1) else ([], c ∷ s)

abbrev pub not_slash : ℕ → Bool
not_slash c = not (eqb c b'/')

abbrev is_digit : ℕ → Bool
is_digit c = leb b'0' c && leb c b'9'

-- `.` stands for any byte but a line feed
abbrev one_line : Str → Bool
one_line s = not (has_byte b'\n' s)

abbrev captured : Str → Option (List Str) → Option (List Str)
captured s none = none
captured s (some groups) = some (s ∷ groups)

-- a group that may not be empty, before the match of what follows
abbrev group : Str → Option (List Str) → Option (List Str)
group [] rest = none
group (c ∷ s) rest = captured (c ∷ s) rest

-- the alternatives in order, with the match of what follows
unfoldable pub first_alternative : (Str → Option (List Str)) → List Str → Str → Option (List Str)
first_alternative match [] s = none
first_alternative match (t ∷ ts) s = elim (strip_prefix t s) [
  | none ↦ first_alternative match ts s
  | some rest ↦ elim (match rest) [
    | none ↦ first_alternative match ts s
    | some groups ↦ some groups
  ]
]

-- The groups of `FindStringSubmatch`. A segment and a number are followed by a slash or the end, so the
-- longest one is the only one that fits.
unfoldable pub match_pieces : List Piece → Str → Option (List Str)
match_pieces [] s = if is_nil s then some [] else none
match_pieces (text t ∷ ps) s = elim (strip_prefix t s) [
  | none ↦ none
  | some rest ↦ match_pieces ps rest
]
match_pieces (segment ∷ ps) s =
    let parts = span not_slash s in group parts.0 (match_pieces ps parts.1)
match_pieces (number ∷ ps) s =
    let parts = span is_digit s in group parts.0 (match_pieces ps parts.1)
match_pieces (tail ∷ ps) s =
    if is_nil s || not (one_line s) then none else captured s (match_pieces ps [])
match_pieces (one_of ts ∷ ps) s = first_alternative (match_pieces ps) ts s
match_pieces (optional_segment ∷ ps) [] = captured [] (match_pieces ps [])
match_pieces (optional_segment ∷ ps) (c ∷ s) =
    let parts = span not_slash s in
    if eqb c b'/' then group parts.0 (match_pieces ps parts.1) else none
match_pieces (optional_skipped ∷ ps) [] = match_pieces ps []
match_pieces (optional_skipped ∷ ps) (c ∷ s) =
    let parts = span not_slash s in
    if eqb c b'/' && not (is_nil parts.0) then match_pieces ps parts.1 else none
match_pieces (optional_rest ∷ ps) [] = match_pieces ps []
match_pieces (optional_rest ∷ ps) (c ∷ s) =
    if eqb c b'/' && one_line s then match_pieces ps [] else none

-- `m[i]` for a group of the match, which the patterns have
unfoldable pub submatch : ℕ → List Str → Str
submatch i [] = []
submatch i (g ∷ groups) = if leb i 1 then g else submatch (i - 1) groups
