-- ===== src/Proxy/Router/Dispatch.antt =====
-- The dispatch table of internal/proxy/router.go, and the match of a path. An index into the table of
-- routes stands for the route.
pub mod Keys
pub mod Matches
pub mod Laws
use gh_aw_mcpg.Common.{
  Bool, List, Option, [], arith, eqb, if◌then◌else◌, is_nil, none, not, refl, some, ℕ, ◌++◌, ◌||◌,
  ◌∷◌,
}
use gh_aw_mcpg.Common.Dict.{insert, lookup}
use gh_aw_mcpg.Common.Split.{cut_at}
use gh_aw_mcpg.Common.Text.{Str, bytes, str_eq, strip_prefix}
use gh_aw_mcpg.Proxy.Router.{Route, RouteMatch, match_pieces, not_slash, source, span}
use gh_aw_mcpg.Proxy.Router.Routes.{routes}

-- the bytes at which `fixedSegment` stops
abbrev is_fixed : ℕ → Bool
is_fixed c = not (eqb c b'/' || eqb c b'(' || eqb c b'[' || eqb c b'$' || eqb c b'?')

unfoldable pub fixed_segment : Str → Str
fixed_segment s = (span is_fixed s).0

abbrev repo_catch_all : Str
repo_catch_all = bytes "^/repos/([^/]+)/([^/]+)"

abbrev without_prefix : Str → Str → Str
without_prefix prefix s = elim (strip_prefix prefix s) [ none ↦ s | some rest ↦ rest ]

-- the key of one round of the loop in `buildRouteDispatch`
unfoldable pub dispatch_key : Str → Str
dispatch_key src = elim (strip_prefix (repo_catch_all ++ bytes "/") src) [
  | some rest ↦ fixed_segment rest
  | none ↦ elim (strip_prefix repo_catch_all src) [
    | some rest ↦ []
    | none ↦ fixed_segment (without_prefix (bytes "^/") src)
  ]
]

-- the routes of a bucket, none for a missing one
unfoldable pub bucket : Str → List (Str × List Route) → List Route
bucket key m = elim (lookup key m) [ none ↦ [] | some rs ↦ rs ]

unfoldable pub dispatch_loop : List Route → List (Str × List Route) → List (Str × List Route)
dispatch_loop [] m = m
dispatch_loop (r ∷ rs) m =
    let key = dispatch_key (source r.pattern) in
    dispatch_loop rs (insert key (bucket key m ++ r ∷ []) m)

unfoldable pub build_route_dispatch : List Route → List (Str × List Route)
build_route_dispatch rs = dispatch_loop rs []

-- up to the first slash
unfoldable pub first_segment : Str → Str
first_segment s = (span not_slash s).0

-- what follows the first slash, if there is one
unfoldable pub after_slash : Str → Option Str
after_slash s = elim (cut_at b'/' s) [ none ↦ none | some (before, after) ↦ some after ]

-- the key of a path below /repos/
unfoldable pub repo_key : Str → Str
repo_key rest = elim (after_slash rest) [
  | none ↦ []
  | some repo ↦ elim (after_slash repo) [ none ↦ [] | some sub ↦ first_segment sub ]
]

unfoldable pub route_match_key : Str → Str
route_match_key path = elim (strip_prefix (bytes "/repos/") path) [
  | some rest ↦ repo_key rest
  | none ↦ first_segment (without_prefix (bytes "/") path)
]

abbrev arg_value : Str → List (Str × Str) → Str
arg_value key args = elim (lookup key args) [ none ↦ [] | some v ↦ v ]

abbrev match_of : Route → Option (List Str) → Option RouteMatch
match_of r none = none
match_of r (some groups) =
    let args = r.extract_args groups in
    some (record {
      tool_name = r.tool_name;
      owner = arg_value (bytes "owner") args;
      repo = arg_value (bytes "repo") args;
      args = args;
    })

unfoldable pub try_match : Str → Route → Option RouteMatch
try_match path r = match_of r (match_pieces r.pattern path)

unfoldable pub or_next : Option RouteMatch → Option RouteMatch → Option RouteMatch
or_next none next = next
or_next (some m) next = some m

-- the first route of the list that matches
unfoldable pub first_match : Str → List Route → Option RouteMatch
first_match path [] = none
first_match path (r ∷ rs) = or_next (try_match path r) (first_match path rs)

unfoldable pub without_query : Str → Str
without_query path = elim (cut_at b'?' path) [ none ↦ path | some (before, after) ↦ before ]

unfoldable pub match_in : List (Str × List Route) → Str → Option RouteMatch
match_in table path =
    let key = route_match_key path in
    or_next (first_match path (bucket key table))
      (if is_nil key then none else first_match path (bucket [] table))

unfoldable pub match_route : Str → Option RouteMatch
match_route path = match_in (build_route_dispatch routes) (without_query path)

unfoldable pub strip_gh_host_prefix : Str → Str
strip_gh_host_prefix path = without_prefix (bytes "/api/v3") path
