-- ===== src/Proxy/Router/Dispatch/Laws.antt =====
-- How the dispatch table of internal/proxy/router.go relates to the table of routes.
use gh_aw_mcpg.Common.{
  Bool, Bool-cases, List, Option, [], ap, arith, false, if◌then◌else◌, inl, inr, is_nil, keep, none,
  refl, some, sym, true, ◌++◌, ◌==◌, ◌∙◌, ◌∷◌, ◌≡◌,
}
use gh_aw_mcpg.Common.Dict.{insert, lookup, lookup-insert}
use gh_aw_mcpg.Common.Text.{Str, str_beq, str_beq_iff, str_eq, strip_prefix}
use gh_aw_mcpg.Proxy.Router.{Route, RouteMatch, span}
use gh_aw_mcpg.Proxy.Router.Dispatch.{
  bucket, build_route_dispatch, dispatch_key, dispatch_loop, first_match, fixed_segment, match_in,
  match_route, or_next, route_match_key, without_query,
}
use gh_aw_mcpg.Proxy.Router.Dispatch.Matches.{
  all_keyed, all_keyed-keyed_routes, first_match-keep, first_match_keyless, key_of,
}
use gh_aw_mcpg.Proxy.Router.Routes.{keyed_routes, routes}
use gh_aw_mcpg.Proxy.Router.Services.{fallback_routes}
use mathlib.Core.List.{append-nil, append_assoc}

first_match-append :
    (path : Str) (rs rest : List Route)
    → first_match path (rs ++ rest) ≡ or_next (first_match path rs) (first_match path rest)
unfolding first_match or_next
first_match-append path [] rest = refl
first_match-append path (r ∷ rs) rest = ground (arith, first_match-append path rs rest)

keep-append :
    (p : Route → Bool) (rs rest : List Route) → keep p (rs ++ rest) ≡ keep p rs ++ keep p rest
unfolding keep
keep-append p [] rest = refl
keep-append p (r ∷ rs) rest = ground (arith, keep-append p rs rest)

bucket-insert :
    (written key : Str) (rs : List Route) (m : List (Str × List Route))
    → bucket key (insert written rs m) ≡ (if written == key then rs else bucket key m)
unfolding bucket
bucket-insert written key rs m = ground (arith, lookup-insert written key rs m)

abbrev only_if : Bool → Route → List Route
only_if test r = if test then r ∷ [] else []

bucket-insert_route :
    (written key : Str) (r : Route) (m : List (Str × List Route))
    → bucket key (insert written (bucket written m ++ r ∷ []) m)
      ≡ bucket key m ++ only_if (written == key) r
bucket-insert_route written key r m = elim (Bool-cases (written == key)) [
  | inl e ↦
      let same : written ≡ key = ground (arith, str_beq_iff written key) in
      bucket-insert written key (bucket written m ++ r ∷ []) m
      ∙ rw e (ap (λ k. bucket k m ++ r ∷ []) same)
  | inr e ↦
      bucket-insert written key (bucket written m ++ r ∷ []) m
      ∙ rw e (sym (append-nil (bucket key m)))
]

keep_step :
    (p : Route → Bool) (r : Route) (rs : List Route)
    → only_if (p r) r ++ keep p rs ≡ keep p (r ∷ rs)
unfolding keep
keep_step p r rs = ground arith

bucket-dispatch_loop :
    (key : Str) (rs : List Route) (m : List (Str × List Route))
    → bucket key (dispatch_loop rs m) ≡ bucket key m ++ keep (λ r. key_of r == key) rs
unfolding dispatch_loop keep
bucket-dispatch_loop key [] m = sym (append-nil (bucket key m))
bucket-dispatch_loop key (r ∷ rs) m =
    let after = insert (key_of r) (bucket (key_of r) m ++ r ∷ []) m in
    bucket-dispatch_loop key rs after
    ∙ ap (λ b. b ++ keep (λ x. key_of x == key) rs) (bucket-insert_route (key_of r) key r m)
    ∙ append_assoc (bucket key m) (only_if (key_of r == key) r) (keep (λ x. key_of x == key) rs)
    ∙ ap (λ b. bucket key m ++ b) (keep_step (λ x. key_of x == key) r rs)

fallback_only : keep (λ r. key_of r == []) fallback_routes ≡ fallback_routes
unfolding keep dispatch_key strip_prefix str_beq
fallback_only = refl

-- the fallback has the key of no path that has one
fallback_never : (key : Str) → is_nil key ≡ false → keep (λ r. key_of r == key) fallback_routes ≡ []
unfolding keep dispatch_key strip_prefix str_beq
fallback_never [] h = ground arith
fallback_never (c ∷ key) h = refl

keyed_never : keep (λ r. key_of r == []) keyed_routes ≡ []
unfolding keep dispatch_key fixed_segment span strip_prefix str_beq
keyed_never = refl

bucket-build_route_dispatch :
    (key : Str)
    → bucket key (build_route_dispatch routes)
      ≡ keep (λ r. key_of r == key) keyed_routes ++ keep (λ r. key_of r == key) fallback_routes
unfolding build_route_dispatch bucket lookup
bucket-build_route_dispatch key =
    bucket-dispatch_loop key routes []
    ∙ keep-append (λ r. key_of r == key) keyed_routes fallback_routes

bucket_of_key :
    (key : Str)
    → is_nil key ≡ false
    → bucket key (build_route_dispatch routes) ≡ keep (λ r. key_of r == key) keyed_routes
bucket_of_key key h =
    bucket-build_route_dispatch key
    ∙ ap (λ rs. keep (λ r. key_of r == key) keyed_routes ++ rs) (fallback_never key h)
    ∙ append-nil (keep (λ r. key_of r == key) keyed_routes)

or_next-none : (found : Option RouteMatch) → or_next found none ≡ found
unfolding or_next
or_next-none none = refl
or_next-none (some m) = refl

-- a table with a bucket for the fallback and the buckets of the routes with a key
match_in_buckets :
    (table : List (Str × List Route)) (keyed fallback : List Route) (path : Str)
    → all_keyed keyed ≡ true
    → bucket [] table ≡ fallback
    → (is_nil (route_match_key path) ≡ false
        → bucket (route_match_key path) table ≡ keep (λ r. key_of r == route_match_key path) keyed)
    → match_in table path ≡ first_match path (keyed ++ fallback)
unfolding match_in first_match or_next
match_in_buckets table keyed fallback path k f b =
    elim (Bool-cases (is_nil (route_match_key path))) [
      | inl e ↦
          let keyless : route_match_key path ≡ [] = ground arith in
          rw (keyless, f)
            (or_next-none (first_match path fallback)
              ∙ sym (
                  first_match-append path keyed fallback
                  ∙ ap (λ m. or_next m (first_match path fallback))
                      (first_match_keyless path keyed k keyless)))
      | inr e ↦
          rw (e, b e, f)
            (ap (λ m. or_next m (first_match path fallback)) (first_match-keep path keyed k)
              ∙ sym (first_match-append path keyed fallback))
    ]

-- The dispatch table leads to the first route of the table that matches the path, as a search through
-- all of them in order would.
pub match_route-first_match :
    (path : Str) → match_route path ≡ first_match (without_query path) routes
unfolding match_route
match_route-first_match path =
    match_in_buckets (build_route_dispatch routes) keyed_routes fallback_routes (without_query path)
      all_keyed-keyed_routes (bucket-build_route_dispatch [] ∙ rw (keyed_never, fallback_only) refl)
      (bucket_of_key (route_match_key (without_query path)))
