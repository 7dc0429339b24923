-- ===== src/Syncutil/MapCache.antt =====
-- internal/syncutil/cache.go: get or create under a read lock, then under a write lock. Between the
-- two locks other callers may change the map, so each phase has the map that it sees.
use gh_aw_mcpg.Common.{◌≡◌, List, Option, none, some, arith, Comparable}
use gh_aw_mcpg.Common.Text.{Str}
use gh_aw_mcpg.Common.Dict.{lookup, insert, lookup-insert_self}

module _ {K V : Type 0} ⦃e : Comparable K⦄ where
  -- what `create` returned, stored if there is no error
  store : List (K × V) → K → V × Option Str → List (K × V) × V × Option Str
  store now key (v, none) = (insert key v now, v, none)
  store now key (v, some err) = (now, v, some err)

  -- the part under the write lock, with its second look at the map
  pub locked_get_or_create : List (K × V) → K → V × Option Str → List (K × V) × V × Option Str
  unfolding store
  locked_get_or_create now key created = elim (lookup key now) [
    | some v ↦ (now, v, none)
    | none ↦ store now key created
  ]

  -- `seen` is the map under the read lock, `now` the map afterwards
  unfoldable pub map_get_or_create :
      List (K × V) → List (K × V) → K → V × Option Str → List (K × V) × V × Option Str
  unfolding locked_get_or_create
  map_get_or_create seen now key created = elim (lookup key seen) [
    | some v ↦ (now, v, none)
    | none ↦ locked_get_or_create now key created
  ]

  -- Two callers that both missed the key under the read lock, whose `create` both succeed: the first
  -- to take the write lock stores its value, both return that value, and the second changes nothing.
  pub map_get_or_create_race :
      (seen now : List (K × V)) (key : K) (v w : V)
      → lookup key seen ≡ none
      → lookup key now ≡ none
      → let first = map_get_or_create seen now key (v, none) in
        let second = map_get_or_create seen first.0 key (w, none) in
        (first.1 ≡ v) × (second.1 ≡ v) × (second.0 ≡ first.0) × (lookup key second.0 ≡ some v)
  unfolding map_get_or_create
  map_get_or_create_race seen now key v w missed absent =
      ground (arith, lookup-insert_self key v now)

  -- A `create` that fails is reported and leaves the map as it was.
  pub map_get_or_create_fail :
      (seen now : List (K × V)) (key : K) (v : V) (err : Str)
      → lookup key seen ≡ none
      → lookup key now ≡ none
      → map_get_or_create seen now key (v, some err) ≡ (now, v, some err)
  unfolding map_get_or_create
  map_get_or_create_fail seen now key v err missed absent = ground arith
