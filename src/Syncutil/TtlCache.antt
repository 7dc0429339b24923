-- ===== src/Syncutil/TtlCache.antt =====
-- internal/syncutil/ttl_cache.go: a cache that drops entries idle for longer than its TTL and, at
-- capacity, the least recently used one. A TTL or a size that is not positive is 0.
use gh_aw_mcpg.Common.{
  ℕ, ◌<◌, Bool, true, false, not, ◌&&◌, ◌||◌, List, [], ◌∷◌, Option, none, some, length, ltb, leb,
  Comparable, if◌then◌else◌,
}
use gh_aw_mcpg.Common.Int.{sub_time}
use gh_aw_mcpg.Common.Dict.{lookup, insert, delete, retain}
pub mod Lru
pub mod Laws

pub record TtlEntry (V : Type 0) : Type 0 where
  pub value : V
  pub last_used : ℕ

pub record TtlCache (K V : Type 0) : Type 0 where
  pub entries : List (K × TtlEntry V)
  pub ttl : ℕ
  pub max_size : ℕ

unfoldable pub new_ttl_cache : {K V : Type 0} → ℕ → ℕ → TtlCache K V
new_ttl_cache ttl max_size = record { entries = []; ttl = ttl; max_size = max_size }

-- whether the sweep leaves the entry
abbrev pub is_live : {V : Type 0} → ℕ → ℕ → TtlEntry V → Bool
is_live ttl now entry = not (ltb 0 ttl && ltb ttl (sub_time now entry.last_used))

-- the loop that looks for the least recently used entry; `none` is `first`
pub lru_from : {K V : Type 0} → Option (K × ℕ) → List (K × TtlEntry V) → Option (K × ℕ)
lru_from best [] = best
lru_from none ((k, entry) ∷ rest) = lru_from (some (k, entry.last_used)) rest
lru_from (some (lru_key, lru_time)) ((k, entry) ∷ rest) =
    lru_from
      (if ltb entry.last_used lru_time then some (k, entry.last_used) else some (lru_key, lru_time))
      rest

module _ {K V : Type 0} ⦃e : Comparable K⦄ where
  sweep : TtlCache K V → ℕ → List (K × TtlEntry V)
  sweep c now = retain (λ k entry. is_live c.ttl now entry) c.entries

  drop_key : Option (K × ℕ) → List (K × TtlEntry V) → List (K × TtlEntry V)
  drop_key none entries = entries
  drop_key (some (lru_key, _)) entries = delete lru_key entries

  -- the eviction at capacity
  pub make_room : ℕ → List (K × TtlEntry V) → List (K × TtlEntry V)
  unfolding drop_key lru_from
  make_room max_size entries =
      if leb max_size (length entries) then drop_key (lru_from none entries) entries else entries

  -- the part after the sweep, on its outcome
  hit_or_miss :
      TtlCache K V → List (K × TtlEntry V) → ℕ → K → V → Option (TtlEntry V) → TtlCache K V × V
  unfolding make_room
  hit_or_miss c swept now key created (some entry) =
      (record c { entries = insert key (record entry { last_used = now }) swept }, entry.value)
  hit_or_miss c swept now key created none = (
    record c {
      entries =
          insert key (record { value = created; last_used = now }) (make_room c.max_size swept);
    },
    created,
  )

  -- `created` is what `create` returns if it is called
  unfoldable pub get_or_create : TtlCache K V → ℕ → K → V → TtlCache K V × V
  unfolding hit_or_miss sweep
  get_or_create c now key created =
      let swept = sweep c now in
      if leb c.max_size 0
      then (c, created)
      else hit_or_miss c swept now key created (lookup key swept)

  unfoldable pub len : TtlCache K V → ℕ
  len c = length c.entries
