-- ===== src/Syncutil/TtlCache/Laws.antt =====
-- The cache's bound, what it returns and what it evicts (internal/syncutil/ttl_cache.go).
use gh_aw_mcpg.Common.{
  ℕ, ◌+◌, ◌<◌, ◌≤◌, ◌≡◌, ◌∙◌, sym, refl, false, List, Option, none, some, arith, length, leb,
  Comparable, ◌==◌, if◌then◌else◌, Option-cases, ◌⊎◌, inl, inr, Bool-cases,
}
use gh_aw_mcpg.Common.Dict.{
  lookup, delete, IsDict, lookup-insert, lookup-insert_self, lookup-delete, lookup-retain,
  length-delete-lt, length-retain-le, length-insert_new, length-insert_old, insert-IsDict,
  delete-IsDict, retain-IsDict,
}
use gh_aw_mcpg.Syncutil.TtlCache.Lru.{lru_lem}
use gh_aw_mcpg.Syncutil.TtlCache.{
  TtlEntry, TtlCache, is_live, sweep, make_room, hit_or_miss, get_or_create,
}

-- the value of an entry that is there, or the created one
abbrev pub value_or : {V : Type 0} → Option (TtlEntry V) → V → V
value_or none created = created
value_or (some entry) created = entry.value

module _ {K V : Type 0} ⦃e : Comparable K⦄ where
  -- The entries are those of a map, and no more than the capacity.
  pub record IsCache (c : TtlCache K V) : Type 0 where
    pub dict : IsDict c.entries
    pub bounded : length c.entries ≤ c.max_size

  -- after the eviction there is room for one more entry, the map is still one, and a key that was
  -- absent stays absent
  make_room_lem :
      (size : ℕ) (m : List (K × TtlEntry V)) (key : K)
      → 0 < size
      → length m ≤ size
      → IsDict m
      → lookup key m ≡ none
      → (length (make_room size m) + 1 ≤ size)
        × IsDict (make_room size m)
        × (lookup key (make_room size m) ≡ none)
  unfolding make_room
  make_room_lem size m key pos fits d absent = elim (Bool-cases (leb size (length m))) [
    | inr room ↦ rw (room, make_room) (ground arith, d, absent)
    | inl full ↦
        let (k, t, found, (x, there, _), _) = lru_lem m d (ground arith) in
        rw (full, make_room, found)
          (
            ground (arith, length-delete-lt k m there),
            delete-IsDict k m d,
            ground (arith, lookup-delete k key m),
          )
  ]

  -- what the sweep leaves of a key's entry
  abbrev pub unless_idle : TtlCache K V → ℕ → Option (TtlEntry V) → Option (TtlEntry V)
  unless_idle c now none = none
  unless_idle c now (some entry) = if is_live c.ttl now entry then some entry else none

  lookup-sweep :
      (c : TtlCache K V) (now : ℕ) (key : K)
      → IsDict c.entries
      → lookup key (sweep c now) ≡ unless_idle c now (lookup key c.entries)
  unfolding sweep
  lookup-sweep c now key d =
      ground (arith, lookup-retain (λ k entry. is_live c.ttl now entry) key c.entries d)

  sweep_lem :
      (c : TtlCache K V) (now : ℕ)
      → IsCache c
      → IsDict (sweep c now) × (length (sweep c now) ≤ c.max_size)
  unfolding sweep
  sweep_lem c now v = (
    retain-IsDict (λ k entry. is_live c.ttl now entry) c.entries v.dict,
    omega (arith, v.bounded, length-retain-le (λ k entry. is_live c.ttl now entry) c.entries),
  )

  miss-IsCache :
      (c : TtlCache K V) (m : List (K × TtlEntry V)) (now : ℕ) (key : K) (created : V)
      → 0 < c.max_size
      → length m ≤ c.max_size
      → IsDict m
      → lookup key m ≡ none
      → IsCache (hit_or_miss c m now key created none).0
  unfolding hit_or_miss
  miss-IsCache c m now key created pos fits d absent =
      let entry : TtlEntry V = record { value = created; last_used = now } in
      let (room, dict, still) = make_room_lem c.max_size m key pos fits d absent in
      record {
        dict = insert-IsDict key entry (make_room c.max_size m) dict;
        bounded = omega (arith, length-insert_new key entry (make_room c.max_size m) still);
      }

  -- `GetOrCreate` on a well-formed cache leaves it a map with no more entries than its capacity,
  -- whatever the key, the instant and the created value.
  pub get_or_create-IsCache :
      (c : TtlCache K V) (now : ℕ) (key : K) (created : V)
      → IsCache c
      → IsCache (get_or_create c now key created).0
  unfolding get_or_create
  get_or_create-IsCache c now key created v = elim (Bool-cases (leb c.max_size 0)) [
    | inl off ↦ rw (off, get_or_create) v
    | inr on ↦
        let (d, fits) = sweep_lem c now v in
        elim (Option-cases (lookup key (sweep c now))) [
          | inl missing ↦
              rw (on, get_or_create, missing)
                (miss-IsCache c (sweep c now) now key created (ground arith) fits d missing)
          | inr (entry, found) ↦
              rw (on, get_or_create, found)
                (record {
                  dict = insert-IsDict key (record entry { last_used = now }) (sweep c now) d;
                  bounded = omega (
                    arith,
                    fits,
                    length-insert_old key (record entry { last_used = now }) (sweep c now) found,
                  );
                })
        ]
  ]

  hit_or_miss_lem :
      (c : TtlCache K V) (m : List (K × TtlEntry V)) (now : ℕ) (key : K) (created : V)
      (o : Option (TtlEntry V))
      → let (c', v) = hit_or_miss c m now key created o in
        (v ≡ value_or o created)
        × (lookup key c'.entries ≡ some (record { value = v; last_used = now }))
  unfolding hit_or_miss
  hit_or_miss_lem c m now key created none = (refl, lookup-insert_self key _ _)
  hit_or_miss_lem c m now key created (some entry) = (refl, lookup-insert_self key _ _)

  with_room :
      (c : TtlCache K V) (now : ℕ) (key : K) (created : V)
      → 0 < c.max_size
      → get_or_create c now key created
        ≡ hit_or_miss c (sweep c now) now key created (lookup key (sweep c now))
  unfolding get_or_create
  with_room c now key created pos = ground arith

  -- `GetOrCreate` on a cache with room for an entry returns the cached value if the key has an entry
  -- that is not idle for longer than the TTL, and the created value otherwise; it leaves the key
  -- with that value, used now.
  pub get_or_create-value :
      (c : TtlCache K V) (now : ℕ) (key : K) (created : V)
      → IsCache c
      → 0 < c.max_size
      → let (c', v) = get_or_create c now key created in
        (v ≡ value_or (unless_idle c now (lookup key c.entries)) created)
        × (lookup key c'.entries ≡ some (record { value = v; last_used = now }))
  get_or_create-value c now key created v pos =
      rw (with_room c now key created pos, ← lookup-sweep c now key v.dict)
        (hit_or_miss_lem c (sweep c now) now key created (lookup key (sweep c now)))

  -- the entries after a call, at another key than the one asked for
  others :
      (c : TtlCache K V) (m : List (K × TtlEntry V)) (now : ℕ) (key j : K) (created : V)
      (o : Option (TtlEntry V))
      → (key == j) ≡ false
      → (lookup j (hit_or_miss c m now key created o).0.entries ≡ lookup j m)
        ⊎ ((o ≡ none)
            × (lookup j (hit_or_miss c m now key created o).0.entries
                ≡ lookup j (make_room c.max_size m)))
  unfolding hit_or_miss
  others c m now key j created (some entry) ne =
      inl (ground (arith, lookup-insert key j (record entry { last_used = now }) m))
  others c m now key j created none ne = inr (
    refl,
    ground (
      arith,
      lookup-insert key j (record { value = created; last_used = now }) (make_room c.max_size m),
    ),
  )

  evicted :
      (size : ℕ) (m : List (K × TtlEntry V)) (j i : K) (x y : TtlEntry V)
      → 0 < size
      → IsDict m
      → lookup j m ≡ some x
      → lookup j (make_room size m) ≡ none
      → lookup i m ≡ some y
      → (size ≤ length m) × (x.last_used ≤ y.last_used)
  unfolding make_room
  evicted size m j i x y pos d had gone other = elim (Bool-cases (leb size (length m))) [
    | inr room ↦ absurd (ground arith)
    | inl full ↦
        let (k, t, found, (z, there, at), least) = lru_lem m d (ground arith) in
        let gone' : lookup j (delete k m) ≡ none = rw (full, make_room, found) at gone in
        ground (arith, lookup-delete k j m, e.same_lem k j, least i y)
  ]

  -- `GetOrCreate` on a cache with room for an entry loses another key's entry that is not idle for
  -- longer than the TTL only if the key asked for had none, and only the one that was used the
  -- longest ago: none of the entries that are not idle was used before it.
  pub get_or_create-evicts :
      (c : TtlCache K V) (now : ℕ) (key j i : K) (created : V) (x y : TtlEntry V)
      → IsCache c
      → 0 < c.max_size
      → (key == j) ≡ false
      → unless_idle c now (lookup j c.entries) ≡ some x
      → lookup j (get_or_create c now key created).0.entries ≡ none
      → unless_idle c now (lookup i c.entries) ≡ some y
      → (unless_idle c now (lookup key c.entries) ≡ none) × (x.last_used ≤ y.last_used)
  get_or_create-evicts c now key j i created x y v pos ne had gone other =
      let m = sweep c now in
      let (d, _) = sweep_lem c now v in
      let had' : lookup j m ≡ some x = lookup-sweep c now j v.dict ∙ had in
      let other' : lookup i m ≡ some y = lookup-sweep c now i v.dict ∙ other in
      let gone' : lookup j (hit_or_miss c m now key created (lookup key m)).0.entries ≡ none =
        rw (with_room c now key created pos) at gone in
      elim (others c m now key j created (lookup key m) ne) [
        | inl same ↦ absurd (cc)
        | inr (missed, same) ↦ (
          sym (lookup-sweep c now key v.dict) ∙ missed,
          (evicted c.max_size m j i x y pos d had' (sym same ∙ gone') other').1,
        )
      ]
