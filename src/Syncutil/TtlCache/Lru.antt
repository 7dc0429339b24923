-- ===== src/Syncutil/TtlCache/Lru.antt =====
-- The search for the least recently used entry (internal/syncutil/ttl_cache.go).
use gh_aw_mcpg.Common.{
  ℕ, ◌<◌, ◌≤◌, ◌≡◌, ◌≢◌, List, [], ◌∷◌, none, some, arith, length, ltb, Comparable, Option-cases,
  ◌⊎◌, inl, inr, Bool-cases,
}
use gh_aw_mcpg.Common.Dict.{lookup, IsDict}
use gh_aw_mcpg.Syncutil.TtlCache.{TtlEntry, lru_from}

module _ {K V : Type 0} ⦃e : Comparable K⦄ where
  lru_from_le :
      (b : K) (u : ℕ) (m : List (K × TtlEntry V)) (k : K) (t : ℕ)
      → lru_from (some (b, u)) m ≡ some (k, t)
      → t ≤ u
  unfolding lru_from
  lru_from_le b u [] k t h = ground arith
  lru_from_le b u ((i, x) ∷ m) k t h =
      ground (arith, lru_from_le b u m k t, lru_from_le i x.last_used m k t)

  lru_from_min :
      (b : K) (u : ℕ) (m : List (K × TtlEntry V)) (k j : K) (t : ℕ) (entry : TtlEntry V)
      → lru_from (some (b, u)) m ≡ some (k, t)
      → lookup j m ≡ some entry
      → t ≤ entry.last_used
  unfolding lru_from lookup
  lru_from_min b u [] k j t entry h l = ground arith
  lru_from_min b u ((i, x) ∷ m) k j t entry h l = ground (
    arith,
    lru_from_le b u m k t,
    lru_from_le i x.last_used m k t,
    lru_from_min b u m k j t entry,
    lru_from_min i x.last_used m k j t entry,
  )

  lru_from_total : (b : K) (u : ℕ) (m : List (K × TtlEntry V)) → lru_from (some (b, u)) m ≢ none
  unfolding lru_from
  lru_from_total b u [] h = cc
  lru_from_total b u ((i, x) ∷ m) h =
      ground (arith, lru_from_total b u m, lru_from_total i x.last_used m)

  -- the entry of a key was last used at the instant
  abbrev pub UsedAt : List (K × TtlEntry V) → K → ℕ → Type 0
  UsedAt m k t = (x : TtlEntry V) × (lookup k m ≡ some x) × (x.last_used ≡ t)

  UsedAt-cons :
      (i k : K) (x : TtlEntry V) (m : List (K × TtlEntry V)) (t : ℕ)
      → lookup i m ≡ none
      → UsedAt m k t
      → UsedAt ((i, x) ∷ m) k t
  unfolding lookup
  UsedAt-cons i k x m t fresh (y, found, at) = (y, ground (arith, e.same_lem i k), at)

  UsedAt-head :
      (i k : K) (x : TtlEntry V) (m : List (K × TtlEntry V)) (t : ℕ)
      → k ≡ i
      → t ≡ x.last_used
      → UsedAt ((i, x) ∷ m) k t
  unfolding lookup
  UsedAt-head i k x m t same at = (x, ground (arith, e.same_lem i k), ground arith)

  lru_from_key :
      (b : K) (u : ℕ) (m : List (K × TtlEntry V)) (k : K) (t : ℕ)
      → IsDict m
      → lru_from (some (b, u)) m ≡ some (k, t)
      → ((k ≡ b) × (t ≡ u)) ⊎ UsedAt m k t
  unfolding lru_from
  lru_from_key b u [] k t d h = inl (ground arith, ground arith)
  lru_from_key b u ((i, x) ∷ m) k t d h = elim (Bool-cases (ltb x.last_used u)) [
    | inl older ↦ elim (lru_from_key i x.last_used m k t d.1 (ground arith)) [
      | inl (same, at) ↦ inr (UsedAt-head i k x m t same at)
      | inr there ↦ inr (UsedAt-cons i k x m t d.0 there)
    ]
    | inr newer ↦ elim (lru_from_key b u m k t d.1 (ground arith)) [
      | inl same ↦ inl same
      | inr there ↦ inr (UsedAt-cons i k x m t d.0 there)
    ]
  ]

  -- the key that the loop finds in a map that is not empty: it is there, and no entry is older
  pub lru_lem :
      (m : List (K × TtlEntry V))
      → IsDict m
      → 0 < length m
      → (k : K) × (t : ℕ) × (lru_from none m ≡ some (k, t))
        × UsedAt m k t
        × ((j : K) (entry : TtlEntry V) → lookup j m ≡ some entry → t ≤ entry.last_used)
  unfolding lru_from lookup
  lru_lem [] d h = absurd (omega arith)
  lru_lem ((i, x) ∷ m) d h = elim (Option-cases (lru_from (some (i, x.last_used)) m)) [
    | inl stuck ↦ absurd (lru_from_total i x.last_used m stuck)
    | inr ((k, t), found) ↦ (
      k,
      t,
      found,
      elim (lru_from_key i x.last_used m k t d.1 found) [
        | inl (same, at) ↦ UsedAt-head i k x m t same at
        | inr there ↦ UsedAt-cons i k x m t d.0 there
      ],
      λ j entry l.
          ground (arith, lru_from_le i x.last_used m k t, lru_from_min i x.last_used m k j t entry),
    )
  ]
