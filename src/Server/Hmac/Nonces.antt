-- ===== src/Server/Hmac/Nonces.antt =====
-- The nonces that the cache keeps, and the time stamps that stay fresh (internal/server/hmac.go).
use gh_aw_mcpg.Common.{ℕ, ◌+◌, ◌≤◌, ◌≡◌, refl, Bool, true, not, [], ◌∷◌, some, ltb, arith}
use gh_aw_mcpg.Common.Int.{ℤ}
use gh_aw_mcpg.Common.Text.{Str, str_beq_iff, str_eq}
use gh_aw_mcpg.Common.Dict.{lookup, retain, lookup-insert, lookup-insert_self}
use gh_aw_mcpg.Server.Hmac.{
  nonce_ttl, NonceCache, evict_expired, seen_nonce, check_and_set, is_fresh,
}

-- The nonce is there until an instant at least.
abbrev pub KeptUntil : NonceCache → Str → ℕ → Type 0
KeptUntil cache nonce until =
    (deadline : ℕ) × (lookup nonce cache ≡ some deadline) × (until ≤ deadline)

lookup-retain-some :
    (p : Str → ℕ → Bool) (k : Str) (m : NonceCache) (v : ℕ)
    → lookup k m ≡ some v
    → p k v ≡ true
    → lookup k (retain p m) ≡ some v
unfolding lookup retain
lookup-retain-some p k [] v h t = ground arith
lookup-retain-some p k ((j, w) ∷ m) v h t =
    ground (arith, str_beq_iff j k, lookup-retain-some p k m v)

pub evict_expired-KeptUntil :
    (cache : NonceCache) (nonce : Str) (now until : ℕ)
    → KeptUntil cache nonce until
    → now ≤ until
    → KeptUntil (evict_expired cache now) nonce until
unfolding evict_expired
evict_expired-KeptUntil cache nonce now until (deadline, found, late) before = (
  deadline,
  lookup-retain-some (λ n d. not (ltb d now)) nonce cache deadline found (ground arith),
  late,
)

-- a nonce that is kept is seen
pub seen_nonce-KeptUntil :
    (cache : NonceCache) (nonce : Str) (now until : ℕ)
    → KeptUntil cache nonce until
    → now ≤ until
    → seen_nonce cache now nonce ≡ (evict_expired cache now, true)
unfolding seen_nonce
seen_nonce-KeptUntil cache nonce now until kept before =
    let (deadline, found, late) = evict_expired-KeptUntil cache nonce now until kept before in
    rw found refl

pub check_and_set-KeptUntil :
    (cache : NonceCache) (nonce other : Str) (now until : ℕ)
    → KeptUntil cache nonce until
    → now ≤ until
    → KeptUntil (check_and_set cache now other).0 nonce until
unfolding check_and_set
check_and_set-KeptUntil cache nonce other now until kept before =
    let (deadline, found, late) = evict_expired-KeptUntil cache nonce now until kept before in
    let left = evict_expired cache now in
    (
      deadline,
      ground
          (arith, found, str_beq_iff other nonce, lookup-insert other nonce (now + nonce_ttl) left),
      late,
    )

-- a nonce that is set by a request is kept for the time to live
pub check_and_set-set :
    (cache : NonceCache) (now : ℕ) (nonce : Str)
    → (check_and_set cache now nonce).1 ≡ true
    → KeptUntil (check_and_set cache now nonce).0 nonce (now + nonce_ttl)
unfolding check_and_set
check_and_set-set cache now nonce h = (
  now + nonce_ttl,
  ground (arith, lookup-insert_self nonce (now + nonce_ttl) (evict_expired cache now)),
  omega arith,
)

-- a time stamp that is fresh at two instants: the later is at most twice the maximal age after
pub is_fresh_twice :
    (seconds : ℤ) (early late : ℕ)
    → is_fresh seconds early ≡ true
    → is_fresh seconds late ≡ true
    → late ≤ early + nonce_ttl
unfolding is_fresh
is_fresh_twice (ℤ.pos n) early late h h' = ground arith
is_fresh_twice (ℤ.negsuc n) early late h h' = ground arith
