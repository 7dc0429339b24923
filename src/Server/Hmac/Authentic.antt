-- ===== src/Server/Hmac/Authentic.antt =====
-- Which requests internal/server/hmac.go lets through, described by what they are.
use gh_aw_mcpg.Common.{
  Option-cases, [], arith, false, if◌then◌else◌, inl, inr, is_nil, ltb, none, not, refl, some, true,
  ℕ, ◌*◌, ◌+◌, ◌<◌, ◌↔◌, ◌∷◌, ◌≡◌, ◌≢◌, ◌≤◌,
}
use gh_aw_mcpg.Common.Dict.{IsDict, lookup, lookup-retain, lookup-retain-none}
use gh_aw_mcpg.Common.Int.{negsuc, pos, ℤ}
use gh_aw_mcpg.Common.Text.{Str, bytes, join, str_eq}
use gh_aw_mcpg.Server.Hmac.{
  NonceCache, SignedRequest, accepted, check_and_set, compute_hmac, evict_expired, hmac_middleware,
  is_fresh, parse_int64, seen_nonce,
}
use gh_aw_mcpg.Server.Hmac.Accept.{IsSigned, hmac_middleware-accepted_iff}

-- the instant is at most 30 seconds before or after the time stamp
abbrev pub IsRecent : ℤ → ℕ → Type 0
IsRecent (pos stamp) now =
    (now ≤ stamp * 1_000_000_000 + 30_000_000_000) × (stamp * 1_000_000_000 ≤ now + 30_000_000_000)
IsRecent (negsuc n) now = now + (n + 1) * 1_000_000_000 ≤ 30_000_000_000

-- no entry of the nonce is kept that has not expired
abbrev pub IsUnused : NonceCache → Str → ℕ → Type 0
IsUnused cache nonce now = (deadline : ℕ) → lookup nonce cache ≡ some deadline → deadline < now

is_fresh_iff : (stamp : ℤ) (now : ℕ) → (is_fresh stamp now ≡ true) ↔ IsRecent stamp now
unfolding is_fresh
is_fresh_iff (pos n) now = ground arith
is_fresh_iff (negsuc n) now = ground arith

lookup-evict_expired :
    (cache : NonceCache) (nonce : Str) (now : ℕ)
    → IsDict cache
    → lookup nonce (evict_expired cache now) ≡ elim (lookup nonce cache) [
      | none ↦ none
      | some deadline ↦ (if not (ltb deadline now) then some deadline else none)
    ]
unfolding evict_expired
lookup-evict_expired cache nonce now d =
    lookup-retain (λ n deadline. not (ltb deadline now)) nonce cache d

seen_nonce_iff :
    (cache : NonceCache) (nonce : Str) (now : ℕ)
    → IsDict cache
    → ((seen_nonce cache now nonce).1 ≡ false) ↔ IsUnused cache nonce now
unfolding seen_nonce
seen_nonce_iff cache nonce now d = elim (Option-cases (lookup nonce cache)) [
  | inl missing ↦ (
    λ h. λ deadline. λ there. ground arith,
    λ h. ground (arith, lookup-evict_expired cache nonce now d),
  )
  | inr (kept, there) ↦ (
    λ h. λ deadline. λ same. ground (arith, lookup-evict_expired cache nonce now d),
    λ h. let early = h kept there in ground (arith, lookup-evict_expired cache nonce now d),
  )
]

-- a nonce that the first look does not see is not seen at the second one
check_and_set-unseen :
    (cache : NonceCache) (nonce : Str) (seen_at set_at : ℕ)
    → (seen_nonce cache seen_at nonce).1 ≡ false
    → (check_and_set (seen_nonce cache seen_at nonce).0 set_at nonce).1 ≡ true
unfolding seen_nonce check_and_set evict_expired
check_and_set-unseen cache nonce seen_at set_at h =
    let left = evict_expired cache seen_at in
    elim (Option-cases (lookup nonce left)) [
      | inr (deadline, there) ↦ ground arith
      | inl missing ↦
          ground (arith, lookup-retain-none (λ n d. not (ltb d set_at)) nonce left missing)
    ]

is_nil-full : (s : Str) → s ≢ [] → is_nil s ≡ false
is_nil-full [] h = absurd (h refl)
is_nil-full (c ∷ s) h = refl

parsed-full : (s : Str) (stamp : ℤ) → parse_int64 s ≡ some stamp → is_nil s ≡ false
unfolding parse_int64
parsed-full [] stamp h = ground arith
parsed-full (c ∷ s) stamp h = refl

module _ (sha256_hex : Str → Str) (hmac_sha256_hex : Str → Str → Str) where
  -- the body is read, and the signature is the HMAC of the four lines
  abbrev pub IsGenuine : Str → SignedRequest → Type 0
  IsGenuine secret r =
      (body : Str) × (r.body ≡ some body)
      × (r.signature
          ≡ hmac_sha256_hex secret
              (join (bytes "\n") (r.timestamp ∷ r.nonce ∷ r.path ∷ sha256_hex body ∷ [])))

  IsGenuine-iff :
      (secret : Str) (r : SignedRequest)
      → IsSigned sha256_hex hmac_sha256_hex secret r ↔ IsGenuine secret r
  unfolding compute_hmac join
  IsGenuine-iff secret r = (λ h. h, λ h. h)

  -- On a cache with one entry to a nonce, a request is let through exactly if it has a nonce and a
  -- signature, its time stamp is a number of seconds at most 30 seconds away from the clock, no entry of
  -- its nonce is kept that has not expired, its body can be read, and its signature is the HMAC, under
  -- the secret, of time stamp, nonce, path and the hash of the body, joined by newlines. The cache is
  -- taken not to change between the two looks at it.
  pub hmac_middleware-authentic_iff :
      (secret : Str) (cache : NonceCache) (r : SignedRequest)
      → IsDict cache
      → ((hmac_middleware sha256_hex hmac_sha256_hex secret cache r).1 ≡ accepted) ↔ (
          (r.nonce ≢ [])
          × (r.signature ≢ [])
          × ((stamp : ℤ) × (parse_int64 r.timestamp ≡ some stamp) × IsRecent stamp r.fresh_at)
          × IsUnused cache r.nonce r.seen_at
          × IsGenuine secret r)
  hmac_middleware-authentic_iff secret cache r d = (
    λ h.
        let ((t, n, s, (stamp, parsed, fresh)), unseen, signed, set) =
          (hmac_middleware-accepted_iff sha256_hex hmac_sha256_hex secret cache r).0 h in
        (
          λ empty. ground arith,
          λ empty. ground arith,
          (stamp, parsed, (is_fresh_iff stamp r.fresh_at).0 fresh),
          (seen_nonce_iff cache r.nonce r.seen_at d).0 unseen,
          (IsGenuine-iff secret r).0 signed,
        ),
    λ (n, s, (stamp, parsed, recent), unused, genuine).
        let unseen = (seen_nonce_iff cache r.nonce r.seen_at d).1 unused in
        (hmac_middleware-accepted_iff sha256_hex hmac_sha256_hex secret cache r).1 (
          (
            parsed-full r.timestamp stamp parsed,
            is_nil-full r.nonce n,
            is_nil-full r.signature s,
            (stamp, parsed, (is_fresh_iff stamp r.fresh_at).1 recent),
          ),
          unseen,
          (IsGenuine-iff secret r).1 genuine,
          check_and_set-unseen cache r.nonce r.seen_at r.set_at unseen,
        ),
  )
