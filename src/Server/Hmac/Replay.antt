-- ===== src/Server/Hmac/Replay.antt =====
-- A request is let through once (internal/server/hmac.go).
use gh_aw_mcpg.Common.{ℕ, ◌≤◌, ◌≡◌, ◌≢◌, sym, List, [], ◌∷◌, inl, inr, arith, All}
use gh_aw_mcpg.Common.Text.{Str, str_eq}
use gh_aw_mcpg.Server.Hmac.{
  NonceCache, evict_expired, seen_nonce, SignedRequest, accepted, hmac_middleware,
}
use gh_aw_mcpg.Server.Hmac.Nonces.{
  KeptUntil, evict_expired-KeptUntil, seen_nonce-KeptUntil, check_and_set-KeptUntil,
  check_and_set-set, is_fresh_twice,
}
use gh_aw_mcpg.Server.Hmac.Accept.{
  serve, serve-cache, HasFreshHeaders, hmac_middleware-accepted_iff, accepted_stored,
}

module _ (sha256_hex : Str → Str) (hmac_sha256_hex : Str → Str → Str) where
  pub serve_all : Str → NonceCache → List SignedRequest → NonceCache
  serve_all secret cache [] = cache
  serve_all secret cache (r ∷ rest) =
      serve_all secret (serve sha256_hex hmac_sha256_hex secret cache r).0 rest

  serve-KeptUntil :
      (secret : Str) (cache : NonceCache) (r : SignedRequest) (nonce : Str) (until : ℕ)
      → r.seen_at ≤ until
      → r.set_at ≤ until
      → KeptUntil cache nonce until
      → KeptUntil (serve sha256_hex hmac_sha256_hex secret cache r).0 nonce until
  serve-KeptUntil secret cache r nonce until seen set kept =
      let kept_left = evict_expired-KeptUntil cache nonce r.seen_at until kept seen in
      elim (serve-cache sha256_hex hmac_sha256_hex secret cache r) [
        | inl same ↦ rw same kept
        | inr (inl left) ↦ rw left kept_left
        | inr (inr changed) ↦ rw changed (
            check_and_set-KeptUntil (evict_expired cache r.seen_at) nonce r.nonce r.set_at until
              kept_left set)
      ]

  serve_all-KeptUntil :
      (secret : Str) (cache : NonceCache) (rs : List SignedRequest) (nonce : Str) (until : ℕ)
      → All (λ r. (r.seen_at ≤ until) × (r.set_at ≤ until)) rs
      → KeptUntil cache nonce until
      → KeptUntil (serve_all secret cache rs) nonce until
  unfolding serve_all
  serve_all-KeptUntil secret cache [] nonce until early kept = kept
  serve_all-KeptUntil secret cache (r ∷ rest) nonce until early kept =
      serve_all-KeptUntil secret (serve sha256_hex hmac_sha256_hex secret cache r).0 rest nonce
        until early.1 (serve-KeptUntil secret cache r nonce until early.0.0 early.0.1 kept)

  -- at a second coming with a fresh time stamp, the nonce is still kept
  accepted-KeptUntil :
      (secret : Str) (cache : NonceCache) (r again : SignedRequest)
      → (serve sha256_hex hmac_sha256_hex secret cache r).1 ≡ accepted
      → r.fresh_at ≤ r.set_at
      → again.timestamp ≡ r.timestamp
      → HasFreshHeaders again
      → KeptUntil (serve sha256_hex hmac_sha256_hex secret cache r).0 r.nonce again.fresh_at
  accepted-KeptUntil secret cache r again ok clock stamp
        (ts, nonce, sig, (seconds', parsed', fresh')) =
      let ((ts0, n0, sig0, (seconds, parsed, fresh)), unseen, signed, set) =
        (hmac_middleware-accepted_iff sha256_hex hmac_sha256_hex secret cache r).0 ok in
      let (deadline, found, late) =
        check_and_set-set (seen_nonce cache r.seen_at r.nonce).0 r.set_at r.nonce set in
      let same : seconds' ≡ seconds = ground (arith, stamp, parsed, parsed') in
      let soon = is_fresh_twice seconds r.fresh_at again.fresh_at fresh (rw (sym same) fresh') in
      rw (accepted_stored sha256_hex hmac_sha256_hex secret cache r ok)
        (deadline, found, omega arith)

  -- A request that was let through is never let through again: after any requests whose instants are
  -- not later than its second coming, one with the same time stamp and nonce is refused, whatever its
  -- path, body and signature and however late it comes. The clock is taken not to go back in a request,
  -- and the freshness of the second coming to be read at the instant at which its nonce is looked up.
  pub hmac_middleware_no_replay :
      (secret : Str) (cache : NonceCache) (r again : SignedRequest) (between : List SignedRequest)
      → (hmac_middleware sha256_hex hmac_sha256_hex secret cache r).1 ≡ accepted
      → r.fresh_at ≤ r.set_at
      → again.timestamp ≡ r.timestamp
      → again.nonce ≡ r.nonce
      → again.seen_at ≡ again.fresh_at
      → All (λ q. (q.seen_at ≤ again.seen_at) × (q.set_at ≤ again.seen_at)) between
      → (hmac_middleware sha256_hex hmac_sha256_hex secret
          (serve_all secret (serve sha256_hex hmac_sha256_hex secret cache r).0 between)
          again).1
        ≢ accepted
  hmac_middleware_no_replay secret cache r again between ok clock stamp same at early replayed =
      let now = serve_all secret (serve sha256_hex hmac_sha256_hex secret cache r).0 between in
      let (headers, unseen, signed, set) =
        (hmac_middleware-accepted_iff sha256_hex hmac_sha256_hex secret now again).0 replayed in
      let kept : KeptUntil now again.nonce again.seen_at =
        rw (same, at)
          (serve_all-KeptUntil secret (serve sha256_hex hmac_sha256_hex secret cache r).0 between
            r.nonce again.fresh_at (rw (sym at) early)
            (accepted-KeptUntil secret cache r again ok clock stamp headers)) in
      ground (
        arith,
        seen_nonce-KeptUntil now again.nonce again.seen_at again.seen_at kept (omega arith),
        unseen,
      )
