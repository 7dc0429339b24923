-- ===== src/Server/Hmac/Accept.antt =====
-- What a request that is let through shows (internal/server/hmac.go).
use gh_aw_mcpg.Common.{
  ◌≡◌, ◌↔◌, refl, Bool, true, false, none, some, is_nil, ◌⊎◌, inl, inr, Option-cases, arith,
}
use gh_aw_mcpg.Common.Int.{ℤ}
use gh_aw_mcpg.Common.Text.{Str, str_beq_iff, str_eq}
use gh_aw_mcpg.Common.Dict.{lookup}
use gh_aw_mcpg.Server.Hmac.{
  NonceCache, evict_expired, is_some, seen_nonce, check_and_set, parse_int64, is_fresh,
  SignedRequest, HmacOutcome, accepted, compute_hmac, hmac_middleware, check_body, check_signature,
  consume,
}

-- the headers are there and the time stamp is fresh
abbrev pub HasFreshHeaders : SignedRequest → Type 0
HasFreshHeaders r =
    (is_nil r.timestamp ≡ false)
    × (is_nil r.nonce ≡ false)
    × (is_nil r.signature ≡ false)
    × ((seconds : ℤ) × (parse_int64 r.timestamp ≡ some seconds)
        × (is_fresh seconds r.fresh_at ≡ true))

module _ (sha256_hex : Str → Str) (hmac_sha256_hex : Str → Str → Str) where
  abbrev pub serve : Str → NonceCache → SignedRequest → NonceCache × HmacOutcome
  serve secret cache r = hmac_middleware sha256_hex hmac_sha256_hex secret cache r

  consume-cache : (p : NonceCache × Bool) → (consume p).0 ≡ p.0
  unfolding consume
  consume-cache (cache, true) = refl
  consume-cache (cache, false) = refl

  check_signature-cache :
      (secret : Str) (cache : NonceCache) (r : SignedRequest) (body : Str)
      → let cache' = (check_signature sha256_hex hmac_sha256_hex secret cache r body).0 in
        (cache' ≡ cache) ⊎ (cache' ≡ (check_and_set cache r.set_at r.nonce).0)
  unfolding check_signature
  check_signature-cache secret cache r body =
      ground (arith, consume-cache (check_and_set cache r.set_at r.nonce))

  check_body-cache :
      (secret : Str) (cache : NonceCache) (r : SignedRequest) (b : Bool)
      → let cache' = (check_body sha256_hex hmac_sha256_hex secret r (cache, b)).0 in
        (cache' ≡ cache) ⊎ (cache' ≡ (check_and_set cache r.set_at r.nonce).0)
  unfolding check_body
  check_body-cache secret cache r true = inl refl
  check_body-cache secret cache r false = elim (Option-cases r.body) [
    | inl failed ↦ ground arith
    | inr (body, read) ↦ rw read (check_signature-cache secret cache r body)
  ]

  -- the caches that the middleware may leave
  pub serve-cache :
      (secret : Str) (cache : NonceCache) (r : SignedRequest)
      → let left = evict_expired cache r.seen_at in
        let cache' = (serve secret cache r).0 in
        (cache' ≡ cache) ⊎ ((cache' ≡ left) ⊎ (cache' ≡ (check_and_set left r.set_at r.nonce).0))
  unfolding hmac_middleware seen_nonce
  serve-cache secret cache r =
      let left = evict_expired cache r.seen_at in
      ground (arith, check_body-cache secret left r (is_some (lookup r.nonce left)))

  -- the body is read and the signature is that of the secret
  abbrev pub IsSigned : Str → SignedRequest → Type 0
  IsSigned secret r =
      (body : Str) × (r.body ≡ some body)
      × (r.signature
          ≡ compute_hmac sha256_hex hmac_sha256_hex secret r.timestamp r.nonce r.path body)

  consume_iff : (p : NonceCache × Bool) → ((consume p).1 ≡ accepted) ↔ (p.1 ≡ true)
  unfolding consume
  consume_iff (cache, true) = ground arith
  consume_iff (cache, false) = ground arith

  check_body_iff :
      (secret : Str) (cache : NonceCache) (r : SignedRequest) (b : Bool)
      → ((check_body sha256_hex hmac_sha256_hex secret r (cache, b)).1 ≡ accepted)
        ↔ ((b ≡ false) × IsSigned secret r × ((check_and_set cache r.set_at r.nonce).1 ≡ true))
  unfolding check_body check_signature
  check_body_iff secret cache r true = ground arith
  check_body_iff secret cache r false = elim (Option-cases r.body) [
    | inl failed ↦ ground arith
    | inr (body, read) ↦ ground (
      arith,
      consume_iff (check_and_set cache r.set_at r.nonce),
      str_beq_iff r.signature
          (compute_hmac sha256_hex hmac_sha256_hex secret r.timestamp r.nonce r.path body),
    )
  ]

  not_parsed :
      (secret : Str) (cache : NonceCache) (r : SignedRequest)
      → parse_int64 r.timestamp ≡ none
      → {P : Type 0} → (serve secret cache r).1 ≡ accepted
      → P
  unfolding hmac_middleware
  not_parsed secret cache r parsed h = ground arith

  parsed_iff :
      (secret : Str) (cache : NonceCache) (r : SignedRequest) (seconds : ℤ)
      → parse_int64 r.timestamp ≡ some seconds
      → let (left, seen) = seen_nonce cache r.seen_at r.nonce in
        ((serve secret cache r).1 ≡ accepted) ↔ (
          HasFreshHeaders r
          × (seen ≡ false)
          × IsSigned secret r
          × ((check_and_set left r.set_at r.nonce).1 ≡ true))
  unfolding hmac_middleware
  parsed_iff secret cache r seconds parsed =
      let (left, seen) = seen_nonce cache r.seen_at r.nonce in
      let (to, from) = check_body_iff secret left r seen in
      (
        λ h.
            let (unseen, signed, set) = to (ground arith) in
            (
              (ground arith, ground arith, ground arith, (seconds, parsed, ground arith)),
              unseen,
              signed,
              set,
            ),
        λ h. let (seconds', parsed', fresh) = h.0.3 in ground (arith, from (h.1, h.2, h.3)),
      )

  -- The tests that a request has to pass, in the words of the code.
  pub hmac_middleware-accepted_iff :
      (secret : Str) (cache : NonceCache) (r : SignedRequest)
      → let (left, seen) = seen_nonce cache r.seen_at r.nonce in
        ((hmac_middleware sha256_hex hmac_sha256_hex secret cache r).1 ≡ accepted) ↔ (
          HasFreshHeaders r
          × (seen ≡ false)
          × IsSigned secret r
          × ((check_and_set left r.set_at r.nonce).1 ≡ true))
  hmac_middleware-accepted_iff secret cache r = elim (Option-cases (parse_int64 r.timestamp)) [
    | inl none_parsed ↦ (λ h. not_parsed secret cache r none_parsed h, λ h. ground arith)
    | inr (seconds, parsed) ↦ parsed_iff secret cache r seconds parsed
  ]

  check_body_stored :
      (secret : Str) (cache : NonceCache) (r : SignedRequest) (b : Bool)
      → let p = check_body sha256_hex hmac_sha256_hex secret r (cache, b) in
        p.1 ≡ accepted → p.0 ≡ (check_and_set cache r.set_at r.nonce).0
  unfolding check_body check_signature
  check_body_stored secret cache r true h = ground arith
  check_body_stored secret cache r false h = elim (Option-cases r.body) [
    | inl failed ↦ ground arith
    | inr (body, read) ↦ ground (arith, consume-cache (check_and_set cache r.set_at r.nonce))
  ]

  pub accepted_stored :
      (secret : Str) (cache : NonceCache) (r : SignedRequest)
      → (serve secret cache r).1 ≡ accepted
      → (serve secret cache r).0
        ≡ (check_and_set (seen_nonce cache r.seen_at r.nonce).0 r.set_at r.nonce).0
  unfolding hmac_middleware
  accepted_stored secret cache r h =
      let (left, seen) = seen_nonce cache r.seen_at r.nonce in
      ground (arith, check_body_stored secret left r seen)
