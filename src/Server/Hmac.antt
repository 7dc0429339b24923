-- ===== src/Server/Hmac.antt =====
-- internal/server/hmac.go: signed requests with protection against replays. Instants are nanoseconds
-- since the Unix epoch. SHA-256 and HMAC-SHA-256, in hexadecimal, are parameters.
use gh_aw_mcpg.Common.{
  ℕ, ◌+◌, ◌*◌, ◌-◌, ◌<◌, ◌≤◌, ◌^◌, Bool, true, false, not, ◌&&◌, ◌||◌, List, [], ◌∷◌, ◌++◌, Option,
  none, some, is_nil, leb, ltb, eqb, ◌==◌, if◌then◌else◌,
}
use gh_aw_mcpg.Common.Int.{ℤ}
use gh_aw_mcpg.Common.Text.{Str, bytes, str_beq, str_eq}
use gh_aw_mcpg.Common.Dict.{lookup, insert, retain}
pub mod Nonces
pub mod Accept
pub mod Authentic
pub mod Replay

abbrev pub second : ℕ
second = 1_000_000_000

-- `hmacMaxAgeSecs`, in nanoseconds, and `nonceTTL`
abbrev pub max_age : ℕ
max_age = 30 * second

abbrev pub nonce_ttl : ℕ
nonce_ttl = 60 * second

-- a nonce with its eviction deadline
abbrev pub NonceCache : Type 0
NonceCache = List (Str × ℕ)

unfoldable pub evict_expired : NonceCache → ℕ → NonceCache
evict_expired entries now = retain (λ nonce deadline. not (ltb deadline now)) entries

abbrev pub is_some : Option ℕ → Bool
is_some none = false
is_some (some n) = true

unfoldable pub seen_nonce : NonceCache → ℕ → Str → NonceCache × Bool
seen_nonce entries now nonce =
    let left = evict_expired entries now in (left, is_some (lookup nonce left))

unfoldable pub check_and_set : NonceCache → ℕ → Str → NonceCache × Bool
check_and_set entries now nonce =
    let left = evict_expired entries now in
    if is_some (lookup nonce left)
    then (left, false)
    else (insert nonce (now + nonce_ttl) left, true)

-- the digits of `strconv.ParseInt(s, 10, 64)`, most significant first
digits_from : ℕ → Str → Option ℕ
digits_from acc [] = some acc
digits_from acc (c ∷ s) =
    if leb b'0' c && leb c b'9' then digits_from (acc * 10 + (c - b'0')) s else none

abbrev in_range : ℕ → Option ℕ → Option ℕ
in_range limit none = none
in_range limit (some n) = if ltb n limit then some n else none

abbrev negative : Option ℕ → Option ℤ
negative none = none
negative (some n) = some (if eqb n 0 then ℤ.pos 0 else ℤ.negsuc (n - 1))

abbrev positive : Option ℕ → Option ℤ
positive none = none
positive (some n) = some (ℤ.pos n)

unsigned : Str → Option ℕ
unfolding digits_from
unsigned [] = none
unsigned (c ∷ s) = digits_from 0 (c ∷ s)

unfoldable pub parse_int64 : Str → Option ℤ
unfolding unsigned
parse_int64 [] = none
parse_int64 (c ∷ s) =
    if eqb c b'-'
    then negative (in_range (2 ^ 63 + 1) (unsigned s))
    else positive (in_range (2 ^ 63) (if eqb c b'+' then unsigned s else unsigned (c ∷ s)))

-- whether the time stamp, in seconds, is within the maximal age of the instant, on both sides
unfoldable pub is_fresh : ℤ → ℕ → Bool
is_fresh (ℤ.pos seconds) now =
    leb now (seconds * second + max_age) && leb (seconds * second) (now + max_age)
is_fresh (ℤ.negsuc n) now = leb (now + (n + 1) * second) max_age

-- A request: its headers (empty if missing), its path, what reading its body gives (`none` is an
-- error), and the instants of the three looks at the clock.
pub record SignedRequest : Type 0 where
  pub timestamp : Str
  pub nonce : Str
  pub signature : Str
  pub path : Str
  pub body : Option Str
  pub fresh_at : ℕ
  pub seen_at : ℕ
  pub set_at : ℕ

pub data HmacOutcome : Type 0 where
  accepted missing_hmac_headers invalid_timestamp stale_timestamp replay_detected : HmacOutcome
  body_read_error signature_mismatch : HmacOutcome

-- the last step: the nonce of a valid request is used up
unfoldable pub consume : NonceCache × Bool → NonceCache × HmacOutcome
consume (cache, true) = (cache, accepted)
consume (cache, false) = (cache, replay_detected)

module _ (sha256_hex : Str → Str) (hmac_sha256_hex : Str → Str → Str) where
  unfoldable pub compute_hmac : Str → Str → Str → Str → Str → Str
  compute_hmac secret timestamp nonce path body = hmac_sha256_hex secret (
      timestamp
      ++ (bytes "\n" ++ (nonce ++ (bytes "\n" ++ (path ++ (bytes "\n" ++ sha256_hex body))))))

  unfoldable pub check_signature : Str → NonceCache → SignedRequest → Str → NonceCache × HmacOutcome
  unfolding consume
  check_signature secret cache r body =
      if r.signature == compute_hmac secret r.timestamp r.nonce r.path body
      then consume (check_and_set cache r.set_at r.nonce)
      else (cache, signature_mismatch)

  unfoldable pub check_body : Str → SignedRequest → NonceCache × Bool → NonceCache × HmacOutcome
  unfolding check_signature
  check_body secret r (cache, true) = (cache, replay_detected)
  check_body secret r (cache, false) = elim r.body [
    | none ↦ (cache, body_read_error)
    | some body ↦ check_signature secret cache r body
  ]

  -- `hmacMiddleware`, up to the call of the next handler
  unfoldable pub hmac_middleware : Str → NonceCache → SignedRequest → NonceCache × HmacOutcome
  unfolding check_body
  hmac_middleware secret cache r =
      if is_nil r.timestamp || (is_nil r.nonce || is_nil r.signature)
      then (cache, missing_hmac_headers)
      else elim (parse_int64 r.timestamp) [
        | none ↦ (cache, invalid_timestamp)
        | some seconds ↦
            if is_fresh seconds r.fresh_at
            then check_body secret r (seen_nonce cache r.seen_at r.nonce)
            else (cache, stale_timestamp)
      ]
