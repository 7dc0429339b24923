-- ===== src/Server/RateLimit.antt =====
-- Rate limits in the results of tools: internal/server/rate_limit.go, and the two parsers of
-- internal/githubhttp/rate_limit.go. A reset is the time from now on in nanoseconds, or `none` for the
-- zero time.
pub mod Laws
use gh_aw_mcpg.Common.{
  Bool, Option, [], arith, eqb, false, if◌then◌else◌, is_nil, leb, length, ltb, none, refl, some,
  true, ℕ, ◌%◌, ◌&&◌, ◌*◌, ◌-◌, ◌^◌, ◌||◌, ◌∷◌,
}
use gh_aw_mcpg.Common.Decimal.{atoi}
use gh_aw_mcpg.Common.Dict.{lookup}
use gh_aw_mcpg.Common.Int.{negsuc, pos, ℤ}
use gh_aw_mcpg.Common.Json.{Json, boolean, entries, object}
use gh_aw_mcpg.Common.Split.{has_substring}
use gh_aw_mcpg.Common.Text.{Str, bytes, str_eq, strip_prefix, to_lower, trim_space}
use gh_aw_mcpg.Mcp.Result.{extract_text_content}

unfoldable pub extract_rate_limit_error_text : Json → Str
extract_rate_limit_error_text (object fields) =
    let content = extract_text_content (entries fields) in
    if is_nil content then bytes "rate limit exceeded" else content
extract_rate_limit_error_text other = bytes "rate limit exceeded"

unfoldable pub is_rate_limit_text : Str → Bool
is_rate_limit_text s =
    let lower = to_lower s in
    has_substring (bytes "rate limit exceeded") lower
    || (has_substring (bytes "rate limit") lower && has_substring (bytes "403") lower)
    || has_substring (bytes "api rate limit") lower
    || has_substring (bytes "secondary rate limit") lower
    || has_substring (bytes "too many requests") lower

unfoldable pub skip : ℕ → Str → Str
skip n [] = []
skip n (c ∷ s) = if leb n 0 then c ∷ s else skip (n - 1) s

-- what stands in the text after the first place where its lower case has the part
unfoldable pub after_part : Str → Str → Str → Option Str
after_part part [] s = none
after_part part (c ∷ lower) s = elim (strip_prefix part (c ∷ lower)) [
  | some rest ↦ some (skip (length part) s)
  | none ↦ after_part part lower (skip 1 s)
]

abbrev is_end : ℕ → Bool
is_end c = eqb c b's' || eqb c b']' || eqb c b')'

-- up to the first byte of `s])`, if there is one
unfoldable pub before_end : Str → Option Str
before_end [] = none
before_end (c ∷ s) =
    let rest = before_end s in
    if is_end c then some [] else elim rest [ none ↦ none | some found ↦ some (c ∷ found) ]

-- a 64-bit pattern as a signed number
abbrev pub signed64 : ℕ → ℤ
signed64 n = if ltb n (2 ^ 63) then pos n else negsuc (2 ^ 64 - n - 1)

-- `time.Duration(secs) * time.Second`
unfoldable pub seconds : ℕ → ℤ
seconds secs = signed64 ((secs * 1000000000) % 2 ^ 64)

unfoldable pub positive_seconds : Option ℤ → Option ℤ
positive_seconds none = none
positive_seconds (some (negsuc n)) = none
positive_seconds (some (pos n)) = if leb n 0 then none else some (seconds n)

unfoldable pub parse_end : Option Str → Option ℤ
parse_end none = none
parse_end (some digits) = positive_seconds (atoi (trim_space digits))

unfoldable pub parse_rate_limit_reset_from_text : Str → Option ℤ
parse_rate_limit_reset_from_text s = elim (after_part (bytes "rate reset in ") (to_lower s) s) [
  | none ↦ none
  | some rest ↦ parse_end (before_end rest)
]

-- the instant in seconds since the epoch
unfoldable pub parse_rate_limit_reset_header : Str → Option ℤ
parse_rate_limit_reset_header v = if is_nil v then none else atoi (trim_space v)

abbrev is_true : Option Json → Bool
is_true (some (boolean b)) = b
is_true other = false

unfoldable pub is_rate_limit_tool_result : Json → Bool × Option ℤ
is_rate_limit_tool_result (object fields) =
    let content = extract_text_content (entries fields) in
    if is_true (lookup (bytes "isError") (entries fields)) && is_rate_limit_text content
    then (true, parse_rate_limit_reset_from_text content)
    else (false, none)
is_rate_limit_tool_result other = (false, none)
