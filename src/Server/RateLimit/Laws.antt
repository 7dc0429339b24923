-- ===== src/Server/RateLimit/Laws.antt =====
-- The time to a reset that internal/githubhttp/rate_limit.go reads from a text.
use gh_aw_mcpg.Common.{Bool-cases, arith, inl, inr, leb, some, ℕ, ◌*◌, ◌-◌, ◌<◌, ◌^◌, ◌≡◌, ◌≤◌, ◌⊎◌}
use gh_aw_mcpg.Common.Int.{negsuc, pos}
use gh_aw_mcpg.Common.Text.{str_eq}
use gh_aw_mcpg.Server.RateLimit.{positive_seconds, seconds}

-- A positive number of seconds is that time as long as it fits a duration, which it does up to
-- 9223372036. The numbers of seconds from there to 18446744073, and only those are considered, give a
-- time in the past.
pub positive_seconds-sign :
    (secs : ℕ)
    → 0 < secs
    → secs ≤ 18446744073
    → ((secs ≤ 9223372036) × (positive_seconds (some (pos secs)) ≡ some (pos (secs * 1000000000))))
      ⊎ ((n : ℕ) × (9223372036 < secs) × (positive_seconds (some (pos secs)) ≡ some (negsuc n)))
unfolding positive_seconds seconds
positive_seconds-sign secs h b = elim (Bool-cases (leb secs 9223372036)) [
  | inl e ↦ inl (ground arith, ground arith)
  | inr e ↦ inr (2 ^ 64 - secs * 1000000000 - 1, ground arith, ground arith)
]
