-- ===== src/Config/Integrity.antt =====
-- Integrity levels: internal/config/guard_policy.go and guard_policy_validation.go.
use gh_aw_mcpg.Common.{
  Bool, List, [], arith, has_key, if◌then◌else◌, inl, inr, is_nil, refl, true, ◌&&◌, ◌∷◌, ◌≡◌, ◌⊎◌,
}
use gh_aw_mcpg.Common.Result.{Result, err, ok}
use gh_aw_mcpg.Common.Text.{Str, bytes, str_beq, str_beq_iff, str_eq, to_lower, trim_space}
use gh_aw_mcpg.Config.Failure.{PolicyError}

abbrev pub all_integrity_levels : List Str
all_integrity_levels = bytes "none" ∷ bytes "unapproved" ∷ bytes "approved" ∷ bytes "merged" ∷ []

unfoldable pub normalize_integrity_level : Str → Bool → Result PolicyError Str
normalize_integrity_level raw optional =
    let normalized = to_lower (trim_space raw) in
    if is_nil normalized && optional
    then ok []
    else if has_key all_integrity_levels normalized
    then ok normalized
    else err PolicyError.bad_integrity

level-cases :
    (v : Str)
    → has_key all_integrity_levels v ≡ true
    → (v ≡ bytes "none") ⊎ (v ≡ bytes "unapproved") ⊎ (v ≡ bytes "approved") ⊎ (v ≡ bytes "merged")
unfolding has_key
level-cases v h = ground (
  arith,
  str_beq_iff (bytes "none") v,
  str_beq_iff (bytes "unapproved") v,
  str_beq_iff (bytes "approved") v,
  str_beq_iff (bytes "merged") v,
)

normalize_integrity_level_fixed :
    (v : Str) (optional : Bool)
    → has_key all_integrity_levels v ≡ true
    → normalize_integrity_level v optional ≡ ok v
unfolding normalize_integrity_level trim_space to_lower has_key str_beq
normalize_integrity_level_fixed v optional h = elim (level-cases v h) [
  | inl e ↦ rw e refl
  | inr (inl e) ↦ rw e refl
  | inr (inr (inl e)) ↦ rw e refl
  | inr (inr (inr e)) ↦ rw e refl
]

-- A normalised level is one of the four, or empty where that is allowed,
pub normalize_integrity_level-cases :
    (raw v : Str) (optional : Bool)
    → normalize_integrity_level raw optional ≡ ok v
    → ((v ≡ []) × (optional ≡ true)) ⊎ (has_key all_integrity_levels v ≡ true)
unfolding normalize_integrity_level
normalize_integrity_level-cases raw v optional h = ground arith

-- and it is normalised to itself.
pub normalize_integrity_level_idem :
    (raw v : Str) (optional : Bool)
    → normalize_integrity_level raw optional ≡ ok v
    → normalize_integrity_level v optional ≡ ok v
unfolding normalize_integrity_level trim_space to_lower
normalize_integrity_level_idem raw v optional h =
    elim (normalize_integrity_level-cases raw v optional h) [
      | inl (empty, o) ↦ rw (empty, o) refl
      | inr level ↦ normalize_integrity_level_fixed v optional level
    ]
