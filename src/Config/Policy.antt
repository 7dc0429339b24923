-- ===== src/Config/Policy.antt =====
-- Guard policies: the records of internal/config/guard_policy.go and `NormalizeGuardPolicy` of
-- guard_policy_validation.go.
pub mod Slice
pub mod Limits
pub mod Normal
use gh_aw_mcpg.Common.{
  Bool, List, Option, [], arith, false, has_key, if◌then◌else◌, insert_key, none, not, refl, some,
  true, ◌++◌, ◌==◌, ◌||◌, ◌∷◌,
}
use gh_aw_mcpg.Common.Dict.{insert}
use gh_aw_mcpg.Common.Int.{negsuc, pos, ℤ}
use gh_aw_mcpg.Common.Json.{Json, array, elements, string}
use gh_aw_mcpg.Common.Result.{Result, check, err, ok, ◌>>=◌, ◌>>◌}
use gh_aw_mcpg.Common.Text.{Str, bytes, str_eq, to_lower, to_upper, trim_space}
use gh_aw_mcpg.Config.Failure.{
  PolicyError, missing_allow_only, missing_key, negative_limit, non_empty_string, repos_type,
  repos_word,
}
use gh_aw_mcpg.Config.Integrity.{normalize_integrity_level}
use gh_aw_mcpg.Config.Scope.{normalize_and_validate_scope_array}
use gh_aw_mcpg.Config.Scope.Array.{strings}
use gh_aw_mcpg.Config.Sink.{WriteSinkPolicy, validate_write_sink_policy}

-- the dynamic type of the field `Repos`: a decoded JSON value, or the `[]string` of
-- `BuildAllowOnlyPolicy`
pub data Repos : Type 0 where
  decoded : Json → Repos
  string_slice : List Str → Repos

pub record AllowOnlyPolicy : Type 0 where
  pub repos : Repos
  pub min_integrity : Str
  pub tool_call_limits : List (Str × ℤ)
  pub blocked_users : List Str
  pub refusal_labels : List Str
  pub approval_labels : List Str
  pub trusted_users : List Str
  pub endorsement_reactions : List Str
  pub disapproval_reactions : List Str
  pub disapproval_integrity : Str
  pub endorser_min_integrity : Str
  pub promotion_label : Str
  pub demotion_label : Str

pub record GuardPolicy : Type 0 where
  pub allow_only : Option AllowOnlyPolicy
  pub write_sink : Option WriteSinkPolicy

pub record NormalizedGuardPolicy : Type 0 where
  pub scope_kind : Str
  pub scope_values : List Str
  pub min_integrity : Str
  pub tool_call_limits : List (Str × ℤ)
  pub blocked_users : List Str
  pub refusal_labels : List Str
  pub approval_labels : List Str
  pub trusted_users : List Str
  pub endorsement_reactions : List Str
  pub disapproval_reactions : List Str
  pub disapproval_integrity : Str
  pub endorser_min_integrity : Str
  pub promotion_label : Str
  pub demotion_label : Str

-- the loop of `normalizeStringSlice`
unfoldable pub slice_loop :
    (Str → Str) → Bool → List Str → List Str → List Str → Result PolicyError (List Str)
slice_loop case_norm store_norm [] seen out = ok out
slice_loop case_norm store_norm (s ∷ ss) seen out = do
  let v = trim_space s
  let key = case_norm v
  let stored = if store_norm then key else v
  non_empty_string v
  if has_key seen key
      then slice_loop case_norm store_norm ss seen out
      else slice_loop case_norm store_norm ss (insert_key key seen) (out ++ stored ∷ [])

unfoldable pub normalize_string_slice :
    List Str → (Str → Str) → Bool → Result PolicyError (List Str)
normalize_string_slice input case_norm store_norm = slice_loop case_norm store_norm input [] []

abbrev pub is_negative : ℤ → Bool
is_negative (pos n) = false
is_negative (negsuc n) = true

-- the loop of `normalizeToolCallLimits`, in the order in which the map is iterated over
unfoldable pub limits_loop : List (Str × ℤ) → List (Str × ℤ) → Result PolicyError (List (Str × ℤ))
limits_loop [] out = ok out
limits_loop ((name, limit) ∷ limits) out = do
  let tool_name = trim_space name
  non_empty_string tool_name
  check (not (is_negative limit)) PolicyError.negative_limit
  limits_loop limits (insert tool_name limit out)

unfoldable pub normalize_tool_call_limits : List (Str × ℤ) → Result PolicyError (List (Str × ℤ))
normalize_tool_call_limits input = limits_loop input []

-- the branches of an array of scopes, for either type of array
unfoldable pub normalize_scoped : List Json → Result PolicyError (Str × List Str)
normalize_scoped scopes = do
  found ← normalize_and_validate_scope_array scopes
  ok (bytes "scoped", found)

-- the scope kind and the scope values
unfoldable pub normalize_repos : Repos → Result PolicyError (Str × List Str)
normalize_repos (decoded (string s)) =
    let scope = to_lower (trim_space s) in
    if scope == bytes "all" || scope == bytes "public"
    then ok (scope, [])
    else err PolicyError.repos_word
normalize_repos (decoded (array vs)) = normalize_scoped (elements vs)
normalize_repos (string_slice ss) = normalize_scoped (strings ss)
normalize_repos (decoded other) = err PolicyError.repos_type

unfoldable pub normalize_allow_only : AllowOnlyPolicy → Result PolicyError NormalizedGuardPolicy
normalize_allow_only p = do
  level ← normalize_integrity_level p.min_integrity false
  limits ← normalize_tool_call_limits p.tool_call_limits
  blocked ← normalize_string_slice p.blocked_users to_lower false
  refusal ← normalize_string_slice p.refusal_labels to_lower false
  approval ← normalize_string_slice p.approval_labels to_lower false
  trusted ← normalize_string_slice p.trusted_users to_lower false
  endorsement ← normalize_string_slice p.endorsement_reactions to_upper true
  disapproval ← normalize_string_slice p.disapproval_reactions to_upper true
  disapproval_level ← normalize_integrity_level p.disapproval_integrity true
  endorser_level ← normalize_integrity_level p.endorser_min_integrity true
  scope ← normalize_repos p.repos
  ok (record {
    scope_kind = scope.0;
    scope_values = scope.1;
    min_integrity = level;
    tool_call_limits = limits;
    blocked_users = blocked;
    refusal_labels = refusal;
    approval_labels = approval;
    trusted_users = trusted;
    endorsement_reactions = endorsement;
    disapproval_reactions = disapproval;
    disapproval_integrity = disapproval_level;
    endorser_min_integrity = endorser_level;
    promotion_label = trim_space p.promotion_label;
    demotion_label = trim_space p.demotion_label;
  })

-- the cases of the nil checks at the head of `NormalizeGuardPolicy`
unfoldable pub normalize_fields :
    Option AllowOnlyPolicy → Option WriteSinkPolicy → Result PolicyError NormalizedGuardPolicy
normalize_fields none none = err PolicyError.missing_key
normalize_fields none (some ws) = err PolicyError.missing_allow_only
normalize_fields (some p) sink = normalize_allow_only p

unfoldable pub normalize_guard_policy :
    Option GuardPolicy → Result PolicyError NormalizedGuardPolicy
normalize_guard_policy none = err PolicyError.missing_key
normalize_guard_policy (some policy) = normalize_fields policy.allow_only policy.write_sink

unfoldable pub validate_fields :
    GuardPolicy → Option WriteSinkPolicy → Result PolicyError (Unit {0})
validate_fields policy (some ws) = validate_write_sink_policy (some ws)
validate_fields policy none = do normalized ← normalize_guard_policy (some policy); ok tt

unfoldable pub validate_guard_policy : Option GuardPolicy → Result PolicyError (Unit {0})
validate_guard_policy none = err PolicyError.missing_key
validate_guard_policy (some policy) = validate_fields policy policy.write_sink
