-- ===== src/Config/Sink.antt =====
-- Write-sink policies: `WriteSinkPolicy` of internal/config/guard_policy.go and
-- its validation in guard_policy_validation.go.
pub mod Laws
use gh_aw_mcpg.Common.{
  Bool, List, Option, [], arith, false, has_key, if◌then◌else◌, insert_key, is_nil, none, not, refl,
  some, ◌==◌, ◌||◌, ◌∷◌,
}
use gh_aw_mcpg.Common.Result.{Result, check, err, ok, ◌>>=◌, ◌>>◌}
use gh_aw_mcpg.Common.Split.{cut_at}
use gh_aw_mcpg.Common.Text.{Str, bytes, str_eq, to_lower, trim_space}
use gh_aw_mcpg.Config.Failure.{
  PolicyError, bad_accept_scope, bad_sink_visibility, bad_visibility_prefix, duplicate_accept,
  mixed_wildcard, nil_sink, no_accept, non_empty_string,
}
use gh_aw_mcpg.Config.Scope.{is_valid_repo_owner, is_valid_repo_scope}

pub record WriteSinkPolicy : Type 0 where
  pub accept : List Str
  pub sink_visibility : Str

-- `validSinkVisibilityValues`, and `validVisibility` of `validateAcceptEntry`
abbrev pub visibilities : List Str
visibilities = bytes "public" ∷ bytes "private" ∷ bytes "internal" ∷ []

-- the scope behind the prefix, if the prefix is one of the three
pub accept_scope : Str → Option (Str × Str) → Result PolicyError Str
accept_scope entry none = ok entry
accept_scope entry (some ([], after)) = ok entry
accept_scope entry (some (c ∷ before, after)) =
    if has_key visibilities (c ∷ before) then ok after else err PolicyError.bad_visibility_prefix

pub validate_accept_entry : Str → Result PolicyError (Unit {0})
validate_accept_entry entry = do
  scope ← accept_scope entry (cut_at b':' entry)
  check (is_valid_repo_scope scope || is_valid_repo_owner scope) PolicyError.bad_accept_scope

-- the loop over the entries, with the set of those seen
pub accept_loop : List Str → List Str → Result PolicyError (Unit {0})
accept_loop [] seen = ok tt
accept_loop (e ∷ rest) seen = do
  let entry = trim_space e
  non_empty_string entry
  check (not (entry == bytes "*")) PolicyError.mixed_wildcard
  check (not (has_key seen entry)) PolicyError.duplicate_accept
  validate_accept_entry entry
  accept_loop rest (insert_key entry seen)

-- `["*"]`
pub is_wildcard : List Str → Bool
is_wildcard (e ∷ []) = trim_space e == bytes "*"
is_wildcard _ = false

pub validate_write_sink_policy : Option WriteSinkPolicy → Result PolicyError (Unit {0})
validate_write_sink_policy none = err PolicyError.nil_sink
validate_write_sink_policy (some ws) = do
  check (not (is_nil ws.accept)) PolicyError.no_accept
  check
      (is_nil ws.sink_visibility || has_key visibilities (to_lower (trim_space ws.sink_visibility)))
      PolicyError.bad_sink_visibility
  if is_wildcard ws.accept then ok tt else accept_loop ws.accept []
