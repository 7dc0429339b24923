-- ===== src/Config/Build.antt =====
-- `BuildAllowOnlyPolicy` of internal/config/guard_policy_parse.go.
pub mod Laws
use gh_aw_mcpg.Common.{
  Bool, Option, [], arith, eqb, has_key, if◌then◌else◌, is_nil, none, not, refl, some, ℕ, ◌&&◌,
  ◌++◌, ◌||◌, ◌∷◌,
}
use gh_aw_mcpg.Common.Json.{string}
use gh_aw_mcpg.Common.Result.{Result, err, ok, ◌>>=◌, ◌>>◌}
use gh_aw_mcpg.Common.Text.{Str, bytes, str_eq, to_lower, trim_space}
use gh_aw_mcpg.Config.Failure.{
  PolicyError, bad_integrity, empty_value, repo_without_owner, scope_count,
}
use gh_aw_mcpg.Config.Integrity.{all_integrity_levels}
use gh_aw_mcpg.Config.Policy.{
  AllowOnlyPolicy, GuardPolicy, Repos, decoded, string_slice, validate_guard_policy,
}

-- `strings.ReplaceAll(s, b, "")` for one byte
unfoldable pub remove_byte : ℕ → Str → Str
remove_byte b [] = []
remove_byte b (c ∷ s) = let rest = remove_byte b s in if eqb c b then rest else c ∷ rest

-- `integrityByInput`
unfoldable pub integrity_by_input : Str → Option Str
integrity_by_input key = if has_key all_integrity_levels key then some key else none

abbrev scope_of : Str → Str → Str
scope_of owner repo = if is_nil repo then owner ++ bytes "/*" else owner ++ b'/' ∷ repo

-- the fields that are not given have their zero values
abbrev pub allow_only_of : Repos → Str → AllowOnlyPolicy
allow_only_of repos level = record {
  repos = repos;
  min_integrity = level;
  tool_call_limits = [];
  blocked_users = [];
  refusal_labels = [];
  approval_labels = [];
  trusted_users = [];
  endorsement_reactions = [];
  disapproval_reactions = [];
  disapproval_integrity = [];
  endorser_min_integrity = [];
  promotion_label = [];
  demotion_label = [];
}

abbrev pub repos_of : Bool → Str → Str → Repos
repos_of is_public owner repo =
    if is_public then decoded (string (bytes "public")) else string_slice (scope_of owner repo ∷ [])

unfoldable pub finish_policy : Repos → Option Str → Result PolicyError (Option GuardPolicy)
finish_policy repos none = err PolicyError.bad_integrity
finish_policy repos (some level) = do
  let policy : GuardPolicy = record {
    allow_only = some (allow_only_of repos level);
    write_sink = none;
  }
  validate_guard_policy (some policy)
  ok (some policy)

-- `some` of a policy, or `none` when nothing was asked for
unfoldable pub build_allow_only_policy :
    Bool → Str → Str → Str → Result PolicyError (Option GuardPolicy)
build_allow_only_policy is_public owner_flag repo_flag min_integrity =
    let owner = trim_space owner_flag in
    let repo = trim_space repo_flag in
    let input = trim_space min_integrity in
    let level = integrity_by_input (to_lower (remove_byte b'-' input)) in
    let rest = finish_policy (repos_of is_public owner repo) level in
    if not (is_nil repo) && is_nil owner
    then err PolicyError.repo_without_owner
    else if not is_public && is_nil owner && is_nil min_integrity
    then ok none
    else if is_public && not (is_nil owner) || not is_public && is_nil owner
    then err PolicyError.scope_count
    else if is_nil input
    then err PolicyError.empty_value
    else rest
