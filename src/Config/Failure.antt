-- ===== src/Config/Failure.antt =====
-- The errors of internal/config/guard_policy.go, guard_policy_parse.go and
-- guard_policy_validation.go, one constructor for each message.
use gh_aw_mcpg.Common.{is_nil, nat_eq, not}
use gh_aw_mcpg.Common.Result.{Result, check}
use gh_aw_mcpg.Common.Text.{Str, str_eq}

pub data PolicyError : Type 0 where
  missing_key missing_allow_only both_policies : PolicyError
  bad_integrity : PolicyError
  empty_value : PolicyError
  nil_sink no_accept mixed_wildcard duplicate_accept : PolicyError
  bad_sink_visibility bad_visibility_prefix bad_accept_scope : PolicyError
  no_scopes scope_type bad_scope duplicate_scope : PolicyError
  repos_word repos_type : PolicyError
  negative_limit : PolicyError
  repo_without_owner scope_count : PolicyError
  unsupported_field missing_repos bad_type no_label : PolicyError
  not_an_object missing_integrity bad_json : PolicyError

-- `RequiredStringField` and `NonEmptyString`
unfoldable pub non_empty_string : Str → Result PolicyError (Unit {0})
non_empty_string value = check (not (is_nil value)) PolicyError.empty_value
