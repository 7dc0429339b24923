-- ===== src/Tests/Configuration.antt =====
-- Runs of the code on guard policies (internal/config).
use gh_aw_mcpg.Common.{
  Option, [], arith, false, has_key, insert_key, none, refl, some, true, ◌↔◌, ◌∷◌, ◌≡◌,
}
use gh_aw_mcpg.Common.Dict.{insert, lookup}
use gh_aw_mcpg.Common.Int.{pos}
use gh_aw_mcpg.Common.Json.{Json, array, string, to_items}
use gh_aw_mcpg.Common.Order.{sort_strings, str_leb}
use gh_aw_mcpg.Common.Result.{ok}
use gh_aw_mcpg.Common.Split.{count_byte, ends_with, init, split, trim_suffix}
use gh_aw_mcpg.Common.Text.{Str, bytes, str_beq, str_eq, to_lower, to_upper, trim_space}
use gh_aw_mcpg.Config.Build.{
  allow_only_of, build_allow_only_policy, finish_policy, integrity_by_input, remove_byte,
}
use gh_aw_mcpg.Config.Codec.{decode_guard_policy}
use gh_aw_mcpg.Config.Codec.Encode.{encode_guard_policy}
use gh_aw_mcpg.Config.Codec.RoundTrip.Whole.{
  decode_guard_policy-encode_guard_policy, expected_policy,
}
use gh_aw_mcpg.Config.Failure.{non_empty_string}
use gh_aw_mcpg.Config.Integrity.{normalize_integrity_level}
use gh_aw_mcpg.Config.Parse.{Env, resolve_guard_policy_override}
use gh_aw_mcpg.Config.Parse.Laws.{resolve_guard_policy_override-Valid}
use gh_aw_mcpg.Config.Policy.{
  AllowOnlyPolicy, GuardPolicy, NormalizedGuardPolicy, decoded, limits_loop, normalize_allow_only,
  normalize_fields, normalize_guard_policy, normalize_repos, normalize_scoped,
  normalize_string_slice, normalize_tool_call_limits, slice_loop, string_slice, validate_fields,
  validate_guard_policy,
}
use gh_aw_mcpg.Config.Policy.Normal.{as_policy, normalize_allow_only_idem}
use gh_aw_mcpg.Config.Scope.{
  is_scope_token_char, is_valid_repo_name, is_valid_repo_owner, is_valid_repo_part,
  is_valid_repo_scope, is_valid_token_string, normalize_and_validate_scope_array, scope_loop,
  token_bytes, valid_parts,
}
use gh_aw_mcpg.Config.Scope.Array.{strings}
use gh_aw_mcpg.Config.Scope.Laws.{Shape, WellFormed, is_valid_repo_scope_iff, print}
use gh_aw_mcpg.Config.Sink.{WriteSinkPolicy, validate_write_sink_policy}
use gh_aw_mcpg.Config.Sink.Laws.{ValidAccept, ValidVisibility, validate_write_sink_policy_iff}

abbrev messy : AllowOnlyPolicy
messy =
    record (allow_only_of
      (decoded (array (to_items (strings (bytes " me/b" ∷ bytes "me/a* " ∷ [])))))
      (bytes " Approved")) {
        tool_call_limits = (bytes " get_me", pos 3) ∷ [];
        blocked_users = bytes "Bob" ∷ bytes " bob " ∷ [];
        endorsement_reactions = bytes "heart" ∷ [];
        promotion_label = bytes " ok ";
      }

abbrev tidy : NormalizedGuardPolicy
tidy = record {
  scope_kind = bytes "scoped";
  scope_values = bytes "me/a*" ∷ bytes "me/b" ∷ [];
  min_integrity = bytes "approved";
  tool_call_limits = (bytes "get_me", pos 3) ∷ [];
  blocked_users = bytes "Bob" ∷ [];
  refusal_labels = [];
  approval_labels = [];
  trusted_users = [];
  endorsement_reactions = bytes "HEART" ∷ [];
  disapproval_reactions = [];
  disapproval_integrity = [];
  endorser_min_integrity = [];
  promotion_label = bytes "ok";
  demotion_label = [];
}

messy-tidy : normalize_allow_only messy ≡ ok tidy
unfolding normalize_allow_only normalize_integrity_level normalize_tool_call_limits limits_loop
    normalize_string_slice slice_loop normalize_repos normalize_scoped
    normalize_and_validate_scope_array scope_loop sort_strings is_valid_repo_scope valid_parts
    is_valid_repo_owner is_valid_repo_part is_valid_repo_name is_valid_token_string token_bytes
    is_scope_token_char split count_byte ends_with init trim_suffix str_leb trim_space to_lower
    to_upper str_beq has_key insert_key non_empty_string insert
messy-tidy = refl

normalize_allow_only_idem_example : normalize_allow_only (as_policy tidy) ≡ ok tidy
normalize_allow_only_idem_example = normalize_allow_only_idem messy tidy messy-tidy

two_scopes :
    normalize_and_validate_scope_array (string (bytes " me/b") ∷ string (bytes "me/a* ") ∷ [])
    ≡ ok (bytes "me/a*" ∷ bytes "me/b" ∷ [])
unfolding normalize_and_validate_scope_array scope_loop sort_strings is_valid_repo_scope valid_parts
    is_valid_repo_owner is_valid_repo_part is_valid_repo_name is_valid_token_string token_bytes
    is_scope_token_char split count_byte ends_with init trim_suffix str_leb trim_space str_beq
    has_key insert_key non_empty_string
two_scopes = refl

is_valid_repo_scope_iff_example :
    (is_valid_repo_scope (bytes "me/a*") ≡ true)
    ↔ ((shape : Shape) × (WellFormed shape) × (print shape ≡ bytes "me/a*"))
is_valid_repo_scope_iff_example = is_valid_repo_scope_iff (bytes "me/a*")

abbrev one_sink : WriteSinkPolicy
one_sink = record { accept = bytes "private:me/a*" ∷ []; sink_visibility = bytes "Private" }

validate_write_sink_policy_iff_example :
    (validate_write_sink_policy (some one_sink) ≡ ok tt)
    ↔ (ValidVisibility one_sink.sink_visibility × ValidAccept one_sink.accept)
validate_write_sink_policy_iff_example = validate_write_sink_policy_iff one_sink

decode_guard_policy-encode_guard_policy_example :
    decode_guard_policy
      (encode_guard_policy (record { allow_only = some messy; write_sink = none }))
    ≡ expected_policy (some messy) none
unfolding trim_space to_lower lookup
decode_guard_policy-encode_guard_policy_example =
    decode_guard_policy-encode_guard_policy (record { allow_only = some messy; write_sink = none })
      (refl, refl, (omega arith, tt), (refl, tt))

abbrev no_json : Str → Option Json
no_json text = none

abbrev show_text : Json → Str
show_text (string s) = s
show_text other = bytes "?"

abbrev my_policy : GuardPolicy
my_policy = record {
  allow_only = some (allow_only_of (string_slice (bytes "me/*" ∷ [])) (bytes "none"));
  write_sink = none;
}

flags_build : build_allow_only_policy false (bytes "me ") [] (bytes "NO-NE") ≡ ok (some my_policy)
unfolding build_allow_only_policy finish_policy integrity_by_input remove_byte validate_guard_policy
    validate_fields normalize_guard_policy normalize_fields normalize_allow_only
    normalize_integrity_level normalize_tool_call_limits limits_loop normalize_string_slice
    slice_loop normalize_repos normalize_scoped normalize_and_validate_scope_array scope_loop
    sort_strings is_valid_repo_scope valid_parts is_valid_repo_owner is_valid_repo_part
    is_valid_repo_name is_valid_token_string token_bytes is_scope_token_char split count_byte
    ends_with init trim_suffix str_leb trim_space to_lower str_beq has_key insert_key
    non_empty_string
flags_build = refl

abbrev my_env : Env
my_env = (bytes "MCP_GATEWAY_ALLOWONLY_SCOPE_OWNER", bytes "you") ∷ []

from_flags :
    resolve_guard_policy_override no_json show_text my_env true [] false
      (bytes "me ")
      []
      (bytes "NO-NE")
    ≡ ok (some my_policy, bytes "cli")
unfolding resolve_guard_policy_override trim_space
from_flags = rw flags_build refl

resolve_guard_policy_override-Valid_example :
    (validate_guard_policy (some my_policy) ≡ ok tt) × (bytes "cli" ≡ bytes "cli")
resolve_guard_policy_override-Valid_example =
    resolve_guard_policy_override-Valid no_json show_text my_env true [] false (bytes "me ") []
      (bytes "NO-NE") my_policy (bytes "cli") from_flags
