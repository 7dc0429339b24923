-- ===== src/Tests/Setup.antt =====
-- Runs of the code that gives a server its guard, and of the guard's initialisation.
use gh_aw_mcpg.Common.{List, Option, [], has_key, inl, inr, none, refl, some, ◌∷◌, ◌≡◌, ◌⊎◌}
use gh_aw_mcpg.Common.Dict.{insert, lookup}
use gh_aw_mcpg.Common.Json.{Json, array, end, field, null, object, string, to_fields, to_items}
use gh_aw_mcpg.Common.Result.{err, ok}
use gh_aw_mcpg.Common.Text.{Str, bytes, str_beq, str_eq, to_lower, trim_space}
use gh_aw_mcpg.Config.Build.{allow_only_of}
use gh_aw_mcpg.Config.Codec.Encode.{encode_guard_policy}
use gh_aw_mcpg.Config.Integrity.{normalize_integrity_level}
use gh_aw_mcpg.Config.Parse.{is_valid_allow_only_repos_value}
use gh_aw_mcpg.Config.Parse.Laws.{Valid}
use gh_aw_mcpg.Config.Policy.{
  AllowOnlyPolicy, GuardPolicy, decoded, limits_loop, normalize_allow_only, normalize_fields,
  normalize_guard_policy, normalize_repos, normalize_string_slice, normalize_tool_call_limits,
  slice_loop, validate_fields, validate_guard_policy,
}
use gh_aw_mcpg.Config.Sink.{WriteSinkPolicy}
use gh_aw_mcpg.Difc.Agent.{new_agent_labels}
use gh_aw_mcpg.Difc.Mode.{EnforcementMode}
use gh_aw_mcpg.Difc.PathLabels.{PathLabels, extract_raw_items, resolve, split_json_pointer}
use gh_aw_mcpg.Difc.PathLabels.Laws.{expected_items, resolve-expected_items}
use gh_aw_mcpg.Difc.PathLabels.Pointer.{print_pointer, split_json_pointer-print_pointer}
use gh_aw_mcpg.Guard.LabelAgent.{run_label_agent_init}
use gh_aw_mcpg.Guard.LabelAgent.Laws.{Outcome, run_label_agent_init-Outcome}
use gh_aw_mcpg.Guard.Payload.{
  PayloadError, allow_only_entry, as_map, as_string, build_label_agent_payload,
  build_strict_label_agent_payload, check_level, check_optional_level, check_strings,
  found_allow_only, guard_policy_to_map, has_entry, has_legacy_envelope, has_only_keys,
  integrity_entry, level_error, normalized_refusal_labels, required, validated_allow_only,
}
use gh_aw_mcpg.Guard.Payload.Accepted.{Strict, build_strict_label_agent_payload-Strict}
use gh_aw_mcpg.Guard.Payload.Keys.{build_strict_label_agent_payload-unknown}
use gh_aw_mcpg.Server.GuardSetup.{
  GuardConfig, GuardedServer, Runtime, minimal_policy, minimal_value, override_to_public_scope,
  resolve_guard_policy,
}
use gh_aw_mcpg.Server.GuardSetup.Resolve.{
  override_to_public_scope-guard_policy, resolve_guard_policy-Valid,
}
use gh_aw_mcpg.Server.GuardSetup.Visibility.{
  IsExempt, register_write_sink, register_write_sink-public, resolve_workflow_repo_visibility,
  says_public,
}

abbrev no_parser : Str → Option Json
no_parser text = none

abbrev show_string : Json → Str
show_string (string s) = s
show_string other = bytes "?"

-- a policy that only differs from the one of the override in its level
abbrev guarded_policy : GuardPolicy
guarded_policy = record {
  allow_only = some (allow_only_of (decoded (string (bytes "all"))) (bytes "approved"));
  write_sink = none;
}

guarded_policy-Valid : Valid guarded_policy
unfolding validate_guard_policy validate_fields normalize_guard_policy normalize_fields
    normalize_allow_only normalize_integrity_level normalize_tool_call_limits limits_loop
    normalize_string_slice slice_loop normalize_repos trim_space to_lower str_beq has_key
guarded_policy-Valid = refl

abbrev guarded_server : GuardedServer
guarded_server = record { guard = bytes "g"; guard_policies = [] }

abbrev guarded_config : GuardConfig
guarded_config = record {
  guard_policy = none;
  guard_policy_source = [];
  servers = (bytes "s", guarded_server) ∷ [];
  guards = (bytes "g", some guarded_policy) ∷ [];
  force_public_repos = none;
  sink_visibility_exempt_servers = [];
}

override_to_public_scope-guard_policy_example :
    (resolve_guard_policy no_parser show_string guarded_config (bytes "s")
      ≡ ok (some guarded_policy, bytes "config"))
    × (resolve_guard_policy no_parser show_string
          (override_to_public_scope no_parser show_string guarded_config (bytes "s"))
          (bytes "s")
        ≡ ok
            (some (record { allow_only = some minimal_policy; write_sink = none }), bytes "server"))
unfolding lookup str_beq
override_to_public_scope-guard_policy_example =
    override_to_public_scope-guard_policy no_parser show_string guarded_config (bytes "s")
      guarded_server guarded_policy refl refl refl refl guarded_policy-Valid refl

abbrev global_config : GuardConfig
global_config = record guarded_config { guard_policy = some guarded_policy }

global_config_resolved :
    resolve_guard_policy no_parser show_string global_config (bytes "s")
    ≡ ok (some guarded_policy, bytes "override")
unfolding resolve_guard_policy
global_config_resolved = rw guarded_policy-Valid refl

resolve_guard_policy-Valid_example : Valid guarded_policy
resolve_guard_policy-Valid_example =
    resolve_guard_policy-Valid no_parser show_string global_config (bytes "s") guarded_policy
      (bytes "override") global_config_resolved

abbrev public_runtime : Runtime
public_runtime = record {
  repository = bytes "o/r";
  token = bytes "t";
  fetched_visibility = some (bytes "public");
}

abbrev private_sink : WriteSinkPolicy
private_sink = record { accept = bytes "*" ∷ []; sink_visibility = bytes "private" }

register_write_sink-public_example :
    (IsExempt guarded_config (bytes "slack") (bytes "private"))
    ⊎ ((register_write_sink guarded_config public_runtime
          (bytes "slack")
          private_sink).sink_visibility
        ≡ bytes "public")
unfolding resolve_workflow_repo_visibility says_public str_beq
register_write_sink-public_example =
    register_write_sink-public guarded_config public_runtime (bytes "slack") private_sink refl

abbrev promoted_policy : AllowOnlyPolicy
promoted_policy = record minimal_policy { promotion_label = bytes "promoted" }

build_strict_label_agent_payload-unknown_example :
    build_strict_label_agent_payload
      (encode_guard_policy (record { allow_only = some promoted_policy; write_sink = none }))
    ≡ err PayloadError.unexpected_key
build_strict_label_agent_payload-unknown_example =
    build_strict_label_agent_payload-unknown promoted_policy (inr (inl refl))

-- the payload of a guard policy, which is that policy
abbrev minimal_payload : List (Str × Json)
minimal_payload = (bytes "allow-only", minimal_value) ∷ []

minimal_payload_built :
    build_strict_label_agent_payload (object (to_fields minimal_payload)) ≡ ok minimal_payload
unfolding build_strict_label_agent_payload guard_policy_to_map has_legacy_envelope has_entry
    found_allow_only allow_only_entry as_map lookup insert str_beq has_only_keys has_key
    validated_allow_only required integrity_entry is_valid_allow_only_repos_value check_level
    level_error as_string normalize_integrity_level check_strings normalized_refusal_labels
    check_optional_level trim_space to_lower
minimal_payload_built = refl

build_strict_label_agent_payload-Strict_example : Strict minimal_payload
build_strict_label_agent_payload-Strict_example =
    build_strict_label_agent_payload-Strict (object (to_fields minimal_payload)) minimal_payload
      minimal_payload_built

-- a module that answers every payload with the same labels
abbrev labelling_module : List (Str × Json) → Option (Option Json)
labelling_module payload = some (
    some (
      object (
        field (bytes "difc_mode") (string (bytes "filter")) (
          field (bytes "agent")
            (object
              (field (bytes "secrecy") (array (to_items (string (bytes "private:o/r") ∷ []))) end))
            end))))

run_label_agent_init-Outcome_example :
    Outcome no_parser labelling_module
      (build_label_agent_payload (object (to_fields minimal_payload)) (bytes "bot" ∷ []) [])
      (new_agent_labels (bytes "a"))
      EnforcementMode.strict
      (run_label_agent_init no_parser labelling_module
        (object (to_fields minimal_payload))
        (bytes "bot" ∷ [])
        []
        (new_agent_labels (bytes "a"))
        EnforcementMode.strict)
run_label_agent_init-Outcome_example =
    run_label_agent_init-Outcome no_parser labelling_module (object (to_fields minimal_payload))
      (bytes "bot" ∷ []) [] (new_agent_labels (bytes "a")) EnforcementMode.strict

abbrev escaped_path : List Str
escaped_path = bytes "a/b" ∷ bytes "~1" ∷ []

split_json_pointer-print_pointer_example :
    (¬ (escaped_path ≡ [] ∷ []) × (split_json_pointer (print_pointer escaped_path) ≡ escaped_path))
    ⊎ ((escaped_path ≡ [] ∷ []) × (split_json_pointer (print_pointer escaped_path) ≡ []))
split_json_pointer-print_pointer_example = split_json_pointer-print_pointer escaped_path

abbrev two_elements : List Json
two_elements = string (bytes "x") ∷ string (bytes "y") ∷ []

abbrev second_labeled : PathLabels
second_labeled = record {
  labeled_paths =
      record {
        path = bytes "/1";
        labels = record { description = []; secrecy = bytes "private" ∷ []; integrity = [] };
      }
      ∷ [];
  default_labels = none;
  items_path = [];
}

two_elements_extracted :
    extract_raw_items (array (to_items two_elements)) [] ≡ ok (some two_elements)
unfolding extract_raw_items
two_elements_extracted = refl

two_elements_resolved :
    resolve null (array (to_items two_elements)) second_labeled
    ≡ ok (expected_items second_labeled 0 two_elements)
two_elements_resolved =
    resolve-expected_items null (array (to_items two_elements)) second_labeled two_elements
      two_elements_extracted
