-- ===== src/Guard/Payload.antt =====
-- The payload of label_agent: internal/guard/wasm_payload.go, with `GuardPolicyToMap` of
-- internal/config/guard_policy.go. A policy is the JSON value that it is marshalled to, and nil is null.
pub mod Keys
pub mod Accepted
use gh_aw_mcpg.Common.{
  Bool, List, Option, [], arith, false, has_key, if◌then◌else◌, is_nil, none, not, refl, some, true,
  ◌&&◌, ◌∷◌,
}
use gh_aw_mcpg.Common.Dict.{insert, lookup}
use gh_aw_mcpg.Common.Json.{
  Json, array, elements, entries, null, object, string, to_fields, to_items,
}
use gh_aw_mcpg.Common.Result.{Result, check, err, ok, ◌>>=◌, ◌>>◌}
use gh_aw_mcpg.Common.Split.{fields_func}
use gh_aw_mcpg.Common.Text.{Str, bytes, str_eq, trim_space}
use gh_aw_mcpg.Config.Codec.Values.{is_separator, trim_parts}
use gh_aw_mcpg.Config.Failure.{PolicyError}
use gh_aw_mcpg.Config.Integrity.{normalize_integrity_level}
use gh_aw_mcpg.Config.Parse.{is_valid_allow_only_repos_value, validate_string_array_field}
use gh_aw_mcpg.Config.Policy.{decoded}
use gh_aw_mcpg.Config.Scope.Array.{strings}

-- one constructor for each kind of message
pub data PayloadError : Type 0 where
  no_policy empty_policy bad_text not_object : PayloadError
  bad_shape outdated_adapter no_allow_only unexpected_key missing_fields : PayloadError
  bad_repos bad_array bad_labels : PayloadError
  bad_level : PolicyError → PayloadError

-- `GuardPolicyToMap`
unfoldable pub guard_policy_to_map : Json → Result PayloadError (List (Str × Json))
guard_policy_to_map (object fields) = ok (entries fields)
guard_policy_to_map null = err PayloadError.no_policy
guard_policy_to_map other = err PayloadError.not_object

unfoldable pub has_entry : Str → List (Str × Json) → Bool
has_entry key m = elim (lookup key m) [ none ↦ false | some _ ↦ true ]

-- the assertion to `map[string]interface{}`, and the test for the key
abbrev has_nested_policy : Option Json → Bool
has_nested_policy (some (object fields)) = has_entry (bytes "allow-only") (entries fields)
has_nested_policy other = false

-- the policy is in the envelope of an earlier release
unfoldable pub has_legacy_envelope : Json → Bool
has_legacy_envelope (object fields) = has_nested_policy (lookup (bytes "policy") (entries fields))
has_legacy_envelope other = false

-- the allow-only object with its key, which may be the older one
unfoldable pub allow_only_entry : List (Str × Json) → Option (Str × Json)
allow_only_entry payload = elim (lookup (bytes "allow-only") payload) [
  | some value ↦ some (bytes "allow-only", value)
  | none ↦ elim (lookup (bytes "allowonly") payload) [
    | some value ↦ some (bytes "allowonly", value)
    | none ↦ none
  ]
]

unfoldable pub found_allow_only : List (Str × Json) → Result PayloadError (Str × Json)
found_allow_only payload = elim (allow_only_entry payload) [
  | none ↦ err PayloadError.no_allow_only
  | some found ↦ ok found
]

-- the loops over the keys of a map
unfoldable pub has_only_keys : List Str → List (Str × Json) → Bool
has_only_keys allowed [] = true
has_only_keys allowed ((key, value) ∷ m) = has_key allowed key && has_only_keys allowed m

abbrev pub top_level_keys : List Str
top_level_keys = bytes "allow-only" ∷ bytes "allowonly" ∷ bytes "trusted-bots" ∷ []

abbrev pub allow_only_keys : List Str
allow_only_keys =
    bytes "repos"
    ∷ bytes "min-integrity"
    ∷ bytes "integrity"
    ∷ bytes "blocked-users"
    ∷ bytes "refusal-labels"
    ∷ bytes "approval-labels"
    ∷ bytes "trusted-users"
    ∷ bytes "endorsement-reactions"
    ∷ bytes "disapproval-reactions"
    ∷ bytes "disapproval-integrity"
    ∷ bytes "endorser-min-integrity"
    ∷ []

unfoldable pub as_map : Json → Result PayloadError (List (Str × Json))
as_map (object fields) = ok (entries fields)
as_map other = err PayloadError.bad_shape

unfoldable pub integrity_entry : List (Str × Json) → Option Json
integrity_entry allow_only = elim (lookup (bytes "min-integrity") allow_only) [
  | some value ↦ some value
  | none ↦ lookup (bytes "integrity") allow_only
]

unfoldable pub required : Option Json → Result PayloadError Json
required none = err PayloadError.missing_fields
required (some value) = ok value

-- the assertion to a string, which gives the empty one for anything else
unfoldable pub as_string : Json → Str
as_string (string s) = s
as_string other = []

unfoldable pub level_error : Result PolicyError Str → Result PayloadError (Unit {0})
level_error (ok level) = ok tt
level_error (err e) = err (bad_level e)

unfoldable pub check_level : Json → Result PayloadError (Unit {0})
check_level value = level_error (normalize_integrity_level (as_string value) false)

unfoldable pub check_optional_level : Option Json → Result PayloadError (Unit {0})
check_optional_level none = ok tt
check_optional_level (some value) = check_level value

unfoldable pub check_strings : Bool → Option Json → Result PayloadError (Unit {0})
check_strings require_non_empty none = ok tt
check_strings require_non_empty (some value) =
    check (validate_string_array_field value require_non_empty) PayloadError.bad_array

-- the entries of a checked array
abbrev trimmed_entries : List Json → List Str
trimmed_entries [] = []
trimmed_entries (entry ∷ rest) = trim_space (as_string entry) ∷ trimmed_entries rest

unfoldable pub some_labels : List Str → Result PayloadError (List Str)
some_labels [] = err PayloadError.bad_labels
some_labels (label ∷ labels) = ok (label ∷ labels)

unfoldable pub normalize_label_list_field : Json → Result PayloadError (List Str)
normalize_label_list_field (array vs) = do
  check (validate_string_array_field (array vs) false) PayloadError.bad_array
  ok (trimmed_entries (elements vs))
normalize_label_list_field (string s) = some_labels (trim_parts (fields_func is_separator s))
normalize_label_list_field other = err PayloadError.bad_labels

-- the refusal labels in their normal form, if there are any
unfoldable pub normalized_refusal_labels :
    Option Json → List (Str × Json) → Result PayloadError (List (Str × Json))
normalized_refusal_labels none allow_only = ok allow_only
normalized_refusal_labels (some value) allow_only = do
  labels ← normalize_label_list_field value
  ok (insert (bytes "refusal-labels") (array (to_items (strings labels))) allow_only)

-- the checks on the allow-only object, in order; the trusted bots stand beside it
unfoldable pub validated_allow_only :
    Option Json → List (Str × Json) → Result PayloadError (List (Str × Json))
validated_allow_only bots allow_only = do
  repos ← required (lookup (bytes "repos") allow_only)
  level ← required (integrity_entry allow_only)
  check (has_only_keys allow_only_keys allow_only) PayloadError.unexpected_key
  check (is_valid_allow_only_repos_value (decoded repos)) PayloadError.bad_repos
  check_level level
  check_strings false (lookup (bytes "blocked-users") allow_only)
  result ← normalized_refusal_labels (lookup (bytes "refusal-labels") allow_only) allow_only
  check_strings false (lookup (bytes "approval-labels") allow_only)
  check_strings true bots
  check_strings false (lookup (bytes "trusted-users") allow_only)
  check_strings false (lookup (bytes "endorsement-reactions") allow_only)
  check_strings false (lookup (bytes "disapproval-reactions") allow_only)
  check_optional_level (lookup (bytes "disapproval-integrity") allow_only)
  check_optional_level (lookup (bytes "endorser-min-integrity") allow_only)
  ok result

-- The allow-only object is changed where it stands in the payload.
unfoldable pub build_strict_label_agent_payload : Json → Result PayloadError (List (Str × Json))
build_strict_label_agent_payload policy = do
  check (not (has_legacy_envelope policy)) PayloadError.outdated_adapter
  payload ← guard_policy_to_map policy
  check (not (has_entry (bytes "policy") payload)) PayloadError.outdated_adapter
  (key, value) ← found_allow_only payload
  check (has_only_keys top_level_keys payload) PayloadError.unexpected_key
  allow_only ← as_map value
  result ← validated_allow_only (lookup (bytes "trusted-bots") payload) allow_only
  ok (insert key (object (to_fields result)) payload)

abbrev pub names : List Str → Json
names ss = array (to_items (strings ss))

unfoldable pub with_bots : List Str → List (Str × Json) → List (Str × Json)
with_bots [] payload = payload
with_bots (bot ∷ bots) payload = insert (bytes "trusted-bots") (names (bot ∷ bots)) payload

unfoldable pub add_users : List Str → Option Json → List (Str × Json) → List (Str × Json)
add_users users (some (object fields)) payload =
    insert (bytes "allow-only")
      (object (to_fields (insert (bytes "trusted-users") (names users) (entries fields)))) payload
add_users users other payload = payload

unfoldable pub with_users : List Str → List (Str × Json) → List (Str × Json)
with_users [] payload = payload
with_users (user ∷ users) payload =
    add_users (user ∷ users) (lookup (bytes "allow-only") payload) payload

unfoldable pub build_label_agent_payload : Json → List Str → List Str → Json
build_label_agent_payload policy trusted_bots trusted_users =
    if is_nil trusted_bots && is_nil trusted_users
    then policy
    else elim (guard_policy_to_map policy) [
      | err e ↦ policy
      | ok payload ↦ object (to_fields (with_users trusted_users (with_bots trusted_bots payload)))
    ]

-- a text that was parsed has to be an object
unfoldable pub parsed_object : Option Json → Result PayloadError Json
parsed_object none = err PayloadError.bad_text
parsed_object (some (object fields)) = ok (object fields)
parsed_object (some other) = err PayloadError.not_object

module _ (unmarshal : Str → Option Json) where
  unfoldable pub normalize_policy_payload : Json → Result PayloadError Json
  normalize_policy_payload null = err PayloadError.no_policy
  normalize_policy_payload (string s) =
      let trimmed = trim_space s in
      if is_nil trimmed then err PayloadError.empty_policy else parsed_object (unmarshal trimmed)
  normalize_policy_payload other = ok other
