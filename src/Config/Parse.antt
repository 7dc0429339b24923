-- ===== src/Config/Parse.antt =====
-- Guard policies from raw maps, flags and environment variables:
-- internal/config/guard_policy_parse.go, and the tests on raw values of guard_policy_validation.go.
pub mod Laws
use gh_aw_mcpg.Common.{
  Bool, List, Option, [], arith, false, if◌then◌else◌, is_nil, none, not, refl, some, true, ◌&&◌,
  ◌==◌, ◌||◌, ◌∷◌,
}
use gh_aw_mcpg.Common.Dict.{insert, lookup}
use gh_aw_mcpg.Common.Json.{Json, array, elements, entries, object, string, to_fields}
use gh_aw_mcpg.Common.Result.{Result, err, is_ok, ok, ◌>>=◌, ◌>>◌}
use gh_aw_mcpg.Common.Text.{Str, bytes, str_eq, to_lower, trim_space}
use gh_aw_mcpg.Config.Build.{allow_only_of, build_allow_only_policy}
use gh_aw_mcpg.Config.Codec.{decode_guard_policy}
use gh_aw_mcpg.Config.Env.{get_env_bool, get_env_string, has_env_var}
use gh_aw_mcpg.Config.Failure.{PolicyError, bad_json, missing_integrity, not_an_object}
use gh_aw_mcpg.Config.Policy.{GuardPolicy, Repos, decoded, validate_guard_policy}
use gh_aw_mcpg.Config.Scope.{normalize_and_validate_scope_array}

abbrev pub Env : Type 0
Env = List (Str × Str)

-- `GuardPolicy.IsWriteSinkPolicy`, which a nil receiver answers too
unfoldable pub is_write_sink_policy : Option GuardPolicy → Bool
is_write_sink_policy none = false
is_write_sink_policy (some policy) = elim policy.write_sink [ none ↦ false | some _ ↦ true ]

unfoldable pub all_strings : List Json → Bool
all_strings [] = true
all_strings (string s ∷ vs) = not (is_nil (trim_space s)) && all_strings vs
all_strings (other ∷ vs) = false

-- `ValidateStringArrayField`, whether it returns no error
unfoldable pub validate_string_array_field : Json → Bool → Bool
validate_string_array_field (array vs) require_non_empty =
    not (require_non_empty && is_nil (elements vs)) && all_strings (elements vs)
validate_string_array_field other require_non_empty = false

unfoldable pub is_valid_allow_only_repos_value : Repos → Bool
is_valid_allow_only_repos_value (decoded (string s)) =
    let trimmed = trim_space (to_lower s) in trimmed == bytes "all" || trimmed == bytes "public"
is_valid_allow_only_repos_value (decoded (array vs)) =
    is_ok (normalize_and_validate_scope_array (elements vs))
is_valid_allow_only_repos_value other = false

unfoldable pub has_map_key_variants : List (Str × Json) → List Str → Bool
has_map_key_variants m [] = false
has_map_key_variants m (k ∷ ks) = elim (lookup k m) [
  | none ↦ has_map_key_variants m ks
  | some _ ↦ true
]

-- the type assertion on the field and its normal form; the map given stays as it is
pub scope_kind_value : Option Json → List (Str × Json) → List (Str × Json)
scope_kind_value (some (string s)) m =
    insert (bytes "scope_kind") (string (to_lower (trim_space s))) m
scope_kind_value other m = m

pub normalize_scope_kind : Option (List (Str × Json)) → Option (List (Str × Json))
normalize_scope_kind none = none
normalize_scope_kind (some policy) =
    some (scope_kind_value (lookup (bytes "scope_kind") policy) policy)

-- what `json.Unmarshal` and `ValidateGuardPolicy` make of a decoded text
unfoldable pub checked_policy : Json → Result PolicyError (Option GuardPolicy)
checked_policy value = do
  policy ← decode_guard_policy value
  validate_guard_policy (some policy)
  ok (some policy)

-- `unmarshal` parses a JSON text; `show` is the verb `%v` of `fmt.Sprintf`
module _ (unmarshal : Str → Option Json) (show : Json → Str) where
  pub parse_guard_policy_json : Str → Result PolicyError (Option GuardPolicy)
  parse_guard_policy_json text = elim (unmarshal text) [
    | none ↦ err PolicyError.bad_json
    | some value ↦ checked_policy value
  ]

  -- the legacy form, with the integrity that was found
  pub legacy_policy : Json → Option Json → Result PolicyError (Option GuardPolicy)
  legacy_policy repos none = err PolicyError.missing_integrity
  legacy_policy repos (some integrity) = do
    let policy : GuardPolicy = record {
      allow_only = some (allow_only_of (decoded repos) (show integrity));
      write_sink = none;
    }
    validate_guard_policy (some policy)
    ok (some policy)

  -- `raw["min-integrity"]`, else `raw["integrity"]`
  unfoldable pub integrity_value : List (Str × Json) → Option Json
  integrity_value raw = elim (lookup (bytes "min-integrity") raw) [
    | none ↦ lookup (bytes "integrity") raw
    | some value ↦ some value
  ]

  unfoldable pub parse_policy_map : List (Str × Json) → Result PolicyError (Option GuardPolicy)
  parse_policy_map [] = ok none
  parse_policy_map (entry ∷ rest) =
      let raw = entry ∷ rest in
      let has_allow_only = has_map_key_variants raw (bytes "allow-only" ∷ bytes "allowonly" ∷ []) in
      let has_write_sink = has_map_key_variants raw (bytes "write-sink" ∷ bytes "writesink" ∷ []) in
      if has_allow_only || has_write_sink
      then checked_policy (object (to_fields raw))
      else elim (lookup (bytes "repos") raw) [
        | none ↦ ok none
        | some repos ↦ legacy_policy repos (integrity_value raw)
      ]

  -- a policy that one attempt finds, or an error, ends the search
  abbrev or_else :
      Result PolicyError (Option GuardPolicy)
      → Result PolicyError (Option GuardPolicy)
      → Result PolicyError (Option GuardPolicy)
  or_else (err e) next = err e
  or_else (ok (some policy)) next = ok (some policy)
  or_else (ok none) next = next

  -- the map under the server's name
  unfoldable pub parse_nested : Option Json → Result PolicyError (Option GuardPolicy)
  parse_nested none = ok none
  parse_nested (some (object fields)) = parse_policy_map (entries fields)
  parse_nested (some other) = err PolicyError.not_an_object

  -- the loop over a map of one entry
  unfoldable pub parse_single : List (Str × Json) → Result PolicyError (Option GuardPolicy)
  parse_single ((key, object fields) ∷ []) = parse_policy_map (entries fields)
  parse_single _ = ok none

  unfoldable pub parse_server_guard_policy :
      Str → List (Str × Json) → Result PolicyError (Option GuardPolicy)
  parse_server_guard_policy server_id raw =
      or_else (parse_policy_map raw)
        (or_else (parse_nested (lookup server_id raw)) (parse_single raw))

  -- the policy with where it comes from
  abbrev from_source {ℓ} : {A : Type ℓ} → Str → Result PolicyError A → Result PolicyError (A × Str)
  from_source source (ok a) = ok (a, source)
  from_source source (err e) = err e

  unfoldable pub resolve_guard_policy_override :
      Env → Bool → Str → Bool → Str → Str → Str → Result PolicyError (Option GuardPolicy × Str)
  resolve_guard_policy_override env cli_changed cli_json is_public owner repo level =
      let env_json = trim_space (get_env_string env (bytes "MCP_GATEWAY_GUARD_POLICY_JSON") []) in
      let scope_public = bytes "MCP_GATEWAY_ALLOWONLY_SCOPE_PUBLIC" in
      let scope_owner = bytes "MCP_GATEWAY_ALLOWONLY_SCOPE_OWNER" in
      let scope_repo = bytes "MCP_GATEWAY_ALLOWONLY_SCOPE_REPO" in
      let min_level = bytes "MCP_GATEWAY_ALLOWONLY_MIN_INTEGRITY" in
      if cli_changed
      then (if is_nil (trim_space cli_json)
          then from_source (bytes "cli") (build_allow_only_policy is_public owner repo level)
          else from_source (bytes "cli") (parse_guard_policy_json cli_json))
      else if not (is_nil env_json)
      then from_source (bytes "env") (parse_guard_policy_json env_json)
      else if has_env_var env scope_public
          || has_env_var env scope_owner
          || has_env_var env scope_repo
          || has_env_var env min_level
      then from_source (bytes "env") (
          build_allow_only_policy (get_env_bool env scope_public false)
            (get_env_string env scope_owner []) (get_env_string env scope_repo [])
            (get_env_string env min_level []))
      else ok (none, [])
