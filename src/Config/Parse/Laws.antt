-- ===== src/Config/Parse/Laws.antt =====
-- Every policy that the configuration yields is valid, whichever way it comes.
use gh_aw_mcpg.Common.{
  Bool, List, Option, Option-cases, [], ap, arith, false, if◌then◌else◌, inl, inr, refl, some, ◌∷◌,
  ◌≡◌,
}
use gh_aw_mcpg.Common.Dict.{insert, insert_same, lookup, lookup-insert, lookup-insert_self}
use gh_aw_mcpg.Common.Json.{Json, array, entries, object, string, to_fields}
use gh_aw_mcpg.Common.Result.{is_ok, ok}
use gh_aw_mcpg.Common.Text.{Str, bytes, str_beq, str_beq_iff, str_eq, to_lower, trim_space}
use gh_aw_mcpg.Common.Text.Laws.{to_lower_idem, trim_space-to_lower, trim_space_idem}
use gh_aw_mcpg.Config.Build.{
  build_allow_only_policy, finish_policy, integrity_by_input, remove_byte, repos_of,
}
use gh_aw_mcpg.Config.Env.{get_env_bool, get_env_string}
use gh_aw_mcpg.Config.Parse.{
  Env, checked_policy, integrity_value, is_valid_allow_only_repos_value, legacy_policy,
  normalize_scope_kind, parse_guard_policy_json, parse_nested, parse_policy_map,
  parse_server_guard_policy, parse_single, resolve_guard_policy_override, scope_kind_value,
}
use gh_aw_mcpg.Config.Policy.{
  GuardPolicy, Repos, decoded, normalize_repos, normalize_scoped, validate_guard_policy,
}

abbrev pub Valid : GuardPolicy → Type 0
Valid policy = validate_guard_policy (some policy) ≡ ok tt

-- A raw value is accepted as the scopes of a policy exactly when its normalisation succeeds.
pub is_valid_allow_only_repos_value_iff :
    (value : Json)
    → is_valid_allow_only_repos_value (decoded value) ≡ is_ok (normalize_repos (decoded value))
unfolding is_valid_allow_only_repos_value normalize_repos normalize_scoped
is_valid_allow_only_repos_value_iff (string s) = ground (arith, trim_space-to_lower s)
is_valid_allow_only_repos_value_iff (array vs) = ground arith
is_valid_allow_only_repos_value_iff other = ground arith

-- a field with its string in normal form
abbrev pub lowered : Option Json → Option Json
lowered (some (string s)) = some (string (to_lower (trim_space s)))
lowered other = other

scope_kind_value_idem :
    (f : Option Json) (m : List (Str × Json))
    → lookup (bytes "scope_kind") m ≡ f
    → scope_kind_value (lookup (bytes "scope_kind") (scope_kind_value f m)) (scope_kind_value f m)
      ≡ scope_kind_value f m
unfolding scope_kind_value
scope_kind_value_idem (some (string s)) m h =
    let kind = bytes "scope_kind" in
    let lowest = string (to_lower (trim_space s)) in
    rw
      (
        lookup-insert_self kind lowest m,
        trim_space-to_lower (trim_space s),
        trim_space_idem s,
        to_lower_idem (trim_space s),
      )
      (insert_same kind lowest (insert kind lowest m) (lookup-insert_self kind lowest m))
scope_kind_value_idem other m h = rw h refl

lookup-scope_kind_value :
    (f : Option Json) (m : List (Str × Json)) (key : Str)
    → lookup (bytes "scope_kind") m ≡ f
    → lookup key (scope_kind_value f m)
      ≡ (if str_beq (bytes "scope_kind") key then lowered (lookup key m) else lookup key m)
unfolding scope_kind_value
lookup-scope_kind_value (some (string s)) m key h = ground (
  arith,
  str_beq_iff (bytes "scope_kind") key,
  lookup-insert (bytes "scope_kind") key (string (to_lower (trim_space s))) m,
)
lookup-scope_kind_value other m key h = ground (arith, str_beq_iff (bytes "scope_kind") key)

-- The normal form of the scope kind replaces that field alone, and normalising it again changes
-- nothing.
pub normalize_scope_kind_lem :
    (m : List (Str × Json)) (key : Str)
    → (out : List (Str × Json)) × (normalize_scope_kind (some m) ≡ some out)
      × (normalize_scope_kind (some out) ≡ some out)
      × (lookup key out
          ≡ (if str_beq (bytes "scope_kind") key then lowered (lookup key m) else lookup key m))
unfolding normalize_scope_kind
normalize_scope_kind_lem m key =
    let found = lookup (bytes "scope_kind") m in
    (
      scope_kind_value found m,
      refl,
      ap some (scope_kind_value_idem found m refl),
      lookup-scope_kind_value found m key refl,
    )

checked_policy-Valid :
    (value : Json) (policy : GuardPolicy) → checked_policy value ≡ ok (some policy) → Valid policy
unfolding checked_policy
checked_policy-Valid value policy h = ground arith

finish_policy-Valid :
    (repos : Repos) (level : Option Str) (policy : GuardPolicy)
    → finish_policy repos level ≡ ok (some policy)
    → Valid policy
unfolding finish_policy
finish_policy-Valid repos level policy h = ground arith

build_allow_only_policy-Valid :
    (is_public : Bool) (owner repo level : Str) (policy : GuardPolicy)
    → build_allow_only_policy is_public owner repo level ≡ ok (some policy)
    → Valid policy
unfolding build_allow_only_policy
build_allow_only_policy-Valid is_public owner repo level policy h = ground (
  arith,
  finish_policy-Valid (repos_of is_public (trim_space owner) (trim_space repo))
      (integrity_by_input (to_lower (remove_byte b'-' (trim_space level)))) policy,
)

module _ (unmarshal : Str → Option Json) (show : Json → Str) where
  legacy_policy-Valid :
      (repos : Json) (level : Option Json) (policy : GuardPolicy)
      → legacy_policy unmarshal show repos level ≡ ok (some policy)
      → Valid policy
  unfolding legacy_policy
  legacy_policy-Valid repos level policy h = ground arith

  parse_policy_map-Valid :
      (raw : List (Str × Json)) (policy : GuardPolicy)
      → parse_policy_map unmarshal show raw ≡ ok (some policy)
      → Valid policy
  unfolding parse_policy_map
  parse_policy_map-Valid [] policy h = ground arith
  parse_policy_map-Valid (entry ∷ rest) policy h =
      elim (Option-cases (lookup (bytes "repos") (entry ∷ rest))) [
        | inl e ↦ ground (arith, checked_policy-Valid (object (to_fields (entry ∷ rest))) policy)
        | inr (repos, e) ↦ ground (
          arith,
          checked_policy-Valid (object (to_fields (entry ∷ rest))) policy,
          legacy_policy-Valid repos (integrity_value unmarshal show (entry ∷ rest)) policy,
        )
      ]

  parse_nested-Valid :
      (value : Option Json) (policy : GuardPolicy)
      → parse_nested unmarshal show value ≡ ok (some policy)
      → Valid policy
  unfolding parse_nested
  parse_nested-Valid (some (object fields)) policy h =
      parse_policy_map-Valid (entries fields) policy h
  parse_nested-Valid other policy h = ground arith

  parse_single-Valid :
      (raw : List (Str × Json)) (policy : GuardPolicy)
      → parse_single unmarshal show raw ≡ ok (some policy)
      → Valid policy
  unfolding parse_single
  parse_single-Valid ((key, object fields) ∷ []) policy h =
      parse_policy_map-Valid (entries fields) policy h
  parse_single-Valid other policy h = ground arith

  -- A policy that is found in a server's raw configuration is valid, in the modern form, the legacy
  -- form, or either of them nested.
  pub parse_server_guard_policy-Valid :
      (server_id : Str) (raw : List (Str × Json)) (policy : GuardPolicy)
      → parse_server_guard_policy unmarshal show server_id raw ≡ ok (some policy)
      → Valid policy
  unfolding parse_server_guard_policy
  parse_server_guard_policy-Valid server_id raw policy h = ground (
    arith,
    parse_policy_map-Valid raw policy,
    parse_nested-Valid (lookup server_id raw) policy,
    parse_single-Valid raw policy,
  )

  parse_guard_policy_json-Valid :
      (text : Str) (policy : GuardPolicy)
      → parse_guard_policy_json unmarshal show text ≡ ok (some policy)
      → Valid policy
  unfolding parse_guard_policy_json
  parse_guard_policy_json-Valid text policy h = elim (Option-cases (unmarshal text)) [
    | inl e ↦ ground arith
    | inr (value, e) ↦ ground (arith, checked_policy-Valid value policy)
  ]

  -- An override is valid, and its source is the command line exactly when a flag was changed.
  pub resolve_guard_policy_override-Valid :
      (env : Env) (cli_changed : Bool) (cli_json : Str) (is_public : Bool) (owner repo level : Str)
      → (policy : GuardPolicy) (source : Str)
      → resolve_guard_policy_override unmarshal show env cli_changed cli_json is_public owner repo
          level
        ≡ ok (some policy, source)
      → Valid policy × (source ≡ (if cli_changed then bytes "cli" else bytes "env"))
  unfolding resolve_guard_policy_override
  resolve_guard_policy_override-Valid env cli_changed cli_json is_public owner repo level policy
        source h =
      ground (
        arith,
        parse_guard_policy_json-Valid cli_json policy,
        parse_guard_policy_json-Valid
            (trim_space (get_env_string env (bytes "MCP_GATEWAY_GUARD_POLICY_JSON") [])) policy,
        build_allow_only_policy-Valid is_public owner repo level policy,
        build_allow_only_policy-Valid
            (get_env_bool env (bytes "MCP_GATEWAY_ALLOWONLY_SCOPE_PUBLIC") false)
            (get_env_string env (bytes "MCP_GATEWAY_ALLOWONLY_SCOPE_OWNER") [])
            (get_env_string env (bytes "MCP_GATEWAY_ALLOWONLY_SCOPE_REPO") [])
            (get_env_string env (bytes "MCP_GATEWAY_ALLOWONLY_MIN_INTEGRITY") []) policy,
      )
