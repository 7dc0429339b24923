-- ===== src/Server/GuardSetup/Resolve.antt =====
-- What a server's policy resolves to, before and after the scope is forced to public repositories.
use gh_aw_mcpg.Common.{
  Option, Option-cases, [], arith, false, has_key, inl, inr, is_nil, none, refl, some, ◌∙◌, ◌∷◌,
  ◌≡◌,
}
use gh_aw_mcpg.Common.Dict.{insert, lookup, lookup-insert_self}
use gh_aw_mcpg.Common.Json.{Json}
use gh_aw_mcpg.Common.Result.{Result-cases, ok}
use gh_aw_mcpg.Common.Text.{Str, bytes, str_beq, str_eq, to_lower, trim_space}
use gh_aw_mcpg.Config.Codec.{
  decode_allow_only, decode_field, decode_guard_policy, decode_loop, decode_messages, find_messages,
}
use gh_aw_mcpg.Config.Codec.Values.{decode_object, decode_string}
use gh_aw_mcpg.Config.Failure.{non_empty_string}
use gh_aw_mcpg.Config.Integrity.{normalize_integrity_level}
use gh_aw_mcpg.Config.Parse.{
  checked_policy, has_map_key_variants, parse_nested, parse_policy_map, parse_server_guard_policy,
  parse_single,
}
use gh_aw_mcpg.Config.Parse.Laws.{Valid, parse_server_guard_policy-Valid}
use gh_aw_mcpg.Config.Policy.{
  AllowOnlyPolicy, GuardPolicy, NormalizedGuardPolicy, limits_loop, normalize_allow_only,
  normalize_fields, normalize_guard_policy, normalize_repos, normalize_string_slice,
  normalize_tool_call_limits, slice_loop, validate_fields, validate_guard_policy,
}
use gh_aw_mcpg.Config.Policy.Normal.{normalize_allow_only_iff}
use gh_aw_mcpg.Server.GuardSetup.{
  GuardConfig, GuardedServer, guard_config_policy, minimal_policy, minimal_value, override_server,
  override_to_public_scope, policy_of_guard, public_fields, public_policy, public_scope,
  resolve_guard_policy, server_or_guard, server_policy,
}

policy_of_guard-Valid :
    (found : Option (Option GuardPolicy)) (policy : GuardPolicy) (source : Str)
    → policy_of_guard found ≡ ok (some policy, source)
    → Valid policy
unfolding policy_of_guard
policy_of_guard-Valid none policy source h = ground arith
policy_of_guard-Valid (some none) policy source h = ground arith
policy_of_guard-Valid (some (some p)) policy source h = ground arith

guard_config_policy-Valid :
    (cfg : GuardConfig) (server : GuardedServer) (policy : GuardPolicy) (source : Str)
    → guard_config_policy cfg server ≡ ok (some policy, source)
    → Valid policy
unfolding guard_config_policy
guard_config_policy-Valid cfg server policy source h =
    ground (arith, policy_of_guard-Valid (lookup server.guard cfg.guards) policy source)

-- the changed allow-only part of a valid policy is valid
normalize_allow_only-public :
    (p : AllowOnlyPolicy) (n : NormalizedGuardPolicy)
    → normalize_allow_only p ≡ ok n
    → normalize_allow_only (public_policy (some p))
      ≡ ok (record n { scope_kind = bytes "public"; scope_values = [] })
unfolding normalize_repos trim_space to_lower str_beq
normalize_allow_only-public p n h =
    (normalize_allow_only_iff _ _).1 (ground (arith, (normalize_allow_only_iff p n).0 h))

module _ (unmarshal : Str → Option Json) (show : Json → Str) where
  server_or_guard-Valid :
      (cfg : GuardConfig) (server : GuardedServer) (server_id : Str) (policy : GuardPolicy)
      (source : Str)
      → server_or_guard cfg server
          (parse_server_guard_policy unmarshal show server_id server.guard_policies)
        ≡ ok (some policy, source)
      → Valid policy
  unfolding server_or_guard
  server_or_guard-Valid cfg server server_id policy source h = ground (
    arith,
    parse_server_guard_policy-Valid unmarshal show server_id server.guard_policies policy,
    guard_config_policy-Valid cfg server policy source,
  )

  -- Every policy that a server's guard is given is valid, wherever it was configured.
  pub resolve_guard_policy-Valid :
      (cfg : GuardConfig) (server_id : Str) (policy : GuardPolicy) (source : Str)
      → resolve_guard_policy unmarshal show cfg server_id ≡ ok (some policy, source)
      → Valid policy
  unfolding resolve_guard_policy server_policy
  resolve_guard_policy-Valid cfg server_id policy source h = elim (Option-cases cfg.guard_policy) [
    | inr (p, e) ↦ ground arith
    | inl e ↦ elim (Option-cases (lookup server_id cfg.servers)) [
      | inl missing ↦ ground arith
      | inr (server, found) ↦
          server_or_guard-Valid cfg server server_id policy source (ground arith)
    ]
  ]

  -- A global allow-only policy is restricted to public repositories for every server, its integrity
  -- levels and lists as they were.
  pub override_to_public_scope-global :
      (cfg : GuardConfig) (server_id : Str) (p : AllowOnlyPolicy) (source : Str)
      → cfg.guard_policy ≡ some (record { allow_only = some p; write_sink = none })
      → resolve_guard_policy unmarshal show cfg server_id
        ≡ ok (some (record { allow_only = some p; write_sink = none }), source)
      → resolve_guard_policy unmarshal show
          (override_to_public_scope unmarshal show cfg server_id)
          server_id
        ≡ ok (
          some (record { allow_only = some (public_policy (some p)); write_sink = none }),
          source,
        )
  unfolding resolve_guard_policy override_to_public_scope public_scope public_fields
      validate_guard_policy validate_fields normalize_guard_policy normalize_fields
  override_to_public_scope-global cfg server_id p source e h =
      elim (Result-cases (normalize_allow_only p)) [
        | inl (n, valid) ↦ ground (arith, normalize_allow_only-public p n valid)
        | inr (failure, invalid) ↦ ground arith
      ]

  parse_server_guard_policy-nil :
      (server_id : Str) → parse_server_guard_policy unmarshal show server_id [] ≡ ok none
  unfolding parse_server_guard_policy parse_policy_map parse_nested parse_single lookup
  parse_server_guard_policy-nil server_id = refl

  parse_server_guard_policy-minimal :
      (server_id : Str)
      → parse_server_guard_policy unmarshal show server_id
          ((bytes "allow-only", minimal_value) ∷ [])
        ≡ ok (some (record { allow_only = some minimal_policy; write_sink = none }))
  unfolding parse_server_guard_policy parse_policy_map has_map_key_variants checked_policy
      decode_guard_policy decode_object find_messages decode_messages decode_allow_only decode_loop
      decode_field decode_string validate_guard_policy validate_fields normalize_guard_policy
      normalize_fields normalize_allow_only normalize_integrity_level normalize_tool_call_limits
      limits_loop normalize_string_slice slice_loop normalize_repos trim_space to_lower str_beq
      has_key lookup non_empty_string
  parse_server_guard_policy-minimal server_id = refl

  resolve_guard_policy-own :
      (cfg : GuardConfig) (server_id : Str) (server : GuardedServer)
      → cfg.guard_policy ≡ none
      → lookup server_id cfg.servers ≡ some server
      → resolve_guard_policy unmarshal show cfg server_id
        ≡ server_or_guard cfg server
            (parse_server_guard_policy unmarshal show server_id server.guard_policies)
  unfolding resolve_guard_policy server_policy
  resolve_guard_policy-own cfg server_id server e s = rw (e, s) refl

  override_to_public_scope-own :
      (cfg : GuardConfig) (server_id : Str) (server : GuardedServer)
      → cfg.guard_policy ≡ none
      → lookup server_id cfg.servers ≡ some server
      → override_to_public_scope unmarshal show cfg server_id ≡ record cfg {
        servers = insert server_id (override_server unmarshal show server_id server) cfg.servers;
      }
  unfolding override_to_public_scope
  override_to_public_scope-own cfg server_id server e s = ground arith

  -- A server without policies of its own gets the minimal one, which puts its guard's configured
  -- policy out of force, the integrity that it asks for included.
  pub override_to_public_scope-guard_policy :
      (cfg : GuardConfig) (server_id : Str) (server : GuardedServer) (policy : GuardPolicy)
      → cfg.guard_policy ≡ none
      → lookup server_id cfg.servers ≡ some server
      → server.guard_policies ≡ []
      → lookup server.guard cfg.guards ≡ some (some policy)
      → Valid policy
      → is_nil server.guard ≡ false
      → (resolve_guard_policy unmarshal show cfg server_id ≡ ok (some policy, bytes "config"))
        × (resolve_guard_policy unmarshal show
              (override_to_public_scope unmarshal show cfg server_id)
              server_id
            ≡ ok (
              some (record { allow_only = some minimal_policy; write_sink = none }),
              bytes "server",
            ))
  unfolding override_server server_or_guard guard_config_policy policy_of_guard
  override_to_public_scope-guard_policy cfg server_id server policy e s none_own g valid named =
      let own = override_server unmarshal show server_id server in
      let cfg' = record cfg { servers = insert server_id own cfg.servers } in
      (
        resolve_guard_policy-own cfg server_id server e s
            ∙ rw (none_own, parse_server_guard_policy-nil server_id, named, g, valid) refl,
        rw (override_to_public_scope-own cfg server_id server e s) (
            resolve_guard_policy-own cfg' server_id own e
              (lookup-insert_self server_id own cfg.servers)
            ∙ rw (none_own, parse_server_guard_policy-minimal server_id) refl),
      )
