-- ===== src/Server/GuardSetup.antt =====
-- Which policy and which visibility a server's guard gets: internal/server/guard_init.go and
-- guard_visibility.go.
pub mod Resolve
pub mod Visibility
use gh_aw_mcpg.Common.{
  Bool, List, Option, [], arith, false, if◌then◌else◌, is_nil, none, not, refl, some, ◌||◌, ◌∷◌,
}
use gh_aw_mcpg.Common.Dict.{insert, lookup}
use gh_aw_mcpg.Common.Json.{Json, end, field, object, string}
use gh_aw_mcpg.Common.Result.{Result, err, ok, ◌>>=◌, ◌>>◌}
use gh_aw_mcpg.Common.Text.{Str, bytes, str_eq}
use gh_aw_mcpg.Config.Build.{allow_only_of}
use gh_aw_mcpg.Config.Codec.Encode.{guard_policy_fields}
use gh_aw_mcpg.Config.Failure.{PolicyError}
use gh_aw_mcpg.Config.Parse.{parse_server_guard_policy}
use gh_aw_mcpg.Config.Policy.{AllowOnlyPolicy, GuardPolicy, decoded, validate_guard_policy}
use gh_aw_mcpg.Config.Sink.{WriteSinkPolicy}

-- the fields of `config.ServerConfig` on guards
pub record GuardedServer : Type 0 where
  pub guard : Str
  pub guard_policies : List (Str × Json)

-- the fields of `config.Config` and its gateway on guards; a nil configuration is one without
-- policies and servers, a nil gateway one without options
pub record GuardConfig : Type 0 where
  pub guard_policy : Option GuardPolicy
  pub guard_policy_source : Str
  pub servers : List (Str × GuardedServer)
  pub guards : List (Str × Option GuardPolicy)
  pub force_public_repos : Option Bool
  pub sink_visibility_exempt_servers : List Str

-- what the gateway finds at run time: GITHUB_REPOSITORY, the token, and the API's answer
pub record Runtime : Type 0 where
  pub repository : Str
  pub token : Str
  pub fetched_visibility : Option Str

-- `hasServerGuardPolicies`
unfoldable pub has_server_guard_policies : List (Str × GuardedServer) → Bool
has_server_guard_policies [] = false
has_server_guard_policies ((id, server) ∷ servers) =
    not (is_nil server.guard_policies) || has_server_guard_policies servers

-- the policy of the guard's configuration, if there is one
pub policy_of_guard : Option (Option GuardPolicy) → Result PolicyError (Option GuardPolicy × Str)
policy_of_guard (some (some policy)) = do
  validate_guard_policy (some policy)
  ok (some policy, bytes "config")
policy_of_guard other = ok (none, bytes "legacy")

pub guard_config_policy :
    GuardConfig → GuardedServer → Result PolicyError (Option GuardPolicy × Str)
guard_config_policy cfg server =
    if is_nil server.guard
    then ok (none, bytes "legacy")
    else policy_of_guard (lookup server.guard cfg.guards)

pub server_or_guard :
    GuardConfig
    → GuardedServer
    → Result PolicyError (Option GuardPolicy)
    → Result PolicyError (Option GuardPolicy × Str)
server_or_guard cfg server (err e) = err e
server_or_guard cfg server (ok (some policy)) = ok (some policy, bytes "server")
server_or_guard cfg server (ok none) = guard_config_policy cfg server

-- the allow-only policy that the override adds, as a policy and as a raw value
abbrev pub minimal_policy : AllowOnlyPolicy
minimal_policy = allow_only_of (decoded (string (bytes "public"))) (bytes "none")

abbrev pub minimal_value : Json
minimal_value = object (
    field (bytes "repos") (string (bytes "public"))
      (field (bytes "min-integrity") (string (bytes "none")) end))

abbrev pub public_policy : Option AllowOnlyPolicy → AllowOnlyPolicy
public_policy none = minimal_policy
public_policy (some p) = record p { repos = decoded (string (bytes "public")) }

-- a policy that is a write-sink only is left alone: `none`
pub public_fields : Option AllowOnlyPolicy → Option WriteSinkPolicy → Option GuardPolicy
public_fields none (some ws) = none
public_fields allow_only write_sink =
    some (record { allow_only = some (public_policy allow_only); write_sink = write_sink })

pub public_scope : GuardPolicy → Option GuardPolicy
public_scope policy = public_fields policy.allow_only policy.write_sink

-- the raw policies of a server after the override, by what they parse to
unfoldable pub public_policies :
    List (Str × Json) → Result PolicyError (Option GuardPolicy) → List (Str × Json)
public_policies raw (err e) = raw
public_policies raw (ok none) = elim (lookup (bytes "write-sink") raw) [
  | none ↦ insert (bytes "allow-only") minimal_value raw
  | some _ ↦ raw
]
public_policies raw (ok (some policy)) = elim (public_scope policy) [
  | none ↦ raw
  | some changed ↦ guard_policy_fields changed
]

module _ (unmarshal : Str → Option Json) (show : Json → Str) where
  pub server_policy :
      GuardConfig → Str → Option GuardedServer → Result PolicyError (Option GuardPolicy × Str)
  server_policy cfg server_id none = ok (none, bytes "legacy")
  server_policy cfg server_id (some server) =
      server_or_guard cfg server
        (parse_server_guard_policy unmarshal show server_id server.guard_policies)

  unfoldable pub resolve_guard_policy :
      GuardConfig → Str → Result PolicyError (Option GuardPolicy × Str)
  resolve_guard_policy cfg server_id = elim cfg.guard_policy [
    | none ↦ server_policy cfg server_id (lookup server_id cfg.servers)
    | some policy ↦ do
      validate_guard_policy (some policy)
      let source = cfg.guard_policy_source
      ok (some policy, if is_nil source then bytes "override" else source)
  ]

  -- an error counts as no policy
  unfoldable pub resolve_write_sink_policy : GuardConfig → Str → Option WriteSinkPolicy
  resolve_write_sink_policy cfg server_id = elim (resolve_guard_policy cfg server_id) [
    | ok (some policy, source) ↦ policy.write_sink
    | ok (none, source) ↦ none
    | err e ↦ none
  ]

  pub override_server : Str → GuardedServer → GuardedServer
  override_server server_id server = record server {
    guard_policies =
        if is_nil server.guard_policies
        then (bytes "allow-only", minimal_value) ∷ []
        else public_policies server.guard_policies
            (parse_server_guard_policy unmarshal show server_id server.guard_policies);
  }

  pub override_to_public_scope : GuardConfig → Str → GuardConfig
  override_to_public_scope cfg server_id = elim cfg.guard_policy [
    | none ↦ elim (lookup server_id cfg.servers) [
      | none ↦ cfg
      | some server ↦ record cfg {
        servers = insert server_id (override_server server_id server) cfg.servers;
      }
    ]
    | some policy ↦ elim (public_scope policy) [
      | none ↦ cfg
      | some changed ↦ record cfg { guard_policy = some changed }
    ]
  ]
