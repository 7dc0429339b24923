-- ===== src/Server/GuardSetup/Visibility.antt =====
-- The visibility of a write-sink at run time: internal/server/guard_visibility.go, and the part of
-- `registerGuard` in guard_init.go that makes a write-sink guard.
use gh_aw_mcpg.Common.{
  Bool, List, Option, [], arith, false, if◌then◌else◌, is_nil, none, not, refl, some, true, ◌&&◌,
  ◌==◌, ◌||◌, ◌∷◌, ◌≡◌, ◌⊎◌,
}
use gh_aw_mcpg.Common.Text.{Str, bytes, str_beq_iff, str_eq, to_lower, trim_space}
use gh_aw_mcpg.Config.Env.{get_env_bool}
use gh_aw_mcpg.Config.Parse.{Env}
use gh_aw_mcpg.Config.Sink.{WriteSinkPolicy}
use gh_aw_mcpg.Guard.{WriteSinkGuard, new_write_sink_guard}
use gh_aw_mcpg.Server.GuardSetup.{GuardConfig, Runtime}

-- `resolveWorkflowRepoVisibility`: the answer is kept for the lifetime of the gateway, so it is one
-- value here
unfoldable pub resolve_workflow_repo_visibility : Runtime → Option Str
resolve_workflow_repo_visibility rt =
    if is_nil rt.repository || is_nil rt.token then none else rt.fetched_visibility

-- whether the API says that the repository is public
unfoldable pub says_public : Option Str → Bool
says_public none = false
says_public (some visibility) = visibility == bytes "public"

-- the end of `verifySinkVisibilityAtRuntime`, where the API's answer is known or not
pub verified : Str → Option Str → Str
verified configured none = configured
verified configured (some visibility) =
    if says_public (some visibility) && not (to_lower (trim_space configured) == bytes "public")
    then bytes "public"
    else to_lower (trim_space configured)

pub verify_sink_visibility_at_runtime : Runtime → Str → Str
verify_sink_visibility_at_runtime rt configured =
    if is_nil configured || is_nil rt.repository || is_nil rt.token
    then configured
    else verified configured (resolve_workflow_repo_visibility rt)

-- the options of the gateway and the environment leave the feature on
unfoldable pub is_disabled : Option Bool → Bool
is_disabled (some false) = true
is_disabled _ = false

unfoldable pub compute_force_public_repos : GuardConfig → Env → Runtime → Bool
compute_force_public_repos cfg env rt =
    not (is_disabled cfg.force_public_repos)
    && (get_env_bool env (bytes "MCP_GATEWAY_FORCE_PUBLIC_REPOS") true
        && (not (is_nil rt.repository)
            && (not (is_nil rt.token) && says_public (resolve_workflow_repo_visibility rt))))

unfoldable pub is_safe_outputs_server : Str → Bool
is_safe_outputs_server server_id =
    server_id == bytes "safe-outputs" || server_id == bytes "safeoutputs"

-- the loop over the exempt servers
unfoldable pub is_listed : Str → List Str → Bool
is_listed server_id [] = false
is_listed server_id (exempt ∷ rest) =
    exempt == bytes "*" || exempt == server_id || is_listed server_id rest

unfoldable pub is_server_exempt_from_sink_visibility : GuardConfig → Str → Bool
is_server_exempt_from_sink_visibility cfg server_id =
    is_disabled cfg.force_public_repos || is_listed server_id cfg.sink_visibility_exempt_servers

-- the defaults of `registerGuard`, before the check at run time
pub default_visibility : GuardConfig → Runtime → Str → Str → Str
default_visibility cfg rt server_id configured =
    if not (is_nil configured)
    then configured
    else if is_safe_outputs_server server_id
    then (if says_public (resolve_workflow_repo_visibility rt) then bytes "public" else [])
    else if is_server_exempt_from_sink_visibility cfg server_id
    then []
    else bytes "public"

pub effective_visibility : GuardConfig → Runtime → Str → Str → Str
effective_visibility cfg rt server_id configured =
    verify_sink_visibility_at_runtime rt (default_visibility cfg rt server_id configured)

pub register_write_sink : GuardConfig → Runtime → Str → WriteSinkPolicy → WriteSinkGuard
register_write_sink cfg rt server_id ws =
    new_write_sink_guard ws.accept (effective_visibility cfg rt server_id ws.sink_visibility)

-- An exemption counts only where no visibility is configured, and not for safe outputs.
abbrev pub IsExempt : GuardConfig → Str → Str → Type 0
IsExempt cfg server_id configured =
    (configured ≡ [])
    × (is_safe_outputs_server server_id ≡ false)
    × (is_server_exempt_from_sink_visibility cfg server_id ≡ true)

public_normal : to_lower (trim_space (bytes "public")) ≡ bytes "public"
unfolding trim_space to_lower
public_normal = refl

-- In a repository that the API says is public, every write-sink is a public sink, whatever was
-- configured, unless its server is exempt, has no visibility configured and is not the one of safe
-- outputs.
pub register_write_sink-public :
    (cfg : GuardConfig) (rt : Runtime) (server_id : Str) (ws : WriteSinkPolicy)
    → says_public (resolve_workflow_repo_visibility rt) ≡ true
    → (IsExempt cfg server_id ws.sink_visibility)
      ⊎ ((register_write_sink cfg rt server_id ws).sink_visibility ≡ bytes "public")
unfolding register_write_sink effective_visibility default_visibility
    verify_sink_visibility_at_runtime verified new_write_sink_guard resolve_workflow_repo_visibility
    says_public
register_write_sink-public cfg rt server_id ws p =
    let configured = default_visibility cfg rt server_id ws.sink_visibility in
    ground (arith, public_normal, str_beq_iff (to_lower (trim_space configured)) (bytes "public"))

-- Without an exemption and without a configured visibility a write-sink is public, whether or not the
-- API answers, but for safe outputs.
pub register_write_sink-default :
    (cfg : GuardConfig) (rt : Runtime) (server_id : Str) (accept : List Str)
    → is_safe_outputs_server server_id ≡ false
    → is_server_exempt_from_sink_visibility cfg server_id ≡ false
    → (register_write_sink cfg rt server_id
        (record { accept = accept; sink_visibility = [] })).sink_visibility
      ≡ bytes "public"
unfolding register_write_sink effective_visibility default_visibility
    verify_sink_visibility_at_runtime verified new_write_sink_guard
register_write_sink-default cfg rt server_id accept s e =
    ground
      (arith, public_normal, str_beq_iff (to_lower (trim_space (bytes "public"))) (bytes "public"))
