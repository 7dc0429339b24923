-- ===== src/Tests/Launching.antt =====
-- Runs of the launcher, its pool and its health monitor (internal/launcher).
use gh_aw_mcpg.Common.{ℕ, refl, [], ◌∷◌, some, arith}
use gh_aw_mcpg.Common.Text.{Str, bytes, str_eq}
use gh_aw_mcpg.Common.Dict.{lookup, IsDict}
use gh_aw_mcpg.Launcher.Pool.{
  ConnectionKey, ConnectionMetadata, SessionConnectionPool, key_eq, active,
}
use gh_aw_mcpg.Launcher.State.{Launcher, stdio}
use gh_aw_mcpg.Launcher.Health.{HealthMonitor}
use gh_aw_mcpg.Launcher.Health.Laws.{IsCapped}

abbrev github : Str
github = bytes "github"

abbrev slack : Str
slack = bytes "slack"

abbrev first_key : ConnectionKey
first_key = record { backend_id = github; session_id = bytes "s" }

abbrev other_key : ConnectionKey
other_key = record { backend_id = slack; session_id = bytes "s" }

-- connections are numbers here
abbrev used_once : ConnectionMetadata ℕ
used_once = record {
  connection = some 7;
  created_at = 1;
  last_used_at = 2;
  request_count = 1;
  error_count = 0;
  state = active;
}

abbrev pool : SessionConnectionPool ℕ
pool = record { connections = (first_key, used_once) ∷ []; idle_timeout = 100; max_error_count = 2 }

pool-IsDict : IsDict pool.connections
unfolding lookup
pool-IsDict = (refl, tt)

abbrev broken : Launcher ℕ
broken = record {
  servers = (github, stdio) ∷ [];
  connections = [];
  session_pool = pool;
  server_start_times = (github, 1) ∷ [];
  server_errors = (github, bytes "exit 1") ∷ [];
}

abbrev monitor : HealthMonitor ℕ
monitor = record { launcher = broken; consecutive_failures = (github, 1) ∷ [] }

monitor-IsCapped : IsCapped monitor
unfolding lookup
monitor-IsCapped id = ground arith

abbrev exhausted : HealthMonitor ℕ
exhausted = record { launcher = broken; consecutive_failures = (github, 3) ∷ [] }
