-- ===== src/Launcher/Health.antt =====
-- internal/launcher/health_monitor.go: the periodic restart of servers in error.
use gh_aw_mcpg.Common.{
  ℕ, ◌+◌, Bool, true, false, List, [], ◌∷◌, Option, none, some, leb, ltb, if◌then◌else◌,
}
use gh_aw_mcpg.Common.Text.{Str, str_eq}
use gh_aw_mcpg.Common.Dict.{lookup, insert}
use gh_aw_mcpg.Launcher.State.{
  Launcher, Launch, launched, launch_failed, ServerState, error, running, stopped, get_or_launch,
  clear_server_for_restart, get_server_state, server_ids,
}
pub mod Laws

abbrev pub max_consecutive_restart_failures : ℕ
max_consecutive_restart_failures = 3

-- The counts never pass the maximum, so they are not taken modulo the word's size.
pub record HealthMonitor (C : Type 0) : Type 0 where
  pub launcher : Launcher C
  pub consecutive_failures : List (Str × ℕ)

abbrev or_zero : Option ℕ → ℕ
or_zero none = 0
or_zero (some n) = n

module _ {C : Type 0} where
  -- `hm.consecutiveFailures[serverID]`, 0 for a missing key
  abbrev pub failures_of : HealthMonitor C → Str → ℕ
  failures_of hm server_id = or_zero (lookup server_id hm.consecutive_failures)

  count_outcome : HealthMonitor C → Str → ℕ → Launcher C × Launch C → HealthMonitor C
  count_outcome hm server_id failures (l, launched conn) = record {
    launcher = l;
    consecutive_failures = insert server_id 0 hm.consecutive_failures;
  }
  count_outcome hm server_id failures (l, launch_failed err) = record {
    launcher = l;
    consecutive_failures = insert server_id (failures + 1) hm.consecutive_failures;
  }

  -- `attempt` is what a launch comes to if it is tried.
  pub handle_error_state : HealthMonitor C → Str → ℕ → Launch C → HealthMonitor C
  unfolding count_outcome
  handle_error_state hm server_id now attempt =
      let failures = failures_of hm server_id in
      if leb max_consecutive_restart_failures failures
      then hm
      else count_outcome hm server_id failures
          (get_or_launch (clear_server_for_restart hm.launcher server_id) server_id now attempt)

  check_state : ServerState → HealthMonitor C → Str → ℕ → Launch C → HealthMonitor C
  unfolding handle_error_state
  check_state (error err) hm server_id now attempt = handle_error_state hm server_id now attempt
  check_state (running since) hm server_id now attempt =
      if ltb 0 (failures_of hm server_id)
      then record hm { consecutive_failures = insert server_id 0 hm.consecutive_failures }
      else hm
  check_state stopped hm server_id now attempt = hm

  -- one round of the loop of `checkAll`
  pub check_server : HealthMonitor C → Str → ℕ → Launch C → HealthMonitor C
  unfolding check_state
  check_server hm server_id now attempt =
      check_state (get_server_state hm.launcher server_id) hm server_id now attempt

  check_each : HealthMonitor C → List Str → ℕ → (Str → Launch C) → HealthMonitor C
  check_each hm [] now attempts = hm
  check_each hm (server_id ∷ rest) now attempts =
      check_each (check_server hm server_id now (attempts server_id)) rest now attempts

  pub check_all : HealthMonitor C → ℕ → (Str → Launch C) → HealthMonitor C
  unfolding check_each
  check_all hm now attempts = check_each hm (server_ids hm.launcher) now attempts
