-- ===== src/Launcher/State.antt =====
-- internal/launcher/launcher.go: the launched servers and their observed state. `C` is the pointers
-- to connections; what a launch comes to (a process, a network) is an argument.
use gh_aw_mcpg.Common.{ℕ, Bool, true, false, List, [], ◌∷◌, Option, none, some, if◌then◌else◌}
use gh_aw_mcpg.Common.Text.{Str, bytes, str_eq}
use gh_aw_mcpg.Common.Dict.{lookup, insert, delete, keys}
use gh_aw_mcpg.Launcher.Pool
use gh_aw_mcpg.Launcher.Pool.{SessionConnectionPool, ConnectionKey}
pub mod Laws

pub data ServerType : Type 0 where
  http stdio : ServerType

-- the status with what comes with it
pub data ServerState : Type 0 where
  error : Str → ServerState
  running : ℕ → ServerState
  stopped : ServerState

pub record Launcher (C : Type 0) : Type 0 where
  pub servers : List (Str × ServerType)
  pub connections : List (Str × C)
  pub session_pool : SessionConnectionPool C
  pub server_start_times : List (Str × ℕ)
  pub server_errors : List (Str × Str)

-- the outcome of an attempt to connect, and of a call that may make one
pub data Launch (C : Type 0) : Type 0 where
  launched : C → Launch C
  launch_failed : Str → Launch C

abbrev not_found : Str
not_found = bytes "server not found in config"

abbrev session_key : Str → Str → ConnectionKey
session_key server_id session_id = record { backend_id = server_id; session_id = session_id }

module _ {C : Type 0} where
  pub record_start : Launcher C → Str → ℕ → Launcher C
  record_start l server_id now = elim (lookup server_id l.server_start_times) [
    | some _ ↦ l
    | none ↦ record l {
      server_start_times = insert server_id now l.server_start_times;
      server_errors = delete server_id l.server_errors;
    }
  ]

  unfoldable pub record_error : Launcher C → Str → Str → Launcher C
  record_error l server_id err_msg = record l {
    server_errors = insert server_id err_msg l.server_errors;
  }

  -- what `create` does with the outcome of its attempt
  create_connection : Launcher C → Str → ℕ → Launch C → Launcher C × Launch C
  unfolding record_start record_error
  create_connection l server_id now (launched conn) =
      let l' = record_start l server_id now in
      (record l' { connections = insert server_id conn l'.connections }, launched conn)
  create_connection l server_id now (launch_failed err) =
      (record_error l server_id err, launch_failed err)

  -- `getOrLaunchWithConfig`
  pub get_or_launch_with_config : Launcher C → Str → ℕ → Launch C → Launcher C × Launch C
  unfolding create_connection
  get_or_launch_with_config l server_id now attempt = elim (lookup server_id l.connections) [
    | some conn ↦ (l, launched conn)
    | none ↦ create_connection l server_id now attempt
  ]

  -- `GetOrLaunch`
  pub get_or_launch : Launcher C → Str → ℕ → Launch C → Launcher C × Launch C
  unfolding get_or_launch_with_config
  get_or_launch l server_id now attempt = elim (lookup server_id l.servers) [
    | none ↦ (l, launch_failed not_found)
    | some _ ↦ get_or_launch_with_config l server_id now attempt
  ]

  -- the launch of a session's own connection
  launch_for_session : Launcher C → Str → Str → ℕ → Launch C → Launcher C × Launch C
  unfolding record_start record_error
  launch_for_session l server_id session_id now (launched conn) =
      let pool = Pool.set l.session_pool now (session_key server_id session_id) (some conn) in
      (record_start (record l { session_pool = pool }) server_id now, launched conn)
  launch_for_session l server_id session_id now (launch_failed err) =
      let pool = Pool.record_error l.session_pool (session_key server_id session_id) in
      (record_error (record l { session_pool = pool }) server_id err, launch_failed err)

  -- a nil connection in the pool counts as none here; `Set` is never called with one
  pooled : Launcher C → SessionConnectionPool C × Option (Option C) → Option (Launcher C × Launch C)
  pooled l (pool, some (some conn)) = some (record l { session_pool = pool }, launched conn)
  pooled l (pool, some none) = none
  pooled l (pool, none) = none

  stdio_for_session : Launcher C → Str → Str → ℕ → Launch C → Launcher C × Launch C
  unfolding launch_for_session pooled
  stdio_for_session l server_id session_id now attempt =
      elim (pooled l (Pool.get l.session_pool now (session_key server_id session_id))) [
        | some found ↦ found
        | none ↦ launch_for_session l server_id session_id now attempt
      ]

  typed_for_session : ServerType → Launcher C → Str → Str → ℕ → Launch C → Launcher C × Launch C
  unfolding stdio_for_session get_or_launch_with_config
  typed_for_session http l server_id session_id now attempt =
      get_or_launch_with_config l server_id now attempt
  typed_for_session stdio l server_id session_id now attempt =
      stdio_for_session l server_id session_id now attempt

  -- `GetOrLaunchForSession`
  unfoldable pub get_or_launch_for_session :
      Launcher C → Str → Str → ℕ → Launch C → Launcher C × Launch C
  unfolding typed_for_session
  get_or_launch_for_session l server_id session_id now attempt = elim (lookup server_id l.servers) [
    | none ↦ (l, launch_failed not_found)
    | some type ↦ typed_for_session type l server_id session_id now attempt
  ]

  unfoldable pub server_ids : Launcher C → List Str
  server_ids l = keys l.servers

  pub clear_server_for_restart : Launcher C → Str → Launcher C
  clear_server_for_restart l server_id = record l {
    server_errors = delete server_id l.server_errors;
    server_start_times = delete server_id l.server_start_times;
    connections = delete server_id l.connections;
  }

  pub get_server_state : Launcher C → Str → ServerState
  get_server_state l server_id = elim (lookup server_id l.server_errors) [
    | some msg ↦ error msg
    | none ↦ elim (lookup server_id l.server_start_times) [
      | some started ↦ running started
      | none ↦ stopped
    ]
  ]
