-- ===== src/Launcher/State/Laws.antt =====
-- The observed state of a server after a launch, a failure or a restart
-- (internal/launcher/launcher.go).
use gh_aw_mcpg.Common.{ℕ, ◌≡◌, List, none, some, arith}
use gh_aw_mcpg.Common.Text.{Str, str_beq_iff, str_eq}
use gh_aw_mcpg.Common.Dict.{lookup, delete, lookup-insert_self, lookup-delete}
use gh_aw_mcpg.Launcher.State.{
  Launcher, Launch, launched, launch_failed, ServerType, error, running, record_start, record_error,
  get_or_launch, clear_server_for_restart, get_server_state,
}

module _ {C : Type 0} (l : Launcher C) (id : Str) (now : ℕ) where
  self_delete : {V : Type 0} (m : List (Str × V)) → lookup id (delete id m) ≡ none
  self_delete m = ground (arith, lookup-delete id id m, str_beq_iff id id)

  -- A restart of a configured server (the clearing, then a launch) leaves it running since that
  -- instant if the launch succeeds, and in error with the launch's message if it fails; the launch is
  -- attempted in any case, and its outcome returned.
  pub restart-get_server_state :
      (type : ServerType) (attempt : Launch C)
      → lookup id l.servers ≡ some type
      → let (l', result) = get_or_launch (clear_server_for_restart l id) id now attempt in
        (result ≡ attempt)
        × (get_server_state l' id
            ≡ elim attempt [ launched conn ↦ running now | launch_failed err ↦ error err ])
  unfolding get_or_launch clear_server_for_restart get_server_state
  restart-get_server_state type (launched conn) known = ground (
    arith,
    self_delete l.connections,
    self_delete l.server_start_times,
    self_delete (delete id l.server_errors),
    lookup-insert_self id now (delete id l.server_start_times),
  )
  restart-get_server_state type (launch_failed err) known =
      ground
        (arith, self_delete l.connections, lookup-insert_self id err (delete id l.server_errors))

  -- A failure that is recorded for a server that was started before is not taken back by a later
  -- successful start: the server's state stays in error.
  pub record_start-error :
      (err : Str) (since : ℕ)
      → lookup id l.server_start_times ≡ some since
      → get_server_state (record_start (record_error l id err) id now) id ≡ error err
  unfolding record_start record_error get_server_state
  record_start-error err since started = ground (arith, lookup-insert_self id err l.server_errors)
