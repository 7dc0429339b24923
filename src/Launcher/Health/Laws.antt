-- ===== src/Launcher/Health/Laws.antt =====
-- The bound on restarts and the recovery of a server (internal/launcher/health_monitor.go).
use gh_aw_mcpg.Common.{
  ℕ, ◌+◌, ◌≤◌, ◌<◌, ◌≡◌, refl, List, [], ◌∷◌, some, arith, leb, Bool-cases, inl, inr,
}
use gh_aw_mcpg.Common.Text.{Str, str_eq}
use gh_aw_mcpg.Common.Dict.{lookup, lookup-insert, lookup-insert_self}
use gh_aw_mcpg.Launcher.State.{
  Launcher, Launch, launched, launch_failed, ServerState, ServerType, error, running, stopped,
  get_or_launch, clear_server_for_restart, get_server_state, server_ids,
}
use gh_aw_mcpg.Launcher.State.Laws.{restart-get_server_state}
use gh_aw_mcpg.Launcher.Health.{
  HealthMonitor, failures_of, handle_error_state, count_outcome, check_state, check_server,
  check_each, check_all, max_consecutive_restart_failures,
}

module _ {C : Type 0} where
  -- No server has more failures in a row than the maximum.
  abbrev pub IsCapped : HealthMonitor C → Type 0
  IsCapped hm = (id : Str) → failures_of hm id ≤ max_consecutive_restart_failures

  count_capped :
      (hm : HealthMonitor C) (server_id id : Str) (n : ℕ) (outcome : Launcher C × Launch C)
      → n < max_consecutive_restart_failures
      → IsCapped hm
      → failures_of (count_outcome hm server_id n outcome) id ≤ max_consecutive_restart_failures
  unfolding count_outcome
  count_capped hm server_id id n (l, launched conn) below capped =
      ground (arith, lookup-insert server_id id 0 hm.consecutive_failures, capped id)
  count_capped hm server_id id n (l, launch_failed err) below capped =
      ground (arith, lookup-insert server_id id (n + 1) hm.consecutive_failures, capped id)

  handle-IsCapped :
      (hm : HealthMonitor C) (server_id : Str) (now : ℕ) (attempt : Launch C)
      → IsCapped hm
      → IsCapped (handle_error_state hm server_id now attempt)
  unfolding handle_error_state
  handle-IsCapped hm server_id now attempt capped id =
      elim (Bool-cases (leb max_consecutive_restart_failures (failures_of hm server_id))) [
        | inl full ↦ rw (full, handle_error_state) (capped id)
        | inr below ↦
            rw (below, handle_error_state)
              (count_capped hm server_id id (failures_of hm server_id)
                (get_or_launch (clear_server_for_restart hm.launcher server_id) server_id now
                  attempt)
                (ground arith) capped)
      ]

  check_state-IsCapped :
      (state : ServerState) (hm : HealthMonitor C) (server_id : Str) (now : ℕ) (attempt : Launch C)
      → IsCapped hm
      → IsCapped (check_state state hm server_id now attempt)
  unfolding check_state
  check_state-IsCapped (error err) hm server_id now attempt capped id =
      handle-IsCapped hm server_id now attempt capped id
  check_state-IsCapped (running since) hm server_id now attempt capped id =
      ground (arith, lookup-insert server_id id 0 hm.consecutive_failures, capped id)
  check_state-IsCapped stopped hm server_id now attempt capped id = capped id

  check_each-IsCapped :
      (hm : HealthMonitor C) (ids : List Str) (now : ℕ) (attempts : Str → Launch C)
      → IsCapped hm
      → IsCapped (check_each hm ids now attempts)
  unfolding check_each check_server
  check_each-IsCapped hm [] now attempts capped = capped
  check_each-IsCapped hm (id ∷ rest) now attempts capped =
      check_each-IsCapped (check_server hm id now (attempts id)) rest now attempts
        (check_state-IsCapped (get_server_state hm.launcher id) hm id now (attempts id) capped)

  -- A health check, whatever its launches come to, counts no more failures in a row for any server
  -- than the maximum of three.
  pub check_all-IsCapped :
      (hm : HealthMonitor C) (now : ℕ) (attempts : Str → Launch C)
      → IsCapped hm
      → IsCapped (check_all hm now attempts)
  unfolding check_all
  check_all-IsCapped hm now attempts capped =
      check_each-IsCapped hm (server_ids hm.launcher) now attempts capped

  counted :
      (hm : HealthMonitor C) (id : Str) (n : ℕ) (result : Launcher C × Launch C)
      → ((count_outcome hm id n result).launcher ≡ result.0)
        × (failures_of (count_outcome hm id n result) id
            ≡ elim result.1 [ launched conn ↦ 0 | launch_failed msg ↦ n + 1 ])
  unfolding count_outcome
  counted hm id n (l, launched conn) =
      (refl, ground (arith, lookup-insert_self id 0 hm.consecutive_failures))
  counted hm id n (l, launch_failed msg) =
      (refl, ground (arith, lookup-insert_self id (n + 1) hm.consecutive_failures))

  restarted :
      (hm : HealthMonitor C) (id : Str) (now : ℕ) (err : Str) (attempt : Launch C)
      → get_server_state hm.launcher id ≡ error err
      → failures_of hm id < max_consecutive_restart_failures
      → check_server hm id now attempt
        ≡ count_outcome hm id
            (failures_of hm id)
            (get_or_launch (clear_server_for_restart hm.launcher id) id now attempt)
  unfolding check_server handle_error_state
  restarted hm id now err attempt bad below = ground arith

  -- A server in error with fewer failures than the maximum is restarted: a launch that succeeds
  -- leaves it running with no failure counted; one that fails leaves it in error with one more.
  pub check_server-restart :
      (hm : HealthMonitor C) (id : Str) (now : ℕ) (type : ServerType) (err : Str)
      (attempt : Launch C)
      → lookup id hm.launcher.servers ≡ some type
      → get_server_state hm.launcher id ≡ error err
      → failures_of hm id < max_consecutive_restart_failures
      → let hm' = check_server hm id now attempt in
        (get_server_state hm'.launcher id
          ≡ elim attempt [ launched conn ↦ running now | launch_failed msg ↦ error msg ])
        × (failures_of hm' id
            ≡ elim attempt [ launched conn ↦ 0 | launch_failed msg ↦ failures_of hm id + 1 ])
  check_server-restart hm id now type err attempt known bad below =
      let result : Launcher C × Launch C =
        get_or_launch (clear_server_for_restart hm.launcher id) id now attempt in
      let (same, count) = counted hm id (failures_of hm id) result in
      let (outcome, state) = restart-get_server_state hm.launcher id now type attempt known in
      rw (restarted hm id now err attempt bad below, same, count, outcome) (state, refl)

  -- checks of one server at several instants, each with what a launch would come to
  pub check_often : HealthMonitor C → Str → List (ℕ × Launch C) → HealthMonitor C
  check_often hm id [] = hm
  check_often hm id ((now, attempt) ∷ rest) = check_often (check_server hm id now attempt) id rest

  given_up :
      (hm : HealthMonitor C) (id : Str) (now : ℕ) (err : Str) (attempt : Launch C)
      → get_server_state hm.launcher id ≡ error err
      → max_consecutive_restart_failures ≤ failures_of hm id
      → check_server hm id now attempt ≡ hm
  unfolding check_server handle_error_state
  given_up hm id now err attempt bad full = ground arith

  -- A server in error that has reached the maximum is left alone for good: any number of further
  -- checks of it, whatever a launch would come to, changes nothing.
  pub check_often-given_up :
      (hm : HealthMonitor C) (id err : Str) (checks : List (ℕ × Launch C))
      → get_server_state hm.launcher id ≡ error err
      → max_consecutive_restart_failures ≤ failures_of hm id
      → check_often hm id checks ≡ hm
  unfolding check_often
  check_often-given_up hm id err [] bad full = refl
  check_often-given_up hm id err ((now, attempt) ∷ rest) bad full =
      rw (given_up hm id now err attempt bad full) (check_often-given_up hm id err rest bad full)
