-- ===== src/Launcher/Pool/Laws.antt =====
-- What the pool gives back, and what its cleanup removes (internal/launcher/connection_pool.go).
use gh_aw_mcpg.Common.{
  ℕ, zero, suc, ◌+◌, ◌<◌, ◌≤◌, ◌^◌, ◌≡◌, ◌∙◌, refl, false, not, Option, none, some, arith, ◌==◌,
  if◌then◌else◌, Option-cases, Bool-cases, inl, inr,
}
use gh_aw_mcpg.Common.Int.{inc64}
use gh_aw_mcpg.Common.Dict.{
  lookup, IsDict, lookup-insert, lookup-insert_self, lookup-delete, lookup-retain, insert-IsDict,
}
use gh_aw_mcpg.Launcher.Pool.{
  ConnectionKey, ConnectionMetadata, SessionConnectionPool, key_eq, active, key_beq_iff,
  set_metadata, should_remove, cleanup_idle_connections, get, set, delete_connection, record_error,
  get_metadata,
}

module _ {C : Type 0} where
  set_metadata_lem :
      (old : Option (ConnectionMetadata C)) (now : ℕ) (conn : Option C)
      → ((set_metadata old now conn).connection ≡ conn)
        × ((set_metadata old now conn).state ≡ active)
  unfolding set_metadata
  set_metadata_lem none now conn = (refl, refl)
  set_metadata_lem (some old) now conn = (refl, refl)

  get_active :
      (p : SessionConnectionPool C) (now : ℕ) (key other : ConnectionKey) (m : ConnectionMetadata C)
      → lookup key p.connections ≡ some m
      → m.state ≡ active
      → let (p', found) = get p now key in
        (found ≡ some m.connection)
        × ((key == other) ≡ false → lookup other p'.connections ≡ lookup other p.connections)
  unfolding get
  get_active p now key other m has live =
      let used : ConnectionMetadata C = record m {
        last_used_at = now;
        request_count = inc64 m.request_count;
        state = active;
      } in
      (ground arith, λ ne. ground (arith, lookup-insert key other used p.connections))

  -- A connection that was set is given back by the next `Get` of its key, whenever it comes; neither
  -- changes the metadata of another key.
  pub get-set :
      (p : SessionConnectionPool C) (now later : ℕ) (key other : ConnectionKey) (conn : Option C)
      → let (p', found) = get (set p now key conn) later key in
        (found ≡ some conn)
        × (get_metadata p' other
            ≡ (if key == other then get_metadata p' key else get_metadata p other))
  unfolding set get_metadata
  get-set p now later key other conn =
      let m : ConnectionMetadata C = set_metadata (lookup key p.connections) now conn in
      let (same, live) = set_metadata_lem (lookup key p.connections) now conn in
      let (found, kept) =
        get_active (set p now key conn) later key other m (lookup-insert_self key m p.connections)
          live in
      (
        ground (arith, same, found),
        elim (Bool-cases (key == other)) [
          | inl eq ↦ ground (arith, key_beq_iff key other)
          | inr ne ↦ rw ne (kept ne ∙ ground (arith, lookup-insert key other m p.connections))
        ],
      )

  -- After `Delete` a key has no connection, and the metadata of every other key stays.
  pub get-delete :
      (p : SessionConnectionPool C) (now : ℕ) (key other : ConnectionKey)
      → let p' = delete_connection p key in
        ((get p' now key).1 ≡ none)
        × (get_metadata p' other ≡ (if key == other then none else get_metadata p other))
  unfolding get delete_connection get_metadata
  get-delete p now key other = (
    ground (arith, lookup-delete key key p.connections, key_beq_iff key key),
    ground (arith, lookup-delete key other p.connections),
  )

  -- The cleanup keeps the metadata of a key as it is if the connection is not closed, not idle for
  -- longer than the timeout and below the error limit; otherwise it removes the key.
  pub get_metadata-cleanup :
      (p : SessionConnectionPool C) (now : ℕ) (key : ConnectionKey)
      → IsDict p.connections
      → get_metadata (cleanup_idle_connections p now).0 key ≡ elim (get_metadata p key) [
        | none ↦ none
        | some m ↦ (if should_remove p now m then none else some m)
      ]
  unfolding cleanup_idle_connections get_metadata
  get_metadata-cleanup p now key d =
      ground (arith, lookup-retain (λ k m. not (should_remove p now m)) key p.connections d)

  pub record_errors : ℕ → SessionConnectionPool C → ConnectionKey → SessionConnectionPool C
  record_errors zero p key = p
  record_errors (suc n) p key = record_errors n (record_error p key) key

  one_error :
      (p : SessionConnectionPool C) (key : ConnectionKey) (m : ConnectionMetadata C)
      → lookup key p.connections ≡ some m
      → lookup key (record_error p key).connections
        ≡ some (record m { error_count = inc64 m.error_count })
  unfolding record_error
  one_error p key m has =
      let worse : ConnectionMetadata C = record m { error_count = inc64 m.error_count } in
      ground (arith, lookup-insert_self key worse p.connections)

  error_keeps :
      (p : SessionConnectionPool C) (key : ConnectionKey)
      → IsDict p.connections
      → IsDict (record_error p key).connections
        × ((record_error p key).max_error_count ≡ p.max_error_count)
  unfolding record_error
  error_keeps p key d = elim (Option-cases (lookup key p.connections)) [
    | inl missing ↦ rw (missing, record_error) (d, refl)
    | inr (m, has) ↦
        rw (has, record_error)
          (insert-IsDict key (record m { error_count = inc64 m.error_count }) p.connections d, refl)
  ]

  -- A connection on which errors are recorded until they reach the pool's limit, which is below
  -- 2^63, is removed by the next cleanup, at whatever time.
  pub cleanup-record_errors :
      (n : ℕ) (p : SessionConnectionPool C) (now : ℕ) (key : ConnectionKey)
      (m : ConnectionMetadata C)
      → IsDict p.connections
      → get_metadata p key ≡ some m
      → p.max_error_count ≤ m.error_count + n
      → m.error_count + n < 2 ^ 63
      → get_metadata (cleanup_idle_connections (record_errors n p key) now).0 key ≡ none
  unfolding record_errors get_metadata
  cleanup-record_errors zero p now key m d has limit fits =
      ground (arith, get_metadata-cleanup p now key d)
  cleanup-record_errors (suc n) p now key m d has limit fits =
      let (d', same) = error_keeps p key d in
      let worse : ConnectionMetadata C = record m { error_count = inc64 m.error_count } in
      cleanup-record_errors n (record_error p key) now key worse d' (one_error p key m has)
        (omega arith) (omega arith)
