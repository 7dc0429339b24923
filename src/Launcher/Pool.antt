-- ===== src/Launcher/Pool.antt =====
-- internal/launcher/connection_pool.go: connections by backend and session. Each method holds the
-- lock, so it is one step; `now` is `time.Now()`, and `C` the pointers to connections.
use gh_aw_mcpg.Common.{
  ℕ, ◌≡◌, ◌↔◌, Bool, true, false, not, ◌&&◌, ◌||◌, List, [], ◌∷◌, ◌++◌, Option, none, some, length,
  ltb, arith, Comparable, ◌==◌, if◌then◌else◌,
}
use gh_aw_mcpg.Common.Int.{inc64, leb64, sub_time}
use gh_aw_mcpg.Common.Text.{Str, str_beq_iff, str_eq}
use gh_aw_mcpg.Common.Dict.{lookup, insert, delete, retain, keys}
pub mod Laws

pub record ConnectionKey : Type 0 where
  pub backend_id : Str
  pub session_id : Str

pub key_beq : ConnectionKey → ConnectionKey → Bool
key_beq a b = a.backend_id == b.backend_id && a.session_id == b.session_id

pub key_beq_iff : (a b : ConnectionKey) → (key_beq a b ≡ true) ↔ (a ≡ b)
unfolding key_beq
key_beq_iff a b =
    ground (arith, str_beq_iff a.backend_id b.backend_id, str_beq_iff a.session_id b.session_id)

instance abbrev pub key_eq : Comparable ConnectionKey
key_eq = record { same = key_beq; same_lem = key_beq_iff }

pub data ConnectionState : Type 0 where
  active idle closed : ConnectionState

-- The counts are the bit patterns of 64-bit integers.
pub record ConnectionMetadata (C : Type 0) : Type 0 where
  pub connection : Option C
  pub created_at : ℕ
  pub last_used_at : ℕ
  pub request_count : ℕ
  pub error_count : ℕ
  pub state : ConnectionState

pub record SessionConnectionPool (C : Type 0) : Type 0 where
  pub connections : List (ConnectionKey × ConnectionMetadata C)
  pub idle_timeout : ℕ
  pub max_error_count : ℕ

abbrev pub is_closed : ConnectionState → Bool
is_closed closed = true
is_closed _ = false

module _ {C : Type 0} where
  -- the three reasons for which the cleanup removes a connection
  abbrev pub should_remove : SessionConnectionPool C → ℕ → ConnectionMetadata C → Bool
  should_remove p now m =
      ltb p.idle_timeout (sub_time now m.last_used_at)
      || leb64 p.max_error_count m.error_count
      || is_closed m.state

  closes : Option C → ConnectionState → List C
  closes none state = []
  closes (some conn) state = if is_closed state then [] else conn ∷ []

  -- the connections that the cleanup calls `Close` on
  closed_by : SessionConnectionPool C → ℕ → List (ConnectionKey × ConnectionMetadata C) → List C
  unfolding closes
  closed_by p now [] = []
  closed_by p now ((key, m) ∷ rest) =
      let later = closed_by p now rest in
      if should_remove p now m then closes m.connection m.state ++ later else later

  pub cleanup_idle_connections : SessionConnectionPool C → ℕ → SessionConnectionPool C × List C
  unfolding closed_by
  cleanup_idle_connections p now = (
    record p { connections = retain (λ key m. not (should_remove p now m)) p.connections },
    closed_by p now p.connections,
  )

  -- the end of `Stop`, once the cleanup goroutine is gone
  unfoldable pub stop : SessionConnectionPool C → SessionConnectionPool C
  stop p = record p { connections = [] }

  use_connection :
      SessionConnectionPool C
      → ℕ
      → ConnectionKey
      → ConnectionMetadata C
      → SessionConnectionPool C × Option (Option C)
  use_connection p now key m = if is_closed m.state then (p, none) else (
    record p {
      connections =
          insert key
            (record m { last_used_at = now; request_count = inc64 m.request_count; state = active })
            p.connections;
    },
    some m.connection,
  )

  -- `none` is the result `nil, false`
  unfoldable pub get :
      SessionConnectionPool C → ℕ → ConnectionKey → SessionConnectionPool C × Option (Option C)
  unfolding use_connection
  get p now key = elim (lookup key p.connections) [
    | none ↦ (p, none)
    | some m ↦ use_connection p now key m
  ]

  pub set_metadata : Option (ConnectionMetadata C) → ℕ → Option C → ConnectionMetadata C
  set_metadata (some existing) now conn = record existing {
    connection = conn;
    last_used_at = now;
    state = active;
  }
  set_metadata none now conn = record {
    connection = conn;
    created_at = now;
    last_used_at = now;
    request_count = 0;
    error_count = 0;
    state = active;
  }

  pub set : SessionConnectionPool C → ℕ → ConnectionKey → Option C → SessionConnectionPool C
  unfolding set_metadata
  set p now key conn = record p {
    connections = insert key (set_metadata (lookup key p.connections) now conn) p.connections;
  }

  pub delete_connection : SessionConnectionPool C → ConnectionKey → SessionConnectionPool C
  delete_connection p key = record p { connections = delete key p.connections }

  unfoldable pub size : SessionConnectionPool C → ℕ
  size p = length p.connections

  pub get_metadata : SessionConnectionPool C → ConnectionKey → Option (ConnectionMetadata C)
  get_metadata p key = lookup key p.connections

  unfoldable pub record_error : SessionConnectionPool C → ConnectionKey → SessionConnectionPool C
  record_error p key = elim (lookup key p.connections) [
    | none ↦ p
    | some m ↦ record p {
      connections = insert key (record m { error_count = inc64 m.error_count }) p.connections;
    }
  ]

  unfoldable pub list : SessionConnectionPool C → List ConnectionKey
  list p = keys p.connections
