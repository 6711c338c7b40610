-- ===== src/Pool.antt =====
-- The pool of device sessions (connection_pool.py): its state and what it asks of the environment.
-- Times are ticks of the monotonic clock; a session and its client are one object with an identity.
pub mod Operations
pub mod Upkeep
pub mod Steps
pub mod Conserved
pub mod Capacity
pub mod Lease
pub mod Probes
pub mod Reconnects
use pytvt.Prelude.{ℕ, String, Bool, Option, List}
use pytvt.Prelude.Dict.{Dict}

pub data Method : Type 0 where
  direct nat : Method

pub record SessionMetrics : Type 0 where
  pub target : String
  pub connection_method : Method
  pub handshake_ms : ℕ
  pub connected_at : ℕ
  pub last_seen : ℕ
  pub keepalive_count : ℕ
  pub keepalive_failures : ℕ
  pub reconnect_count : ℕ

-- What `client.connect` returned, and when.
pub record Connected : Type 0 where
  pub session : ℕ
  pub target : String
  pub connection_method : Method
  pub handshake_duration_ms : Option ℕ
  pub now : ℕ

pub record PoolEntry : Type 0 where
  pub key : String
  pub session : ℕ
  pub metrics : SessionMetrics
  pub in_use : Bool
  pub failed : Bool

-- `closed` and `created` are not the program's: they record every session that `_close_entry` was
-- called for and every session that a connection gave.
pub record ConnectionPool : Type 0 where
  pub max_active : ℕ
  pub idle_timeout : ℕ
  pub max_reconnect_attempts : ℕ
  pub prefer_nat : Bool
  pub sessions : Dict PoolEntry
  pub total_connects : ℕ
  pub total_failures : ℕ
  pub total_reconnects : ℕ
  pub closed : List ℕ
  pub created : List ℕ

pub record PoolStats : Type 0 where
  pub active_sessions : ℕ
  pub idle_sessions : ℕ
  pub total_connects : ℕ
  pub total_failures : ℕ
  pub total_reconnects : ℕ

pub data AcquireError : Type 0 where
  no_target at_capacity connect_failed : AcquireError

pub data Acquired : Type 0 where
  session_of : ℕ → Acquired
  failed_with : AcquireError → Acquired

-- The arguments of `acquire` that choose the entry and the way to connect. The others only go to
-- `client.connect`.
pub record Request : Type 0 where
  pub ip : Option String
  pub identifier : Option String
  pub username : String
  pub connection_method : Option String

-- The string methods of Python that the keys and the method names are built with: `s.strip()`,
-- `s.lower()` and `f"{username}@{target}"`.
pub record Strings : Type 0 where
  pub strip : String → String
  pub lower : String → String
  pub user_at : String → String → String
