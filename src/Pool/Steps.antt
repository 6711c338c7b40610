-- ===== src/Pool/Steps.antt =====
-- The pool under threads: each step is one block that holds the lock, and any thread may make it at
-- any time (connection_pool.py).
use pytvt.Prelude.{ℕ, ◌+◌, String, Bool, none, some, []}
use pytvt.Prelude.Dict.{get, put}
use pytvt.Pool.{Connected, ConnectionPool}
use pytvt.Pool.Operations.{acquire_begin, acquire_install, release, remove, pop_entry, close}
use pytvt.Pool.Upkeep.{probed, evict_stale, reconnected}

-- `__init__`
abbrev pub new_pool : ℕ → ℕ → ℕ → Bool → ConnectionPool
new_pool limit timeout retries prefer_nat = record {
  max_active = limit;
  idle_timeout = timeout;
  max_reconnect_attempts = retries;
  prefer_nat = prefer_nat;
  sessions = [];
  total_connects = 0;
  total_failures = 0;
  total_reconnects = 0;
  closed = [];
  created = [];
}

-- The locked block of `keepalive` for one target, while its entry is still in the pool.
unfoldable pub probe_entry : String → Bool → ℕ → ConnectionPool → ConnectionPool
probe_entry key ok now p = elim (get key p.sessions) [
  | none ↦ p
  | some e ↦ record p { sessions = put key (probed p.max_reconnect_attempts ok now e) p.sessions }
]

pub data Step : ConnectionPool → ConnectionPool → Type 0 where
  begin : (now : ℕ) (key : String) (p : ConnectionPool) → Step p (acquire_begin now key p).1
  install : (key : String) (s : Connected) (p : ConnectionPool) → Step p (acquire_install key s p)
  connect_fails : (p : ConnectionPool) → Step p (record p { total_failures = p.total_failures + 1 })
  give_back : (now s : ℕ) (p : ConnectionPool) → Step p (release now s p)
  take_out : (s : ℕ) (p : ConnectionPool) → Step p (remove s p)
  answer :
      (key : String) (ok : Bool) (now : ℕ) (p : ConnectionPool) → Step p (probe_entry key ok now p)
  evict : (now : ℕ) (p : ConnectionPool) → Step p (evict_stale now p)
  drop_entry : (key : String) (p : ConnectionPool) → Step p (pop_entry key p)
  count : (key : String) (p : ConnectionPool) → Step p (reconnected key p)
  shut : (p : ConnectionPool) → Step p (close p)

pub data Reach (p : ConnectionPool) : ConnectionPool → Type 0 where
  here : Reach p p
  next : {q r : ConnectionPool} → Reach p q → Step q r → Reach p r
