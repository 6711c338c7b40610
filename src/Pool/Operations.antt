-- ===== src/Pool/Operations.antt =====
-- Keys, methods, `acquire`, `release`, `remove` and the closing of a pool (connection_pool.py).
use pytvt.Prelude.{
  ℕ, ◌+◌, String, Bool, true, false, not, ◌&&◌, Option, none, some, List, [], ◌∷◌, str_eq, ◌==◌,
  leb, if◌then◌else◌, count_if,
}
use pytvt.Prelude.Dict.{Dict, get, put, erase, values}
use pytvt.Pool.{
  Method, direct, nat, Connected, PoolEntry, ConnectionPool, PoolStats, no_target, at_capacity,
  connect_failed, Acquired, session_of, failed_with, Request, Strings,
}

-- `if text:` for an optional text.
unfoldable pub is_given : Option String → Bool
is_given none = false
is_given (some t) = not (str_eq t "")

-- `text or ""`
unfoldable pub or_blank : Option String → String
or_blank none = ""
or_blank (some t) = t

unfoldable pub make_key : Strings → Request → String
unfolding is_given or_blank
make_key str r =
    str.user_at r.username
      (str.strip (if is_given r.identifier then or_blank r.identifier else or_blank r.ip))

unfoldable pub resolve_method : Strings → Bool → Request → Option Method
unfolding is_given or_blank
resolve_method str prefer_nat r =
    let m = str.lower (str.strip (or_blank r.connection_method)) in
    if str_eq m "direct"
    then some direct
    else if str_eq m "nat"
    then some nat
    else if is_given r.identifier && prefer_nat
    then some nat
    else if is_given r.ip
    then some direct
    else if is_given r.identifier
    then some nat
    else none

-- Sessions that count against the capacity: those that have not failed.
abbrev pub is_live : PoolEntry → Bool
is_live e = not e.failed

unfoldable pub active_count : ConnectionPool → ℕ
active_count p = count_if is_live (values p.sessions)

-- `entry and not entry.in_use and not entry.failed`
abbrev pub is_idle : PoolEntry → Bool
is_idle e = not e.in_use && not e.failed

-- `self._max_active and self._active_count() >= self._max_active`
abbrev pub is_full : ConnectionPool → Bool
is_full p = not (p.max_active == 0) && leb p.max_active (active_count p)

unfoldable pub close_entry : PoolEntry → ConnectionPool → ConnectionPool
close_entry e p = record p { closed = e.session ∷ p.closed }

-- The outcome of the first locked block of `acquire`.
pub data Lookup : Type 0 where
  reuse : ℕ → Lookup
  full : Lookup
  create : Lookup

unfoldable pub take_or_create : ConnectionPool → Lookup × ConnectionPool
take_or_create p = if is_full p then (full, p) else (create, p)

-- `entry.in_use = True; entry.metrics.last_seen = time.monotonic()`
abbrev pub leased : ℕ → PoolEntry → PoolEntry
leased now e = record e { in_use = true; metrics = record e.metrics { last_seen = now } }

unfoldable pub reuse_entry : ℕ → String → PoolEntry → ConnectionPool → Lookup × ConnectionPool
reuse_entry now key e p =
    if is_idle e
    then (reuse e.session, record p { sessions = put key (leased now e) p.sessions })
    else take_or_create p

unfoldable pub acquire_begin : ℕ → String → ConnectionPool → Lookup × ConnectionPool
unfolding reuse_entry
acquire_begin now key p = elim (get key p.sessions) [
  | none ↦ take_or_create p
  | some e ↦ reuse_entry now key e p
]

unfoldable pub new_entry : String → Connected → PoolEntry
new_entry key s = record {
  key = key;
  session = s.session;
  metrics = record {
    target = s.target;
    connection_method = s.connection_method;
    handshake_ms = elim s.handshake_duration_ms [ none ↦ 0 | some ms ↦ ms ];
    connected_at = s.now;
    last_seen = s.now;
    keepalive_count = 0;
    keepalive_failures = 0;
    reconnect_count = 0;
  };
  in_use = true;
  failed = false;
}

unfoldable pub close_old : Option PoolEntry → ConnectionPool → ConnectionPool
unfolding close_entry
close_old none p = p
close_old (some e) p = close_entry e p

-- The second locked block of `acquire`, after the connection.
unfoldable pub acquire_install : String → Connected → ConnectionPool → ConnectionPool
unfolding close_old new_entry
acquire_install key s p =
    let q = close_old (get key p.sessions) p in
    record q {
      sessions = put key (new_entry key s) q.sessions;
      total_connects = q.total_connects + 1;
      created = s.session ∷ q.created;
    }

-- `_create_session` between the two blocks: `none` is an exception of `client.connect`.
unfoldable pub connected : String → Option Connected → ConnectionPool → Acquired × ConnectionPool
connected key none p =
    (failed_with connect_failed, record p { total_failures = p.total_failures + 1 })
connected key (some s) p = (session_of s.session, acquire_install key s p)

unfoldable pub after_begin :
    String → Option Connected → Lookup × ConnectionPool → Acquired × ConnectionPool
unfolding connected
after_begin key outcome (reuse s, p) = (session_of s, p)
after_begin key outcome (full, p) = (failed_with at_capacity, p)
after_begin key outcome (create, p) = connected key outcome p

-- `acquire` with no other thread between its two blocks. `connect` is what a connection by a
-- method gives.
unfoldable pub acquire :
    Strings → Request → ℕ → (Method → Option Connected) → ConnectionPool → Acquired × ConnectionPool
unfolding after_begin
acquire str r now connect p = elim (resolve_method str p.prefer_nat r) [
  | none ↦ (failed_with no_target, p)
  | some m ↦ after_begin (make_key str r) (connect m) (acquire_begin now (make_key str r) p)
]

unfoldable pub release_in : ℕ → ℕ → Dict PoolEntry → Dict PoolEntry
release_in now s [] = []
release_in now s ((k, e) ∷ d) =
    let rest = release_in now s d in
    if e.session == s
    then (k, record e { in_use = false; metrics = record e.metrics { last_seen = now } }) ∷ d
    else (k, e) ∷ rest

unfoldable pub release : ℕ → ℕ → ConnectionPool → ConnectionPool
unfolding release_in
release now s p = record p { sessions = release_in now s p.sessions }

-- The key of the first entry with this session.
unfoldable pub key_of : ℕ → Dict PoolEntry → Option String
key_of s [] = none
key_of s ((k, e) ∷ d) = let rest = key_of s d in if e.session == s then some k else rest

-- `self._sessions.pop(key)` and `_close_entry`.
unfoldable pub pop_entry : String → ConnectionPool → ConnectionPool
unfolding close_entry
pop_entry key p = elim (get key p.sessions) [
  | none ↦ p
  | some e ↦ close_entry e (record p { sessions = erase key p.sessions })
]

-- A key is a non-empty text, so that `if to_remove:` tests for `None`.
unfoldable pub remove : ℕ → ConnectionPool → ConnectionPool
unfolding key_of
remove s p = elim (key_of s p.sessions) [ none ↦ p | some k ↦ pop_entry k p ]

pub stats : ConnectionPool → PoolStats
stats p = record {
  active_sessions = count_if (λ e. e.in_use) (values p.sessions);
  idle_sessions = count_if is_idle (values p.sessions);
  total_connects = p.total_connects;
  total_failures = p.total_failures;
  total_reconnects = p.total_reconnects;
}

unfoldable pub close_all : List PoolEntry → ConnectionPool → ConnectionPool
unfolding close_entry
close_all [] p = p
close_all (e ∷ es) p = close_all es (close_entry e p)

unfoldable pub close : ConnectionPool → ConnectionPool
unfolding close_all
close p = let q = close_all (values p.sessions) p in record q { sessions = [] }
