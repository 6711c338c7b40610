-- ===== src/Pool/Upkeep.antt =====
-- Keepalive probes, eviction of stale sessions and reconnection (connection_pool.py).
use pytvt.Prelude.{
  ℕ, zero, suc, ◌+◌, ◌-◌, String, Bool, true, not, ◌&&◌, Option, none, some, List, [], ◌∷◌, leb,
  ltb, if◌then◌else◌,
}
use pytvt.Prelude.Dict.{Dict, get, put}
use pytvt.Pool.{
  Method, Connected, PoolEntry, ConnectionPool, session_of, failed_with, Request, Strings,
}
use pytvt.Pool.Operations.{is_idle, acquire, pop_entry}

-- The update of an entry by a probe's answer at the time `now`.
unfoldable pub probed : ℕ → Bool → ℕ → PoolEntry → PoolEntry
probed limit healthy now e =
    if healthy
    then record e {
      metrics = record e.metrics {
        keepalive_count = e.metrics.keepalive_count + 1;
        keepalive_failures = 0;
        last_seen = now;
      };
    }
    else record e {
      metrics = record e.metrics {
        keepalive_count = e.metrics.keepalive_count + 1;
        keepalive_failures = e.metrics.keepalive_failures + 1;
      };
      failed = if leb limit (e.metrics.keepalive_failures + 1) then true else e.failed;
    }

-- `probe` tells whether a session answers, and `now` the time when its answer is recorded. The
-- targets are the idle entries; nothing else runs between the probes.
unfoldable pub keepalive_in : ℕ → (ℕ → Bool) → ℕ → Dict PoolEntry → Dict PoolEntry
unfolding probed
keepalive_in limit probe now [] = []
keepalive_in limit probe now ((k, e) ∷ d) =
    let rest = keepalive_in limit probe now d in
    if is_idle e then (k, probed limit (probe e.session) now e) ∷ rest else (k, e) ∷ rest

-- The returned dict `{key: healthy}`.
pub keepalive_results : (ℕ → Bool) → Dict PoolEntry → List (String × Bool)
keepalive_results probe [] = []
keepalive_results probe ((k, e) ∷ d) =
    let rest = keepalive_results probe d in if is_idle e then (k, probe e.session) ∷ rest else rest

unfoldable pub keepalive : (ℕ → Bool) → ℕ → ConnectionPool → List (String × Bool) × ConnectionPool
unfolding keepalive_in keepalive_results
keepalive probe now p = (
  keepalive_results probe p.sessions,
  record p { sessions = keepalive_in p.max_reconnect_attempts probe now p.sessions },
)

-- `not entry.in_use and (now - entry.metrics.last_seen) > self._idle_timeout`
abbrev pub is_stale : ℕ → ℕ → PoolEntry → Bool
is_stale timeout now e = not e.in_use && ltb timeout (now - e.metrics.last_seen)

pub stale_keys : ℕ → ℕ → Dict PoolEntry → List String
stale_keys timeout now [] = []
stale_keys timeout now ((k, e) ∷ d) =
    let rest = stale_keys timeout now d in if is_stale timeout now e then k ∷ rest else rest

unfoldable pub pop_all : List String → ConnectionPool → ConnectionPool
pop_all [] p = p
pop_all (k ∷ ks) p = pop_all ks (pop_entry k p)

unfoldable pub evict_stale : ℕ → ConnectionPool → ConnectionPool
unfolding stale_keys pop_all
evict_stale now p = pop_all (stale_keys p.idle_timeout now p.sessions) p

-- One round of the background loop.
pub keepalive_round : (ℕ → Bool) → ℕ → ℕ → ConnectionPool → ConnectionPool
keepalive_round probe now later p = evict_stale later (keepalive probe now p).1

unfoldable pub count_reconnect : Option PoolEntry → String → ConnectionPool → ConnectionPool
count_reconnect none key p = p
count_reconnect (some e) key p = record p {
  sessions =
      put key
        (record e {
          metrics = record e.metrics { reconnect_count = e.metrics.reconnect_count + 1 };
        })
        p.sessions;
}

unfoldable pub reconnected : String → ConnectionPool → ConnectionPool
unfolding count_reconnect
reconnected key p =
    let q = record p { total_reconnects = p.total_reconnects + 1 } in
    count_reconnect (get key q.sessions) key q

-- The attempts of `reconnect`. Attempt `i` runs at the time `now i` and connects as `connect i`
-- says; any exception of `acquire` leads to the next attempt.
unfoldable pub attempts :
    Strings
    → Request
    → String
    → (ℕ → ℕ)
    → (ℕ → Method → Option Connected)
    → ℕ
    → ℕ
    → ConnectionPool
    → Option ℕ × ConnectionPool
attempts str r key now connect zero i p = (none, p)
attempts str r key now connect (suc left) i p =
    let (outcome, q) = acquire str r (now i) (connect i) p in
    elim outcome [
      | session_of s ↦ (some s, reconnected key q)
      | failed_with e ↦ attempts str r key now connect left (i + 1) q
    ]

unfoldable pub reconnect :
    Strings
    → Request
    → String
    → (ℕ → ℕ)
    → (ℕ → Method → Option Connected)
    → ConnectionPool
    → Option ℕ × ConnectionPool
unfolding attempts
reconnect str r key now connect p =
    attempts str r key now connect p.max_reconnect_attempts 1 (pop_entry key p)
