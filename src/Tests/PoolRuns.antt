-- ===== src/Tests/PoolRuns.antt =====
-- The pool at concrete inputs: one recorder's session, and a pool with one free place.
use mathlib.Core.List.{Perm}
use pytvt.Prelude.{
  ◌==◌, if◌then◌else◌, ℕ, String, ◌≡◌, ◌≢◌, refl, true, false, Option, none, some, [], ◌∷◌, ◌++◌,
  ◌+◌, inr, arith, count_if, eq_iff,
}
use pytvt.Prelude.Dict.{get}
use pytvt.Pool.{direct, Method, Connected, PoolEntry, ConnectionPool, Request, Strings, session_of}
use pytvt.Pool.Operations.{
  create, make_key, resolve_method, is_given, or_blank, active_count, acquire, acquire_begin,
  acquire_install, new_entry, release, key_of, close,
}
use pytvt.Pool.Steps.{new_pool, here, next, install, shut, give_back}
use pytvt.Pool.Conserved.{session_ids, pool_conserves}
use pytvt.Pool.Capacity.{IsWithin, acquire-IsWithin, acquire_overcommits}
use pytvt.Pool.Lease.{IsLeased, acquire_closes_leased, acquire-release}

-- The text methods on texts that need no change.
abbrev texts : Strings
texts = record { strip = λ t. t; lower = λ t. t; user_at = λ u t. t }

abbrev request : Request
request = record {
  ip = some "10.0.0.9";
  identifier = none;
  username = "admin";
  connection_method = none;
}

abbrev link : ℕ → Connected
link n = record {
  session = n;
  target = "10.0.0.9";
  connection_method = direct;
  handshake_duration_ms = some 12;
  now = 5;
}

abbrev opened : ℕ → Method → Option Connected
opened n m = some (link n)

abbrev entry : PoolEntry
entry = record {
  key = "10.0.0.9";
  session = 7;
  metrics = record {
    target = "10.0.0.9";
    connection_method = direct;
    handshake_ms = 12;
    connected_at = 5;
    last_seen = 5;
    keepalive_count = 0;
    keepalive_failures = 0;
    reconnect_count = 0;
  };
  in_use = true;
  failed = false;
}

abbrev pool : ConnectionPool
pool = record (new_pool 2 300 3 true) {
  sessions = ("10.0.0.9", entry) ∷ [];
  total_connects = 1;
  created = 7 ∷ [];
}

abbrev fresh : ConnectionPool
fresh = new_pool 2 300 3 true

-- Two threads open two devices, the first gives its session back, and the pool is closed.
abbrev after_two : ConnectionPool
after_two = close (release 9 7 (acquire_install "b" (link 8) (acquire_install "a" (link 7) fresh)))

pool_conserves_example : Perm (session_ids after_two.sessions ++ after_two.closed) after_two.created
pool_conserves_example = pool_conserves 2 300 3 true after_two (
    next
      (next
        (next (next here (install "a" (link 7) fresh))
          (install "b" (link 8) (acquire_install "a" (link 7) fresh)))
        (give_back 9 7 (acquire_install "b" (link 8) (acquire_install "a" (link 7) fresh))))
      (shut (release 9 7 (acquire_install "b" (link 8) (acquire_install "a" (link 7) fresh)))))

acquire-IsWithin_example : IsWithin (acquire texts request 6 (opened 8) pool).1
unfolding active_count count_if
acquire-IsWithin_example = acquire-IsWithin texts request 6 (opened 8) pool (inr (omega arith))

abbrev door : String
door = "a"

abbrev gate : String
gate = "b"

door_is_not_gate : door ≢ gate
door_is_not_gate e = ground (arith, eq_iff door gate)

acquire_overcommits_example :
    (acquire_begin 6 "a" pool ≡ (create, pool))
    × (acquire_begin 7 "b" pool ≡ (create, pool))
    × (active_count (acquire_install "b" (link 9) (acquire_install "a" (link 8) pool))
        ≡ pool.max_active + 1)
unfolding active_count get count_if
acquire_overcommits_example =
    acquire_overcommits pool 6 7 "a" "b" (link 8) (link 9) (omega arith) refl refl door_is_not_gate

acquire_closes_leased_example :
    (acquire_begin 6 "10.0.0.9" pool ≡ (create, pool))
    × ((acquire_install "10.0.0.9" (link 8) pool).closed ≡ 7 ∷ [])
    × (get "10.0.0.9" (acquire_install "10.0.0.9" (link 8) pool).sessions
        ≡ some (new_entry "10.0.0.9" (link 8)))
unfolding get active_count count_if
acquire_closes_leased_example =
    acquire_closes_leased "10.0.0.9" 6 (link 8) entry pool refl refl refl

acquire-release_example :
    ((acquire texts request 8 (opened 9) (release 6 7 pool)).0 ≡ session_of 7)
    × ((acquire texts request 8 (opened 9) (release 6 7 pool)).1.total_connects ≡ 1)
    × ((acquire texts request 8 (opened 9) (release 6 7 pool)).1.closed ≡ [])
    × IsLeased 8 7
        (get "10.0.0.9" (acquire texts request 8 (opened 9) (release 6 7 pool)).1.sessions)
unfolding make_key resolve_method is_given or_blank get key_of release
acquire-release_example =
    acquire-release texts request direct 6 8 7 (opened 9) entry pool refl refl refl refl refl

abbrev clock : ℕ → ℕ
clock i = i + 10

-- The first attempt fails, the second gives session 9.
abbrev second_try : ℕ → Method → Option Connected
second_try i m = if i == 1 then none else some (link 9)
