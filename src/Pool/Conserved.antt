-- ===== src/Pool/Conserved.antt =====
-- No session is lost: each one that a connection gave is in the pool or has been closed, once.
use mathlib.Core.List.{Perm, perm_middle}
use mathlib.Core.List.Perm
use mathlib.Core.Path.{ap₂}
use pytvt.Prelude.{
  ℕ, String, ◌≡◌, refl, ap, Bool, true, false, some, List, [], ◌∷◌, ◌++◌, map, ◌==◌, ◌⊎◌,
  Bool-cases, inl, inr, Option-cases,
}
use pytvt.Prelude.Dict.{
  Dict, get, put, erase, values, put_new-perm, put_old-perm, erase-perm, map-put_same,
}
use pytvt.Pool.Steps.{
  Step, begin, install, connect_fails, give_back, take_out, answer, evict, drop_entry, count, shut,
  Reach, here, next, new_pool, probe_entry,
}
use pytvt.Pool.{Connected, PoolEntry, ConnectionPool}
use pytvt.Pool.Operations.{
  acquire_begin, take_or_create, reuse_entry, acquire_install, new_entry, close_entry, release,
  release_in, pop_entry, remove, key_of, close, close_all, is_full, is_idle,
}
use pytvt.Pool.Upkeep.{
  probed, keepalive, keepalive_in, evict_stale, stale_keys, pop_all, reconnected,
}

abbrev pub session_ids : Dict PoolEntry → List ℕ
session_ids d = map (λ (e : PoolEntry). e.session) (values d)

-- The sessions of the pool and the closed ones are the created ones, in some order.
pub record IsConserved (p : ConnectionPool) : Type 0 where
  pub conserved : Perm (session_ids p.sessions ++ p.closed) p.created

-- An operation that keeps the sessions in their places.
same_sessions :
    {p q : ConnectionPool}
    → session_ids q.sessions ≡ session_ids p.sessions
    → q.closed ≡ p.closed
    → q.created ≡ p.created
    → IsConserved p
    → IsConserved q
same_sessions e f g h = record { conserved = rw (e, f, g) h.conserved }

begin-IsConserved :
    (now : ℕ) (key : String) (p : ConnectionPool)
    → IsConserved p
    → IsConserved (acquire_begin now key p).1
unfolding acquire_begin take_or_create
begin-IsConserved now key p h = elim (Option-cases (get key p.sessions)) [
  | inl e ↦ rw (e, acquire_begin) (untouched (Bool-cases (is_full p)))
  | inr (old, e) ↦ rw (e, acquire_begin) (reused old e (Bool-cases (is_idle old)))
]
  where
    untouched : (is_full p ≡ true) ⊎ (is_full p ≡ false) → IsConserved (take_or_create p).1
    untouched (inl e) = rw e h
    untouched (inr e) = rw e h

    reused :
        (old : PoolEntry)
        → get key p.sessions ≡ some old
        → (is_idle old ≡ true) ⊎ (is_idle old ≡ false)
        → IsConserved (reuse_entry now key old p).1
    reused old e (inl i) =
        rw i (same_sessions (map-put_same (λ x. x.session) key _ old p.sessions e refl) refl refl h)
    reused old e (inr i) = rw i (untouched (Bool-cases (is_full p)))

install-IsConserved :
    (key : String) (s : Connected) (p : ConnectionPool)
    → IsConserved p
    → IsConserved (acquire_install key s p)
unfolding acquire_install
install-IsConserved key s p h = elim (Option-cases (get key p.sessions)) [
  | inl e ↦ rw e (record {
    conserved =
        Perm.trans
          (Perm.append_right p.closed (
            Perm.map (λ (x : PoolEntry). x.session)
              (put_new-perm key (new_entry key s) p.sessions e)))
          (Perm.cons s.session h.conserved);
  })
  | inr (old, e) ↦ rw e (record {
    conserved =
        Perm.trans (perm_middle (session_ids (put key (new_entry key s) p.sessions)) p.closed) (
          Perm.trans
            (Perm.append_right p.closed (
              Perm.map (λ (x : PoolEntry). x.session)
                (put_old-perm key (new_entry key s) old p.sessions e)))
            (Perm.cons s.session h.conserved));
  })
]

pop-IsConserved :
    (key : String) (p : ConnectionPool) → IsConserved p → IsConserved (pop_entry key p)
unfolding pop_entry
pop-IsConserved key p h = elim (Option-cases (get key p.sessions)) [
  | inl e ↦ rw (e, pop_entry) h
  | inr (old, e) ↦
      rw (e, pop_entry)
        (record {
          conserved = Perm.trans (perm_middle (session_ids (erase key p.sessions)) p.closed) (
              Perm.trans
                (Perm.append_right p.closed
                  (Perm.map (λ (x : PoolEntry). x.session) (erase-perm key old p.sessions e)))
                h.conserved);
        })
]

release_in_same :
    (now s : ℕ) (d : Dict PoolEntry) → session_ids (release_in now s d) ≡ session_ids d
unfolding release_in
release_in_same now s [] = refl
release_in_same now s ((k, e) ∷ d) = elim (Bool-cases (e.session == s)) [
  | inl q ↦ rw q refl
  | inr q ↦ rw q (ap (λ l. e.session ∷ l) (release_in_same now s d))
]

release-IsConserved :
    (now s : ℕ) (p : ConnectionPool) → IsConserved p → IsConserved (release now s p)
unfolding release
release-IsConserved now s p = same_sessions (release_in_same now s p.sessions) refl refl

remove-IsConserved : (s : ℕ) (p : ConnectionPool) → IsConserved p → IsConserved (remove s p)
unfolding remove
remove-IsConserved s p h = elim (Option-cases (key_of s p.sessions)) [
  | inl e ↦ rw (e, remove) h
  | inr (k, e) ↦ rw (e, remove) (pop-IsConserved k p h)
]

probed_same :
    (limit : ℕ) (ok : Bool) (now : ℕ) (e : PoolEntry) → (probed limit ok now e).session ≡ e.session
unfolding probed
probed_same limit true now e = refl
probed_same limit false now e = refl

keepalive_in_same :
    (limit : ℕ) (probe : ℕ → Bool) (now : ℕ) (d : Dict PoolEntry)
    → session_ids (keepalive_in limit probe now d) ≡ session_ids d
unfolding keepalive_in
keepalive_in_same limit probe now [] = refl
keepalive_in_same limit probe now ((k, e) ∷ d) = elim (Bool-cases (is_idle e)) [
  | inl q ↦
      rw q
        (ap₂ ◌∷◌ (probed_same limit (probe e.session) now e) (keepalive_in_same limit probe now d))
  | inr q ↦ rw q (ap (λ l. e.session ∷ l) (keepalive_in_same limit probe now d))
]

keepalive-IsConserved :
    (probe : ℕ → Bool) (now : ℕ) (p : ConnectionPool)
    → IsConserved p
    → IsConserved (keepalive probe now p).1
unfolding keepalive
keepalive-IsConserved probe now p =
    same_sessions (keepalive_in_same p.max_reconnect_attempts probe now p.sessions) refl refl

pop_all-IsConserved :
    (ks : List String) (p : ConnectionPool) → IsConserved p → IsConserved (pop_all ks p)
unfolding pop_all
pop_all-IsConserved [] p h = h
pop_all-IsConserved (k ∷ ks) p h = pop_all-IsConserved ks (pop_entry k p) (pop-IsConserved k p h)

evict-IsConserved : (now : ℕ) (p : ConnectionPool) → IsConserved p → IsConserved (evict_stale now p)
unfolding evict_stale
evict-IsConserved now p h = pop_all-IsConserved (stale_keys p.idle_timeout now p.sessions) p h

count_reconnect-IsConserved :
    (key : String) (p : ConnectionPool) → IsConserved p → IsConserved (reconnected key p)
unfolding reconnected
count_reconnect-IsConserved key p h = elim (Option-cases (get key p.sessions)) [
  | inl e ↦ rw (e, reconnected) (record { conserved = h.conserved })
  | inr (old, e) ↦
      rw (e, reconnected)
        (same_sessions (map-put_same (λ x. x.session) key _ old p.sessions e refl) refl refl h)
]

close_all_lem :
    (es : List PoolEntry) (p : ConnectionPool)
    → Perm (map (λ (e : PoolEntry). e.session) es ++ p.closed) p.created
    → Perm (close_all es p).closed (close_all es p).created
unfolding close_all
close_all_lem [] p h = h
close_all_lem (e ∷ es) p h =
    close_all_lem es (close_entry e p)
      (Perm.trans (perm_middle (map (λ (x : PoolEntry). x.session) es) p.closed) h)

close-IsConserved : (p : ConnectionPool) → IsConserved p → IsConserved (close p)
unfolding close
close-IsConserved p h = record { conserved = close_all_lem (values p.sessions) p h.conserved }

probe_entry-IsConserved :
    (key : String) (ok : Bool) (now : ℕ) (p : ConnectionPool)
    → IsConserved p
    → IsConserved (probe_entry key ok now p)
unfolding probe_entry
probe_entry-IsConserved key ok now p h = elim (Option-cases (get key p.sessions)) [
  | inl e ↦ rw (e, probe_entry) h
  | inr (old, e) ↦
      rw (e, probe_entry)
        (same_sessions
          (map-put_same (λ x. x.session) key _ old p.sessions e
            (probed_same p.max_reconnect_attempts ok now old))
          refl refl h)
]

Step-IsConserved : {p q : ConnectionPool} → Step p q → IsConserved p → IsConserved q
Step-IsConserved (begin now key p) h = begin-IsConserved now key p h
Step-IsConserved (install key s p) h = install-IsConserved key s p h
Step-IsConserved (connect_fails p) h = record { conserved = h.conserved }
Step-IsConserved (give_back now s p) h = release-IsConserved now s p h
Step-IsConserved (take_out s p) h = remove-IsConserved s p h
Step-IsConserved (answer key ok now p) h = probe_entry-IsConserved key ok now p h
Step-IsConserved (evict now p) h = evict-IsConserved now p h
Step-IsConserved (drop_entry key p) h = pop-IsConserved key p h
Step-IsConserved (count key p) h = count_reconnect-IsConserved key p h
Step-IsConserved (shut p) h = close-IsConserved p h

Reach-IsConserved : {p q : ConnectionPool} → IsConserved p → Reach p q → IsConserved q
Reach-IsConserved h here = h
Reach-IsConserved h (next r st) = Step-IsConserved st (Reach-IsConserved h r)

-- However the threads interleave their locked blocks, from a new pool: the sessions in the pool and
-- the closed ones are exactly those that connections gave, each as often.
pub pool_conserves :
    (limit timeout retries : ℕ) (prefer_nat : Bool) (p : ConnectionPool)
    → Reach (new_pool limit timeout retries prefer_nat) p
    → Perm (session_ids p.sessions ++ p.closed) p.created
pool_conserves limit timeout retries prefer_nat p r =
    (Reach-IsConserved (record { conserved = Perm.refl [] }) r).conserved
