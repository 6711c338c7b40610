-- ===== src/Pool/Lease.antt =====
-- Who holds a session: what `acquire` hands out again, what `release` makes available, what a second
-- `acquire` of a leased entry closes, and when probes mark an entry failed.
use pytvt.Prelude.{
  ℕ, String, ◌≡◌, refl, ap, true, false, Option, none, some, [], ◌∷◌, arith, inl, inr, eq_iff, ◌==◌,
  Bool-cases,
}
use text.Mathlib.TextPositions.{eq_refl}
use pytvt.Prelude.Dict.{Dict, get, get-put}
use pytvt.Pool.{Method, Connected, PoolEntry, ConnectionPool, Request, Strings, session_of}
use pytvt.Pool.Operations.{
  create, is_idle, is_full, acquire_begin, take_or_create, reuse_entry, acquire_install, new_entry,
  close_old, after_begin, leased, acquire, resolve_method, make_key, release, release_in, key_of,
}

-- A second `acquire` of a key whose session is leased, with room left: it connects anew, closes the
-- session that its holder still uses, and puts its own in its place.
pub acquire_closes_leased :
    (key : String) (now : ℕ) (s : Connected) (old : PoolEntry) (p : ConnectionPool)
    → get key p.sessions ≡ some old
    → old.in_use ≡ true
    → is_full p ≡ false
    → (acquire_begin now key p ≡ (create, p))
      × ((acquire_install key s p).closed ≡ old.session ∷ p.closed)
      × (get key (acquire_install key s p).sessions ≡ some (new_entry key s))
unfolding acquire_begin reuse_entry take_or_create acquire_install close_old
acquire_closes_leased key now s old p e u f =
    let i : is_idle old ≡ false = ground arith in
    (
      rw (e, acquire_begin) (rw (i, reuse_entry) (rw (f, take_or_create) refl)),
      rw (e, acquire_install) refl,
      rw (e, acquire_install) (rw (get-put key key (new_entry key s) p.sessions) (simp eq_refl)),
    )

-- An entry in use, of the session `s`, that was last seen at `now`.
abbrev pub IsLeased : ℕ → ℕ → Option PoolEntry → Type 0
IsLeased now s none = ⊥
IsLeased now s (some e) =
    (e.in_use ≡ true) × (e.session ≡ s) × (e.failed ≡ false) × (e.metrics.last_seen ≡ now)

released : ℕ → PoolEntry → PoolEntry
released now e = record e { in_use = false; metrics = record e.metrics { last_seen = now } }

get-release :
    (now s : ℕ) (key : String) (e : PoolEntry) (d : Dict PoolEntry)
    → key_of s d ≡ some key
    → get key d ≡ some e
    → e.session ≡ s
    → get key (release_in now s d) ≡ some (released now e)
unfolding key_of get release_in released
get-release now s key e [] k g i = absurd (ground arith)
get-release now s key e ((j, x) ∷ d) k g i = elim (Bool-cases (x.session == s)) [
  | inl q ↦ ground (arith, eq_iff j key)
  | inr q ↦ ground (arith, eq_iff j key, get-release now s key e d)
]

-- A session that was released, and has not failed, is handed out again to the next `acquire` of its
-- key: nothing is connected or closed, and its entry stands in the pool as in use, with the time of
-- the `acquire`.
pub acquire-release :
    (str : Strings) (r : Request) (m : Method) (now later s : ℕ)
    (connect : Method → Option Connected) (e : PoolEntry) (p : ConnectionPool)
    → resolve_method str p.prefer_nat r ≡ some m
    → key_of s p.sessions ≡ some (make_key str r)
    → get (make_key str r) p.sessions ≡ some e
    → e.session ≡ s
    → e.failed ≡ false
    → ((acquire str r later connect (release now s p)).0 ≡ session_of s)
      × ((acquire str r later connect (release now s p)).1.total_connects ≡ p.total_connects)
      × ((acquire str r later connect (release now s p)).1.closed ≡ p.closed)
      × IsLeased later s
          (get (make_key str r) (acquire str r later connect (release now s p)).1.sessions)
unfolding acquire release acquire_begin reuse_entry after_begin
acquire-release str r m now later s connect e p a k g i f =
    let idle : is_idle (released now e) ≡ true = unfold released in ground arith in
    rw (a, acquire)
      (rw (get-release now s (make_key str r) e p.sessions k g i, acquire_begin)
        (rw (idle, reuse_entry)
          (
            unfold released in ap session_of i,
            refl,
            refl,
            rw
                (get-put (make_key str r) (make_key str r) (leased later (released now e))
                  (release_in now s p.sessions))
                (rw (eq_refl) (unfold released in (refl, i, f, refl))),
          )))
