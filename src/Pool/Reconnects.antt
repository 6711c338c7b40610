-- ===== src/Pool/Reconnects.antt =====
-- What a reconnection counts.
use pytvt.Prelude.{
  ℕ, zero, suc, ◌+◌, String, ◌≡◌, refl, ◌∙◌, ap, Option, none, some, arith, Option-cases, inl, inr,
  ◌⊎◌, Bool-cases,
}
use pytvt.Prelude.Dict.{get}
use pytvt.Pool.{
  Method, Connected, ConnectionPool, Acquired, AcquireError, session_of, failed_with, Request,
  Strings,
}
use pytvt.Pool.Operations.{
  Lookup, reuse, full, create, is_full, is_idle, take_or_create, reuse_entry, acquire_begin,
  close_old, acquire_install, connected, after_begin, acquire, resolve_method, make_key, pop_entry,
  close_entry,
}
use pytvt.Pool.Upkeep.{count_reconnect, reconnected, attempts, reconnect}

take-reconnects : (p : ConnectionPool) → (take_or_create p).1.total_reconnects ≡ p.total_reconnects
unfolding take_or_create
take-reconnects p = elim (Bool-cases (is_full p)) [
  | inl f ↦ rw (f, take_or_create) refl
  | inr f ↦ rw (f, take_or_create) refl
]

begin-reconnects :
    (now : ℕ) (key : String) (p : ConnectionPool)
    → (acquire_begin now key p).1.total_reconnects ≡ p.total_reconnects
unfolding acquire_begin reuse_entry
begin-reconnects now key p = elim (Option-cases (get key p.sessions)) [
  | inl e ↦ rw (e, acquire_begin) (take-reconnects p)
  | inr (x, e) ↦ elim (Bool-cases (is_idle x)) [
    | inl i ↦ rw (e, acquire_begin) (rw (i, reuse_entry) refl)
    | inr i ↦ rw (e, acquire_begin) (rw (i, reuse_entry) (take-reconnects p))
  ]
]

install-reconnects :
    (key : String) (s : Connected) (p : ConnectionPool)
    → (acquire_install key s p).total_reconnects ≡ p.total_reconnects
unfolding acquire_install close_old close_entry
install-reconnects key s p = elim (Option-cases (get key p.sessions)) [
  | inl e ↦ rw (e, acquire_install) refl
  | inr (x, e) ↦ rw (e, acquire_install) refl
]

after_begin-reconnects :
    (key : String) (outcome : Option Connected) (l : Lookup) (p : ConnectionPool)
    → (after_begin key outcome (l, p)).1.total_reconnects ≡ p.total_reconnects
unfolding after_begin connected
after_begin-reconnects key outcome (reuse s) p = refl
after_begin-reconnects key outcome full p = refl
after_begin-reconnects key none create p = refl
after_begin-reconnects key (some s) create p = install-reconnects key s p

acquire-reconnects :
    (str : Strings) (r : Request) (now : ℕ) (connect : Method → Option Connected)
    (p : ConnectionPool)
    → (acquire str r now connect p).1.total_reconnects ≡ p.total_reconnects
unfolding acquire
acquire-reconnects str r now connect p = elim (Option-cases (resolve_method str p.prefer_nat r)) [
  | inl e ↦ rw (e, acquire) refl
  | inr (m, e) ↦
      rw (e, acquire)
        (after_begin-reconnects (make_key str r) (connect m)
            (acquire_begin now (make_key str r) p).0 (acquire_begin now (make_key str r) p).1
          ∙ begin-reconnects now (make_key str r) p)
]

-- One for a reconnection that gave a session.
abbrev pub gained : Option ℕ → ℕ
gained none = 0
gained (some s) = 1

reconnected-total :
    (key : String) (p : ConnectionPool)
    → (reconnected key p).total_reconnects ≡ p.total_reconnects + 1
unfolding reconnected count_reconnect
reconnected-total key p = elim (Option-cases (get key p.sessions)) [
  | inl e ↦ rw (e, reconnected) refl
  | inr (x, e) ↦ rw (e, reconnected) refl
]

Acquired-cases :
    (o : Acquired) → ((s : ℕ) × (o ≡ session_of s)) ⊎ ((x : AcquireError) × (o ≡ failed_with x))
Acquired-cases (session_of s) = inl (s, refl)
Acquired-cases (failed_with x) = inr (x, refl)

module _ (str : Strings) (r : Request) (key : String) (now : ℕ → ℕ)
    (connect : ℕ → Method → Option Connected) where
  attempts-total :
      (left i : ℕ) (p : ConnectionPool)
      → (attempts str r key now connect left i p).1.total_reconnects
        ≡ p.total_reconnects + gained (attempts str r key now connect left i p).0
  unfolding attempts
  attempts-total zero i p = omega arith
  attempts-total (suc left) i p =
      let q = (acquire str r (now i) (connect i) p).1 in
      let kept = acquire-reconnects str r (now i) (connect i) p in
      elim (Acquired-cases (acquire str r (now i) (connect i) p).0) [
        | inl (s, e) ↦ rw (e, attempts) (reconnected-total key q ∙ ap (λ n. n + 1) kept)
        | inr (x, e) ↦
            rw (e, attempts)
              (attempts-total left (i + 1) q
                ∙ ap (λ n. n + gained (attempts str r key now connect left (i + 1) q).0) kept)
      ]

pop-reconnects :
    (key : String) (p : ConnectionPool) → (pop_entry key p).total_reconnects ≡ p.total_reconnects
unfolding pop_entry close_entry
pop-reconnects key p = elim (Option-cases (get key p.sessions)) [
  | inl e ↦ rw (e, pop_entry) refl
  | inr (x, e) ↦ rw (e, pop_entry) refl
]

-- `reconnect` adds one to `total_reconnects` if it returns a session, and nothing if it returns
-- `None`, whatever its attempts meet.
pub reconnect-total :
    (str : Strings) (r : Request) (key : String) (now : ℕ → ℕ)
    (connect : ℕ → Method → Option Connected) (p : ConnectionPool)
    → (reconnect str r key now connect p).1.total_reconnects
      ≡ p.total_reconnects + gained (reconnect str r key now connect p).0
unfolding reconnect
reconnect-total str r key now connect p =
    attempts-total str r key now connect p.max_reconnect_attempts 1 (pop_entry key p)
    ∙ ap
        (λ n.
          n
          + gained (attempts str r key now connect p.max_reconnect_attempts 1 (pop_entry key p)).0)
        (pop-reconnects key p)
