-- ===== src/Pool/Capacity.antt =====
-- The capacity: kept by `acquire` while no other thread runs between its blocks, and by every other
-- operation; lost when two threads are between the blocks.
use pytvt.Prelude.{
  ℕ, ◌+◌, ◌≤◌, ◌<◌, String, ◌≡◌, ◌≢◌, refl, ap, ◌∙◌, false, not, Option, none, some, arith, ◌⊎◌,
  inl, inr, eq_iff, Bool-cases, Option-cases, count_if, count_of_perm, count_of_map_eq,
}
use pytvt.Prelude.Dict.{Dict, get, put, values, get-put, put_new-perm, put_old-perm, map-put_same}
use pytvt.Pool.{Method, Connected, PoolEntry, ConnectionPool, Request, Strings}
use pytvt.Pool.Operations.{
  create, is_live, is_idle, is_full, active_count, acquire_begin, take_or_create, reuse_entry,
  acquire_install, close_old, new_entry, leased, connected, after_begin, acquire, resolve_method,
  make_key,
}

-- Unlimited, or within the limit.
abbrev pub IsWithin : ConnectionPool → Type 0
IsWithin p = (p.max_active ≡ 0) ⊎ (active_count p ≤ p.max_active)

-- An update that leaves `failed` alone leaves the count alone.
count-put_same :
    (key : String) (v old : PoolEntry) (d : Dict PoolEntry)
    → get key d ≡ some old
    → v.failed ≡ old.failed
    → count_if is_live (values (put key v d)) ≡ count_if is_live (values d)
count-put_same key v old d h e =
    count_of_map_eq is_live (values (put key v d)) (values d)
      (map-put_same is_live key v old d h (ap not e))

count-put_new :
    (key : String) (v : PoolEntry) (d : Dict PoolEntry)
    → get key d ≡ none
    → v.failed ≡ false
    → count_if is_live (values (put key v d)) ≡ count_if is_live (values d) + 1
unfolding count_if
count-put_new key v d h e = ground (arith, count_of_perm is_live (put_new-perm key v d h))

count-put_le :
    (key : String) (v old : PoolEntry) (d : Dict PoolEntry)
    → get key d ≡ some old
    → count_if is_live (values (put key v d)) ≤ count_if is_live (values d) + 1
unfolding count_if
count-put_le key v old d h = ground (arith, count_of_perm is_live (put_old-perm key v old d h))

install_count :
    (key : String) (s : Connected) (p : ConnectionPool)
    → active_count (acquire_install key s p) ≤ active_count p + 1
unfolding acquire_install active_count
install_count key s p = elim (Option-cases (get key p.sessions)) [
  | inl e ↦
      rw (e, acquire_install)
        (omega (arith, count-put_new key (new_entry key s) p.sessions e (unfold new_entry in refl)))
  | inr (old, e) ↦ rw (e, acquire_install) (count-put_le key (new_entry key s) old p.sessions e)
]

install_limit :
    (key : String) (s : Connected) (p : ConnectionPool)
    → (acquire_install key s p).max_active ≡ p.max_active
unfolding acquire_install close_old
install_limit key s p = elim (Option-cases (get key p.sessions)) [
  | inl e ↦ rw (e, close_old) refl
  | inr (old, e) ↦ rw (e, close_old) refl
]

room :
    (p : ConnectionPool) → is_full p ≡ false → (p.max_active ≡ 0) ⊎ (active_count p < p.max_active)
room p f = ground arith

connected-IsWithin :
    (key : String) (outcome : Option Connected) (p : ConnectionPool)
    → is_full p ≡ false
    → IsWithin (connected key outcome p).1
unfolding connected
connected-IsWithin key none p f = unfold active_count in omega (arith, room p f)
connected-IsWithin key (some s) p f =
    omega (arith, room p f, install_count key s p, install_limit key s p)

create-IsWithin :
    (key : String) (outcome : Option Connected) (p : ConnectionPool)
    → IsWithin p
    → IsWithin (after_begin key outcome (take_or_create p)).1
unfolding take_or_create after_begin
create-IsWithin key outcome p h = elim (Bool-cases (is_full p)) [
  | inl e ↦ rw (e, take_or_create) h
  | inr e ↦ rw (e, take_or_create) (connected-IsWithin key outcome p e)
]

reuse-IsWithin :
    (now : ℕ) (key : String) (outcome : Option Connected) (old : PoolEntry) (p : ConnectionPool)
    → get key p.sessions ≡ some old
    → IsWithin p
    → IsWithin (after_begin key outcome (reuse_entry now key old p)).1
unfolding reuse_entry after_begin active_count
reuse-IsWithin now key outcome old p e h = elim (Bool-cases (is_idle old)) [
  | inl i ↦
      rw (i, reuse_entry) (omega (arith, count-put_same key (leased now old) old p.sessions e refl))
  | inr i ↦ rw (i, reuse_entry) (create-IsWithin key outcome p h)
]

acquired-IsWithin :
    (now : ℕ) (key : String) (outcome : Option Connected) (p : ConnectionPool)
    → IsWithin p
    → IsWithin (after_begin key outcome (acquire_begin now key p)).1
unfolding acquire_begin
acquired-IsWithin now key outcome p h = elim (Option-cases (get key p.sessions)) [
  | inl e ↦ rw (e, acquire_begin) (create-IsWithin key outcome p h)
  | inr (old, e) ↦ rw (e, acquire_begin) (reuse-IsWithin now key outcome old p e h)
]

-- While no other thread runs between its two blocks, `acquire` keeps the number of live sessions
-- within the limit, on every branch.
pub acquire-IsWithin :
    (str : Strings) (r : Request) (now : ℕ) (connect : Method → Option Connected)
    (p : ConnectionPool)
    → IsWithin p
    → IsWithin (acquire str r now connect p).1
unfolding acquire
acquire-IsWithin str r now connect p h = elim (Option-cases (resolve_method str p.prefer_nat r)) [
  | inl e ↦ rw (e, acquire) h
  | inr (m, e) ↦ rw (e, acquire) (acquired-IsWithin now (make_key str r) (connect m) p h)
]

install_count_new :
    (key : String) (s : Connected) (p : ConnectionPool)
    → get key p.sessions ≡ none
    → active_count (acquire_install key s p) ≡ active_count p + 1
unfolding acquire_install active_count close_old
install_count_new key s p e =
    rw (e, acquire_install)
      (count-put_new key (new_entry key s) p.sessions e (unfold new_entry in refl))

install_elsewhere :
    (key j : String) (s : Connected) (p : ConnectionPool)
    → get key p.sessions ≡ none
    → key ≢ j
    → get j (acquire_install key s p).sessions ≡ get j p.sessions
unfolding acquire_install close_old
install_elsewhere key j s p e d =
    rw (e, acquire_install)
      (rw (get-put key j (new_entry key s) p.sessions) (ground (arith, eq_iff key j)))

-- Two threads that both pass the check of the last free place both connect: for two keys without
-- an entry, both first blocks answer `create`, and after both second blocks there is one live
-- session more than the limit.
pub acquire_overcommits :
    (p : ConnectionPool) (now later : ℕ) (k j : String) (s t : Connected)
    → p.max_active ≡ active_count p + 1
    → get k p.sessions ≡ none
    → get j p.sessions ≡ none
    → k ≢ j
    → (acquire_begin now k p ≡ (create, p))
      × (acquire_begin later j p ≡ (create, p))
      × (active_count (acquire_install j t (acquire_install k s p)) ≡ p.max_active + 1)
unfolding acquire_begin take_or_create
acquire_overcommits p now later k j s t m a b d =
    let f : is_full p ≡ false = ground arith in
    (
      rw (a, acquire_begin) (rw (f, take_or_create) refl),
      rw (b, acquire_begin) (rw (f, take_or_create) refl),
      omega (
        arith,
        install_count_new k s p a,
        install_count_new j t (acquire_install k s p) (install_elsewhere k j s p a d ∙ b),
      ),
    )
