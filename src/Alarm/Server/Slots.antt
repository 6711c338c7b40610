-- ===== src/Alarm/Server/Slots.antt =====
-- The limits of the listener: its connections, and the bytes of one of them.
use mathlib.Core.List.{Perm, perm_middle}
use mathlib.Core.List.Perm
use mathlib.Core.Option.{some-injective}
use mathlib.Core.Path.{subst}
use pytvt.Prelude.{
  ℕ, zero, suc, ◌+◌, ◌≤◌, ◌≡◌, ap, Bool, inl, inr, Option, some, List, [], ◌∷◌, ◌++◌, ltb, ◌==◌,
  length, length-append, Bool-cases, All, arith,
}
use pytvt.Prelude.Bytes.{Bytes}
use pytvt.Alarm.Server.{
  max_conn_bytes, Received, chunk, timed_out, failed, read_chunks, AlarmServer, new_server, serve,
  finish, connect, ended, Serves, idle, later,
}

-- Every slot is free or a thread's, and every connection that was accepted is a thread's or closed.
record Balanced (n : ℕ) (s : AlarmServer) : Type 0 where
  slots : s.slots + length s.threads ≡ n
  kept : Perm (s.threads ++ s.closed) s.accepted

Balanced-closed :
    (n conn : ℕ) (s : AlarmServer)
    → Balanced n s
    → Balanced n (record s { accepted = conn ∷ s.accepted; closed = conn ∷ s.closed })
Balanced-closed n conn s h = record {
  slots = h.slots;
  kept = Perm.trans (perm_middle s.threads s.closed) (Perm.cons conn h.kept);
}

serve-Balanced :
    (n conn : ℕ) (starts : Bool) (s : AlarmServer)
    → Balanced n s
    → Balanced n (serve conn starts s).1
unfolding serve
serve-Balanced n conn starts s h = elim (Bool-cases (s.slots == 0)) [
  | inl a ↦ simp a (Balanced-closed n conn s h)
  | inr a ↦ elim (Bool-cases starts) [
    | inl b ↦
        simp (a, b) (record { slots = ground (arith, h.slots, a); kept = Perm.cons conn h.kept })
    | inr b ↦ simp (a, b) (Balanced-closed n conn s h)
  ]
]

finish-Balanced :
    (n conn : ℕ) (before after : List ℕ) (s : AlarmServer)
    → s.threads ≡ before ++ conn ∷ after
    → Balanced n s
    → Balanced n (finish conn (before ++ after) s)
unfolding finish
finish-Balanced n conn before after s e h = record {
  slots = omega (
    arith,
    h.slots,
    ap (λ l. length l) e,
    length-append before (conn ∷ after),
    length-append before after,
  );
  kept = Perm.trans (perm_middle (before ++ after) s.closed) (
      Perm.trans (Perm.append_right s.closed (Perm.symm (perm_middle before after)))
        (subst (λ l. Perm (l ++ s.closed) s.accepted) e h.kept));
}

Serves-Balanced : (n : ℕ) (s t : AlarmServer) → Balanced n s → Serves s t → Balanced n t
Serves-Balanced n s t h idle = h
Serves-Balanced n s t h (later {t = u} r (connect conn starts _)) =
    serve-Balanced n conn starts u (Serves-Balanced n s u h r)
Serves-Balanced n s t h (later {t = u} r (ended conn before after _ e)) =
    finish-Balanced n conn before after u e (Serves-Balanced n s u h r)

new_server-Balanced : (n : ℕ) (s : AlarmServer) → new_server n ≡ some s → Balanced n s
unfolding new_server
new_server-Balanced zero s e = absurd (cc e)
new_server-Balanced (suc n) s e =
    subst (Balanced (suc n)) (some-injective _ _ e)
      (record { slots = omega arith; kept = Perm.nil })

-- However connections come and end, the free slots and the running threads of a server are together
-- its `max_connections`, and the connections of the running threads and the closed ones are together
-- the accepted ones, each as often.
pub server_conserves :
    (max_connections : ℕ) (s t : AlarmServer)
    → new_server max_connections ≡ some s
    → Serves s t
    → (t.slots + length t.threads ≡ max_connections) × Perm (t.threads ++ t.closed) t.accepted
server_conserves n s t e r =
    let h = Serves-Balanced n s t (new_server-Balanced n s e) r in (h.slots, h.kept)

abbrev pub IsShort : Received → Type 0
IsShort (chunk bs) = length bs ≤ 4096
IsShort timed_out = Unit
IsShort failed = Unit

bounded :
    {got read : Bytes}
    → Path (Option Bytes) (some got) (some read)
    → length got ≤ max_conn_bytes + 4095
    → length read ≤ max_conn_bytes + 4095
bounded e l = subst (λ r. length r ≤ max_conn_bytes + 4095) (some-injective _ _ e) l

read_chunks-bound :
    (got : Bytes) (answers : List Received) (read : Bytes)
    → All IsShort answers
    → length got ≤ max_conn_bytes + 4095
    → read_chunks got answers ≡ some read
    → length read ≤ max_conn_bytes + 4095
unfolding read_chunks
read_chunks-bound got [] read h l e = bounded e l
read_chunks-bound got (timed_out ∷ more) read h l e = bounded e l
read_chunks-bound got (failed ∷ more) read h l e =
    elim (Bool-cases (ltb (length got) max_conn_bytes)) [
      | inl a ↦ absurd (cc (simp a at e))
      | inr a ↦ bounded (simp a at e) l
    ]
read_chunks-bound got (chunk [] ∷ more) read h l e = bounded e l
read_chunks-bound got (chunk (b ∷ bs) ∷ more) read h l e =
    elim (Bool-cases (ltb (length got) max_conn_bytes)) [
      | inl a ↦
          read_chunks-bound (got ++ b ∷ bs) more read h.1
            (ground (arith, length-append got (b ∷ bs), h.0, a)) (simp a at e)
      | inr a ↦ bounded (simp a at e) l
    ]

-- The bytes that a connection is read for are at most 266239, the limit of four frames and all but
-- one byte of one more chunk, provided that no answer has more than 4096 bytes.
pub read_chunks_bounded :
    (answers : List Received) (read : Bytes)
    → All IsShort answers
    → read_chunks [] answers ≡ some read
    → length read ≤ max_conn_bytes + 4095
read_chunks_bounded answers read h e = read_chunks-bound [] answers read h (omega arith) e
