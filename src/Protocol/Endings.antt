-- ===== src/Protocol/Endings.antt =====
-- That the loops of the binary protocol's client end: a read leaves less to read, and a scan never
-- runs out of the rounds that its loops are given.
use pytvt.Prelude.{
  ℕ, zero, suc, ◌-◌, ◌≤◌, ◌<◌, ◌≡◌, Bool, true, false, List, [], ◌∷◌, ◌++◌, ltb, leb, if◌then◌else◌,
  length, is_empty, arith, Bool-cases, inl, inr, ◌==◌,
}
use pytvt.Prelude.Bytes.{Bytes, take, drop, length-drop, u32_le}
use pytvt.Protocol.{init_flag, header_flag}
use pytvt.Protocol.Socket.{
  Incoming, chunk, fails, timed_out, connection_refused, connection_error, os_error, Inbound,
  then_read, got, failed, stuck, Reader, recv_from, recv_exact, recv_packet, Packet, no_command,
  ack, command, bytes_eq, after_flag, after_header_flag, after_init_flag, init_rest, head_command,
  looks_like_init, pure,
}
use pytvt.Protocol.Steps.{weight, skip_acks, past_ack, full_reply, or_on, is_whole}

-- A result that is not `stuck`, with at most `w` left to read.
abbrev pub Leaves {ℓ} : {A : Type ℓ} → ℕ → Inbound A → Type 0
Leaves w (got a sock) = weight sock ≤ w
Leaves w (failed e sock) = weight sock ≤ w
Leaves w stuck = ⊥

abbrev pub Steady {ℓ} : {A : Type ℓ} → Reader A → Type 0
Steady m = (sock : List Incoming) → Leaves (weight sock) (m sock)

-- The same, with less left where there is a result.
abbrev pub Consumes {ℓ} : {A : Type ℓ} → ℕ → Inbound A → Type 0
Consumes w (got a sock) = weight sock < w
Consumes w (failed e sock) = weight sock ≤ w
Consumes w stuck = ⊥

Leaves-le {ℓ} : {A : Type ℓ} (r : Inbound A) (w v : ℕ) → w ≤ v → Leaves w r → Leaves v r
Leaves-le (got a sock) w v h l = omega arith
Leaves-le (failed e sock) w v h l = omega arith
Leaves-le stuck w v h l = absurd l

Leaves-if {ℓ} :
    {A : Type ℓ} (b : Bool) (r s : Inbound A) (w : ℕ)
    → Leaves w r
    → Leaves w s
    → Leaves w (if b then r else s)
Leaves-if true r s w p q = p
Leaves-if false r s w p q = q

Consumes-of_Leaves {ℓ} : {A : Type ℓ} (r : Inbound A) (v w : ℕ) → v < w → Leaves v r → Consumes w r
Consumes-of_Leaves (got a sock) v w h l = omega arith
Consumes-of_Leaves (failed e sock) v w h l = omega arith
Consumes-of_Leaves stuck v w h l = l

Consumes-if {ℓ} :
    {A : Type ℓ} (b : Bool) (r s : Inbound A) (w : ℕ)
    → Consumes w r
    → Consumes w s
    → Consumes w (if b then r else s)
Consumes-if true r s w p q = p
Consumes-if false r s w p q = q

then_read-Leaves {ℓ κ} :
    {A : Type ℓ} {B : Type κ} (r : Inbound A) (k : A → Reader B) (w : ℕ)
    → Leaves w r
    → ((a : A) → Steady (k a))
    → Leaves w (then_read r k)
then_read-Leaves (got a sock) k w l s = Leaves-le (k a sock) (weight sock) w l (s a sock)
then_read-Leaves (failed e sock) k w l s = l
then_read-Leaves stuck k w l s = l

then_read-Consumes {ℓ κ} :
    {A : Type ℓ} {B : Type κ} (r : Inbound A) (k : A → Reader B) (w : ℕ)
    → Consumes w r
    → ((a : A) → Steady (k a))
    → Consumes w (then_read r k)
then_read-Consumes (got a sock) k w l s = Consumes-of_Leaves (k a sock) (weight sock) w l (s a sock)
then_read-Consumes (failed e sock) k w l s = l
then_read-Consumes stuck k w l s = l

recv_from-Leaves : (n : ℕ) (buf : Bytes) → Steady (recv_from n buf)
unfolding recv_from
recv_from-Leaves n buf [] = Leaves-if (leb n (length buf)) _ _ 0 (omega arith) (omega arith)
recv_from-Leaves n buf (fails e ∷ more) =
    Leaves-if (leb n (length buf)) _ _ (suc (weight more)) (omega arith) (omega arith)
recv_from-Leaves n buf (chunk c ∷ more) =
    let w = weight (chunk c ∷ more) in
    Leaves-if (leb n (length buf)) _ _ w (omega arith) (
      Leaves-if (is_empty c) _ _ w (omega arith) (
        Leaves-if (ltb (n - length buf) (length c)) _ _ w
          (omega (arith, length-drop (n - length buf) c))
          (Leaves-le (recv_from n (buf ++ c) more) (weight more) w (omega arith)
            (recv_from-Leaves n (buf ++ c) more))))

recv_exact-Leaves : (n : ℕ) → Steady (recv_exact n)
unfolding recv_exact
recv_exact-Leaves n = recv_from-Leaves n []

leb_zero : (n : ℕ) → leb (suc n) 0 ≡ false
leb_zero n = ground arith

drop_case :
    (n need : ℕ) (c : Bytes) (more : List Incoming)
    → 0 < need
    → Consumes (weight (chunk c ∷ more)) (
        if ltb need (length c)
        then got (take need c) (chunk (drop need c) ∷ more)
        else recv_from n c more)
drop_case n need c more h = elim (Bool-cases (ltb need (length c))) [
  | inl e ↦ rw (e) (ground (arith, length-drop need c))
  | inr e ↦ rw (e) (
      Consumes-of_Leaves (recv_from n c more) (weight more) (weight (chunk c ∷ more)) (omega arith)
        (recv_from-Leaves n c more))
]

recv_exact-Consumes :
    (n : ℕ) (sock : List Incoming) → Consumes (weight sock) (recv_exact (suc n) sock)
unfolding recv_exact recv_from
recv_exact-Consumes n [] = ground arith
recv_exact-Consumes n (fails e ∷ more) = ground arith
recv_exact-Consumes n (chunk c ∷ more) =
    let w = weight (chunk c ∷ more) in
    rw (leb_zero n) (
      Consumes-if (is_empty c) _ _ w (omega arith)
        (drop_case (suc n) (suc n - 0) c more (omega arith)))

Steady-read {ℓ} :
    {A : Type ℓ} (n : ℕ) (k : Bytes → Reader A)
    → ((bs : Bytes) → Steady (k bs))
    → Steady (λ sock. then_read (recv_exact n sock) k)
Steady-read n k s sock =
    then_read-Leaves (recv_exact n sock) k (weight sock) (recv_exact-Leaves n sock) s

Steady-if {ℓ} :
    {A : Type ℓ} (b : Bool) (m k : Reader A) → Steady m → Steady k → Steady (if b then m else k)
Steady-if true m k p q = p
Steady-if false m k p q = q

after_init_flag-Steady : (bs : Bytes) → Steady (after_init_flag bs)
after_init_flag-Steady bs =
    Steady-if (looks_like_init (u32_le bs)) (init_rest bs) (head_command bs)
      (Steady-read 56 (λ remaining. pure (no_command, init_flag ++ (bs ++ remaining)))
        (λ remaining sock. omega arith))
      (Steady-if (u32_le bs == 0) (pure (ack, [])) _ (λ sock. omega arith)
        (Steady-read (u32_le bs) _ (λ remaining sock. omega arith)))

after_header_flag-Steady : (bs : Bytes) → Steady (after_header_flag bs)
after_header_flag-Steady bs =
    Steady-if (u32_le bs == 0) (pure (ack, [])) _ (λ sock. omega arith)
      (Steady-read (u32_le bs) _ (λ remaining sock. omega arith))

after_flag-Steady : (flag : Bytes) → Steady (after_flag flag)
after_flag-Steady flag =
    Steady-if (bytes_eq flag init_flag) _ _ (Steady-read 4 after_init_flag after_init_flag-Steady) (
      Steady-if (bytes_eq flag header_flag) _ _
        (Steady-read 4 after_header_flag after_header_flag-Steady) (λ sock. omega arith))

-- A packet takes something from the socket.
pub recv_packet-Consumes : (sock : List Incoming) → Consumes (weight sock) (recv_packet sock)
unfolding recv_packet
recv_packet-Consumes sock =
    then_read-Consumes (recv_exact 4 sock) after_flag (weight sock) (recv_exact-Consumes 3 sock)
      after_flag-Steady

weaken {ℓ} : {A : Type ℓ} (r : Inbound A) (w : ℕ) → Consumes w r → Leaves w r
weaken (got a sock) w h = omega arith
weaken (failed e sock) w h = h
weaken stuck w h = h

pub recv_packet-Steady : Steady recv_packet
recv_packet-Steady sock = weaken (recv_packet sock) (weight sock) (recv_packet-Consumes sock)

past :
    (r : Inbound Packet) (again : Reader Packet) (w f : ℕ)
    → w ≤ f
    → Consumes w r
    → ((sock : List Incoming) → weight sock < f → Leaves (weight sock) (again sock))
    → Leaves w (past_ack r again)
past (got (ack, bs) sock) again w f h c s =
    Leaves-le (again sock) (weight sock) w (omega arith) (s sock (omega arith))
past (got (no_command, bs) sock) again w f h c s = omega arith
past (got (command n, bs) sock) again w f h c s = omega arith
past (failed e sock) again w f h c s = c
past stuck again w f h c s = c

go_on :
    (r : Inbound Packet) (was : Packet) (again : Reader Packet) (w : ℕ)
    → Consumes w r
    → Steady again
    → Leaves w (or_on r was again)
go_on (got p sock) was again w c s =
    Leaves-if (is_whole p) (got p sock) (again sock) w (omega arith)
      (Leaves-le (again sock) (weight sock) w (omega arith) (s sock))
go_on (failed timed_out sock) was again w c s = c
go_on (failed connection_refused sock) was again w c s = c
go_on (failed connection_error sock) was again w c s = c
go_on (failed os_error sock) was again w c s = c
go_on stuck was again w c s = c

-- The rounds that the loop over acknowledgements is given are enough.
pub skip_acks-Leaves :
    (f : ℕ) (sock : List Incoming) → weight sock < f → Leaves (weight sock) (skip_acks f sock)
unfolding skip_acks
skip_acks-Leaves zero sock h = absurd (omega arith)
skip_acks-Leaves (suc f) sock h =
    past (recv_packet sock) (skip_acks f) (weight sock) f (omega arith) (recv_packet-Consumes sock)
      (skip_acks-Leaves f)

pub full_reply-Steady : (n : ℕ) (was : Packet) → Steady (full_reply n was)
unfolding full_reply
full_reply-Steady zero was sock = omega arith
full_reply-Steady (suc n) was sock =
    go_on (recv_packet sock) was (full_reply n was) (weight sock) (recv_packet-Consumes sock)
      (full_reply-Steady n was)
