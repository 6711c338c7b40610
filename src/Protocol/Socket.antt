-- ===== src/Protocol/Socket.antt =====
-- The reading of one packet from a socket (protocol.py). What the peer sends is a list of answers
-- of `sock.recv`; its end stands for a peer that has closed the connection.
use pytvt.Prelude.{
  ℕ, ◌-◌, Bool, true, false, ◌&&◌, ◌||◌, List, [], ◌∷◌, ◌++◌, ltb, leb, ◌==◌, if◌then◌else◌, length,
  is_empty,
}
use pytvt.Prelude.Bytes.{Bytes, take, drop, u32_le}
use pytvt.Protocol.{header_flag, init_flag, init_packet_size, u32_at, slice}

-- `socket.timeout`, `ConnectionRefusedError`, another `ConnectionError`, another `OSError`.
pub data Failure : Type 0 where
  timed_out connection_refused connection_error os_error : Failure

-- The bytes that have come, of which `recv(n)` hands out at most `n`, or an exception.
pub data Incoming : Type 0 where
  chunk : Bytes → Incoming
  fails : Failure → Incoming

-- A result with what is left to read, or an exception; a loop that runs out of fuel is `stuck`.
pub data Inbound {ℓ} (A : Type ℓ) : Type ℓ where
  got : A → List Incoming → Inbound A
  failed : Failure → List Incoming → Inbound A
  stuck : Inbound A

abbrev pub Reader {ℓ} : Type ℓ → Type ℓ
Reader A = List Incoming → Inbound A

abbrev pub then_read {ℓ κ} : {A : Type ℓ} {B : Type κ} → Inbound A → (A → Reader B) → Inbound B
then_read (got a sock) f = f a sock
then_read (failed e sock) f = failed e sock
then_read stuck f = stuck

infixl 5 ◌>>=◌
abbrev pub ◌>>=◌ {ℓ κ} : {A : Type ℓ} {B : Type κ} → Reader A → (A → Reader B) → Reader B
◌>>=◌ m f sock = then_read (m sock) f

abbrev pub pure {ℓ} : {A : Type ℓ} → A → Reader A
pure a sock = got a sock

-- The loop of `_recv_exact`, with the bytes read before. What an interrupted read had is lost.
unfoldable pub recv_from : ℕ → Bytes → Reader Bytes
recv_from n buf [] = if leb n (length buf) then got buf [] else failed connection_error []
recv_from n buf (fails e ∷ more) =
    if leb n (length buf) then got buf (fails e ∷ more) else failed e more
recv_from n buf (chunk c ∷ more) =
    let rest = recv_from n (buf ++ c) more in
    if leb n (length buf)
    then got buf (chunk c ∷ more)
    else if is_empty c
    then failed connection_error more
    else if ltb (n - length buf) (length c)
    then got (buf ++ take (n - length buf) c) (chunk (drop (n - length buf) c) ∷ more)
    else rest

-- `_recv_exact`
unfoldable pub recv_exact : ℕ → Reader Bytes
unfolding recv_from
recv_exact n sock = recv_from n [] sock

-- The first component of a packet: `None`, `-1`, or a command's number.
pub data PacketType : Type 0 where
  no_command ack : PacketType
  command : ℕ → PacketType

abbrev pub Packet : Type 0
Packet = PacketType × Bytes

-- `xs == ys` on bytes
unfoldable pub bytes_eq : Bytes → Bytes → Bool
bytes_eq [] [] = true
bytes_eq [] (y ∷ ys) = false
bytes_eq (x ∷ xs) [] = false
bytes_eq (x ∷ xs) (y ∷ ys) = let rest = bytes_eq xs ys in x == y && rest

-- `remaining[16 : 16 + data_len] if data_len > 0 else b""`
abbrev pub payload_of : Bytes → Bytes
payload_of body = if ltb 0 (u32_at 12 body) then slice 16 (u32_at 12 body) body else []

-- What a command's bytes after its length say; `short` is the result for fewer than sixteen.
abbrev pub parse_command : Packet → Bytes → Packet
parse_command short body =
    if leb 16 (length body) then (command (u32_le body), payload_of body) else short

-- The test for a handshake's packet by the number after the flag `head`.
abbrev pub looks_like_init : ℕ → Bool
looks_like_init n = leb n 0x10 || ltb 0x1000 n && ltb n 0x10000000

abbrev pub init_rest : Bytes → Reader Packet
init_rest next4 = do
  remaining ← recv_exact (init_packet_size - 8)
  pure (no_command, init_flag ++ (next4 ++ remaining))

abbrev pub head_command : Bytes → Reader Packet
head_command next4 = if u32_le next4 == 0 then pure (ack, []) else do
  remaining ← recv_exact (u32_le next4)
  pure (parse_command (no_command, init_flag ++ (next4 ++ remaining)) remaining)

abbrev pub after_init_flag : Bytes → Reader Packet
after_init_flag next4 =
    if looks_like_init (u32_le next4) then init_rest next4 else head_command next4

abbrev pub after_header_flag : Bytes → Reader Packet
after_header_flag len_buf = if u32_le len_buf == 0 then pure (ack, []) else do
  remaining ← recv_exact (u32_le len_buf)
  pure (parse_command (no_command, header_flag) remaining)

abbrev pub after_flag : Bytes → Reader Packet
after_flag flag =
    if bytes_eq flag init_flag
    then recv_exact 4 >>= after_init_flag
    else if bytes_eq flag header_flag
    then recv_exact 4 >>= after_header_flag
    else pure (no_command, flag)

-- `_recv_packet`; the time that it waits is the operating system's.
unfoldable pub recv_packet : Reader Packet
unfolding recv_exact bytes_eq
recv_packet = recv_exact 4 >>= after_flag
