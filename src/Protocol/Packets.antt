-- ===== src/Protocol/Packets.antt =====
-- What `_recv_packet` gives for the packets that `_make_header` begins (protocol.py).
use pytvt.Prelude.{
  ℕ, suc, ◌+◌, ◌≤◌, ◌<◌, ◌^◌, ◌≡◌, refl, ap, true, false, List, [], ◌∷◌, ◌++◌, ltb, leb, ◌==◌,
  length, arith,
}
use pytvt.Prelude.Bytes.{Bytes, take, u32_le, pack_u32_le, u32_le-pack_u32_le}
use pytvt.Protocol.{header_flag, init_flag, make_header}
use pytvt.Protocol.Socket.{
  Incoming, got, then_read, pure, Packet, no_command, command, recv_exact, recv_packet, payload_of,
  parse_command, looks_like_init, after_flag, after_header_flag, after_init_flag,
}
use pytvt.Protocol.Streams.{IsFlowing, byte_stream, Reads, recv_exact-Reads, then_read-Reads}

-- The bytes of a packet that its announced length counts.
abbrev packet_body : ℕ → ℕ → ℕ → Bytes → Bytes
packet_body cmd cmd_id cmd_ver payload =
    pack_u32_le cmd
    ++ (pack_u32_le cmd_id ++ (pack_u32_le cmd_ver ++ (pack_u32_le (length payload) ++ payload)))

take_all : (bs : Bytes) → take (length bs) bs ≡ bs
take_all [] = refl
take_all (b ∷ bs) = ap (λ l. b ∷ l) (take_all bs)

leb_of_le : (m n : ℕ) → m ≤ n → leb m n ≡ true
leb_of_le m n h = ground arith

ltb_of_lt : (m n : ℕ) → m < n → ltb m n ≡ true
ltb_of_lt m n h = ground arith

eq_zero_of_pos : (n : ℕ) → 0 < n → (n == 0) ≡ false
eq_zero_of_pos n h = ground arith

payload_of_lem :
    (cmd cmd_id cmd_ver : ℕ) (payload : Bytes)
    → length payload < 2 ^ 32
    → payload_of (packet_body cmd cmd_id cmd_ver payload) ≡ payload
unfolding pack_u32_le
payload_of_lem cmd cmd_id cmd_ver [] h = refl
payload_of_lem cmd cmd_id cmd_ver (b ∷ bs) h =
    rw (u32_le-pack_u32_le (length (b ∷ bs)) (b ∷ bs) h)
      (rw (ltb_of_lt 0 (suc (length bs)) (omega arith)) (take_all (b ∷ bs)))

length-packet_body :
    (cmd cmd_id cmd_ver : ℕ) (payload : Bytes)
    → length (packet_body cmd cmd_id cmd_ver payload) ≡ 16 + length payload
unfolding pack_u32_le
length-packet_body cmd cmd_id cmd_ver payload = omega arith

parse_command_lem :
    (short : Packet) (cmd cmd_id cmd_ver : ℕ) (payload : Bytes)
    → cmd < 2 ^ 32
    → length payload < 2 ^ 32
    → parse_command short (packet_body cmd cmd_id cmd_ver payload) ≡ (command cmd, payload)
parse_command_lem short cmd cmd_id cmd_ver payload c h =
    let body = packet_body cmd cmd_id cmd_ver payload in
    let number : u32_le body ≡ cmd = u32_le-pack_u32_le cmd _ c in
    rw (leb_of_le 16 (length body) (omega (arith, length-packet_body cmd cmd_id cmd_ver payload))) (
      rw (payload_of_lem cmd cmd_id cmd_ver payload h)
        (ap (λ (n : ℕ). (command n, payload)) number))

-- The bytes after a command's length.
read_body :
    (short : Bytes → Packet) (cmd cmd_id cmd_ver : ℕ) (payload rest : Bytes) (sock : List Incoming)
    → cmd < 2 ^ 32
    → length payload < 2 ^ 32
    → IsFlowing sock
    → byte_stream sock ≡ packet_body cmd cmd_id cmd_ver payload ++ rest
    → Reads
        (then_read
          (recv_exact (16 + length payload) sock)
          (λ body. pure (parse_command (short body) body)))
        (command cmd, payload)
        rest
read_body short cmd cmd_id cmd_ver payload rest sock c h f e =
    then_read-Reads (recv_exact (16 + length payload) sock)
      (λ body. pure (parse_command (short body) body)) (packet_body cmd cmd_id cmd_ver payload) rest
      rest (command cmd, payload)
      (recv_exact-Reads (16 + length payload) sock (packet_body cmd cmd_id cmd_ver payload) rest f e
        (length-packet_body cmd cmd_id cmd_ver payload))
      (λ sock' e' f'. (
        sock',
        ap (λ (p : Packet). got p sock')
            (parse_command_lem (short (packet_body cmd cmd_id cmd_ver payload)) cmd cmd_id cmd_ver
              payload c h),
        e',
        f',
      ))

after_header_flag-Reads :
    (cmd cmd_id cmd_ver : ℕ) (payload rest : Bytes) (sock : List Incoming)
    → cmd < 2 ^ 32
    → 16 + length payload < 2 ^ 32
    → IsFlowing sock
    → byte_stream sock ≡ packet_body cmd cmd_id cmd_ver payload ++ rest
    → Reads (after_header_flag (pack_u32_le (16 + length payload)) sock) (command cmd, payload) rest
unfolding pack_u32_le
after_header_flag-Reads cmd cmd_id cmd_ver payload rest sock c h f e =
    rw (u32_le-pack_u32_le (16 + length payload) [] h) (
      rw (eq_zero_of_pos (16 + length payload) (omega arith)) (
        read_body (λ body. (no_command, header_flag)) cmd cmd_id cmd_ver payload rest sock c
          (omega arith) f e))

-- `_recv_packet` gives a packet of the standard form back, with its command and its payload, and
-- leaves what follows it, however the bytes come in chunks, for a command and a length that fit 32
-- bits.
pub recv_packet-make_header :
    (cmd cmd_id cmd_ver : ℕ) (payload rest : Bytes) (sock : List Incoming)
    → cmd < 2 ^ 32
    → 16 + length payload < 2 ^ 32
    → IsFlowing sock
    → byte_stream sock
      ≡ make_header cmd (length payload) cmd_id cmd_ver header_flag ++ (payload ++ rest)
    → Reads (recv_packet sock) (command cmd, payload) rest
unfolding make_header pack_u32_le recv_packet
recv_packet-make_header cmd cmd_id cmd_ver payload rest sock c h f e =
    let body = packet_body cmd cmd_id cmd_ver payload ++ rest in
    let size = pack_u32_le (16 + length payload) in
    then_read-Reads (recv_exact 4 sock) after_flag header_flag (size ++ body) rest
      (command cmd, payload) (recv_exact-Reads 4 sock header_flag (size ++ body) f e refl)
      (λ sock' e' f'.
        then_read-Reads (recv_exact 4 sock') after_header_flag size body rest (command cmd, payload)
          (recv_exact-Reads 4 sock' size body f' e' refl)
          (λ sock'' e'' f''.
            after_header_flag-Reads cmd cmd_id cmd_ver payload rest sock'' c h f'' e''))

after_init_flag-Reads :
    (cmd cmd_id cmd_ver : ℕ) (payload rest : Bytes) (sock : List Incoming)
    → cmd < 2 ^ 32
    → 16 + length payload < 2 ^ 32
    → looks_like_init (16 + length payload) ≡ false
    → IsFlowing sock
    → byte_stream sock ≡ packet_body cmd cmd_id cmd_ver payload ++ rest
    → Reads (after_init_flag (pack_u32_le (16 + length payload)) sock) (command cmd, payload) rest
unfolding pack_u32_le
after_init_flag-Reads cmd cmd_id cmd_ver payload rest sock c h l f e =
    rw (u32_le-pack_u32_le (16 + length payload) [] h) (
      rw (l) (
        rw (eq_zero_of_pos (16 + length payload) (omega arith)) (
          read_body (λ body. (no_command, init_flag ++ (pack_u32_le (16 + length payload) ++ body)))
            cmd cmd_id cmd_ver payload rest sock c (omega arith) f e)))

-- A packet with the flag `head` comes back too, where its announced length is not one that is taken
-- for a handshake's packet.
pub recv_packet-make_header_init :
    (cmd cmd_id cmd_ver : ℕ) (payload rest : Bytes) (sock : List Incoming)
    → cmd < 2 ^ 32
    → 16 + length payload < 2 ^ 32
    → looks_like_init (16 + length payload) ≡ false
    → IsFlowing sock
    → byte_stream sock
      ≡ make_header cmd (length payload) cmd_id cmd_ver init_flag ++ (payload ++ rest)
    → Reads (recv_packet sock) (command cmd, payload) rest
unfolding make_header pack_u32_le recv_packet
recv_packet-make_header_init cmd cmd_id cmd_ver payload rest sock c h l f e =
    let body = packet_body cmd cmd_id cmd_ver payload ++ rest in
    let size = pack_u32_le (16 + length payload) in
    then_read-Reads (recv_exact 4 sock) after_flag init_flag (size ++ body) rest
      (command cmd, payload) (recv_exact-Reads 4 sock init_flag (size ++ body) f e refl)
      (λ sock' e' f'.
        then_read-Reads (recv_exact 4 sock') after_init_flag size body rest (command cmd, payload)
          (recv_exact-Reads 4 sock' size body f' e' refl)
          (λ sock'' e'' f''.
            after_init_flag-Reads cmd cmd_id cmd_ver payload rest sock'' c h l f'' e''))

after_init_flag-init :
    (n : ℕ) (remaining rest : Bytes) (sock : List Incoming)
    → n < 2 ^ 32
    → looks_like_init n ≡ true
    → IsFlowing sock
    → byte_stream sock ≡ remaining ++ rest
    → length remaining ≡ 56
    → Reads
        (after_init_flag (pack_u32_le n) sock)
        (no_command, init_flag ++ (pack_u32_le n ++ remaining))
        rest
unfolding pack_u32_le
after_init_flag-init n remaining rest sock h l f e size = rw (u32_le-pack_u32_le n [] h) (
    rw (l) (
      then_read-Reads (recv_exact 56 sock)
        (λ bs. pure (no_command, init_flag ++ (pack_u32_le n ++ bs))) remaining rest rest
        (no_command, init_flag ++ (pack_u32_le n ++ remaining))
        (recv_exact-Reads 56 sock remaining rest f e size) (λ sock' e' f'. (sock', refl, e', f'))))

-- A command's packet with the flag `head` is taken for a handshake's packet where its announced
-- length is 16, the length of a command without a payload, or above 4096 and below 2 ^ 28: the
-- result has no command, and the forty bytes after the header are lost with it, which are those of
-- the payload and of the packets that follow.
pub head_command_misread :
    (cmd cmd_id cmd_ver : ℕ) (payload lost rest : Bytes) (sock : List Incoming)
    → 16 + length payload < 2 ^ 32
    → looks_like_init (16 + length payload) ≡ true
    → length lost ≡ 40
    → IsFlowing sock
    → byte_stream sock ≡ make_header cmd (length payload) cmd_id cmd_ver init_flag ++ (lost ++ rest)
    → Reads
        (recv_packet sock)
        (no_command, make_header cmd (length payload) cmd_id cmd_ver init_flag ++ lost)
        rest
unfolding make_header pack_u32_le recv_packet
head_command_misread cmd cmd_id cmd_ver payload lost rest sock h l size f e =
    let head =
      pack_u32_le cmd
      ++ (pack_u32_le cmd_id ++ (pack_u32_le cmd_ver ++ pack_u32_le (length payload))) in
    let n = pack_u32_le (16 + length payload) in
    let result : Packet = (no_command, init_flag ++ (n ++ (head ++ lost))) in
    then_read-Reads (recv_exact 4 sock) after_flag init_flag (n ++ (head ++ (lost ++ rest))) rest
      result (recv_exact-Reads 4 sock init_flag (n ++ (head ++ (lost ++ rest))) f e refl)
      (λ sock' e' f'.
        then_read-Reads (recv_exact 4 sock') after_init_flag n (head ++ (lost ++ rest)) rest result
          (recv_exact-Reads 4 sock' n (head ++ (lost ++ rest)) f' e' refl)
          (λ sock'' e'' f''.
            after_init_flag-init (16 + length payload) (head ++ lost) rest sock'' h l f'' e''
              (omega (arith))))
