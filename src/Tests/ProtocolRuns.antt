-- ===== src/Tests/ProtocolRuns.antt =====
-- The binary protocol's client at concrete inputs.
use Prim.Native.Nat.{bit_xor}
use pytvt.Prelude.{◌≡◌, refl, none, some, List, [], ◌∷◌, ◌++◌, length, arith}
use pytvt.Prelude.Int.{pos}
use pytvt.Prelude.Bytes.{Bytes, ascii, drop, pack_u32_le}
use pytvt.Protocol.{
  byte_at, header_flag, init_flag, make_header, zeros, parse_init, init_fields, Digests,
  encode_ascii, make_login_data, login_data, login_data_standard, padded, encrypt_password,
  xor_username, decimal, encrypt_username_head,
}
use pytvt.Protocol.Socket.{Incoming, chunk, fails, timed_out, no_command, command, recv_packet}
use pytvt.Protocol.Steps.{ScanLibraries, not_json, new_scan, login_failed, skip_acks}
use pytvt.Protocol.Scan.{gives, scan_nvr, exchange}
use pytvt.Protocol.Streams.{Reads}
use pytvt.Protocol.Packets.{recv_packet-make_header, head_command_misread}
use pytvt.Protocol.Sizes.{length-make_login_data}
use pytvt.Protocol.Ciphers.{byte_at-encrypt_password, xor_username-encrypt_username_head}
use pytvt.Protocol.Outcomes.{IsSound}
use pytvt.Protocol.Returns.{scan_nvr-IsSound}

abbrev digests : Digests
digests = record { md5_upper_hex = λ bs. bs; sha1 = λ bs. zeros 20 }

abbrev libraries : ScanLibraries
libraries = record {
  digests = digests;
  loads = λ bs. not_json;
  texts = record { stripped = λ v. ""; to_int = λ v. some (pos 0) };
}

-- A handshake's packet of the older protocol, with the key 2, 7, 8, 9.
abbrev init_packet : Bytes
init_packet =
    init_flag ++ (zeros 8 ++ (3 ∷ 0 ∷ 0 ∷ 0 ∷ [] ++ (zeros 28 ++ (2 ∷ 7 ∷ 8 ∷ 9 ∷ [] ++ zeros 16))))

abbrev reply_packet : Bytes
reply_packet = make_header 0x1000102 2 0 0 header_flag ++ 5 ∷ 6 ∷ []

recv_packet-make_header_example :
    Reads
      (recv_packet (
        chunk (49 ∷ 49 ∷ [])
        ∷ chunk (drop 2 (make_header 7 2 0 0 header_flag))
        ∷ chunk (5 ∷ 6 ∷ 8 ∷ [])
        ∷ []))
      (command 7, 5 ∷ 6 ∷ [])
      (8 ∷ [])
unfolding make_header pack_u32_le
recv_packet-make_header_example =
    recv_packet-make_header 7 0 0 (5 ∷ 6 ∷ []) (8 ∷ [])
      (chunk (49 ∷ 49 ∷ [])
        ∷ chunk (drop 2 (make_header 7 2 0 0 header_flag))
        ∷ chunk (5 ∷ 6 ∷ 8 ∷ [])
        ∷ [])
      (omega arith) (omega arith) (refl, (refl, (refl, tt))) refl

head_command_misread_example :
    Reads
      (recv_packet (chunk (make_header 0x102 0 0 0 init_flag) ∷ chunk (zeros 40 ++ 8 ∷ []) ∷ []))
      (no_command, make_header 0x102 0 0 0 init_flag ++ zeros 40)
      (8 ∷ [])
unfolding make_header pack_u32_le
head_command_misread_example =
    head_command_misread 0x102 0 0 [] (zeros 40) (8 ∷ [])
      (chunk (make_header 0x102 0 0 0 init_flag) ∷ chunk (zeros 40 ++ 8 ∷ []) ∷ []) (omega arith)
      refl refl (refl, (refl, tt)) refl

length-make_login_data_example :
    length (login_data_standard (ascii "admin") (ascii "pw") (some (init_fields init_packet))) ≡ 116
unfolding make_login_data encode_ascii parse_init login_data
length-make_login_data_example =
    length-make_login_data digests "admin" "pw" init_packet (λ bs. refl) (omega arith) refl

-- The byte 1 of the password, under the second byte of the key.
byte_at-encrypt_password_example :
    (length (encrypt_password (ascii "pw") (some (init_fields init_packet))) ≡ 32)
    × (byte_at 1 (encrypt_password (ascii "pw") (some (init_fields init_packet))) ≡ bit_xor 119 7)
byte_at-encrypt_password_example =
    byte_at-encrypt_password (init_fields init_packet) (ascii "pw") 1 refl (omega arith)

xor_username-encrypt_username_head_example :
    xor_username (decimal 591) 0 (encrypt_username_head (ascii "admin") 591)
    ≡ padded 64 (ascii "admin")
xor_username-encrypt_username_head_example =
    xor_username-encrypt_username_head (ascii "admin") 591 (omega arith)

rejecting : List Incoming
rejecting = chunk init_packet ∷ fails timed_out ∷ chunk reply_packet ∷ []

-- A recorder that refuses the password.
test_rejected :
    scan_nvr libraries "admin" "pw" none rejecting []
    ≡ gives (record new_scan { error = some login_failed })
unfolding scan_nvr exchange rejecting recv_packet skip_acks make_login_data encode_ascii parse_init
    make_header pack_u32_le
test_rejected = refl

scan_nvr-IsSound_example : IsSound (record new_scan { error = some login_failed })
scan_nvr-IsSound_example = scan_nvr-IsSound libraries "admin" "pw" none rejecting [] test_rejected
