-- ===== src/Protocol.antt =====
-- The pure-Python client of the recorder's binary protocol (protocol.py): packet headers, the
-- handshake's data, passwords and user names under XOR, and the requests that the client sends.
-- `hashlib` and `str.encode` are the standard library's: the digests are an argument, and a text
-- that is not ASCII has no encoding.
pub mod Socket
pub mod Login
pub mod Cameras
pub mod Steps
pub mod Scan
pub mod Sizes
pub mod Ciphers
pub mod Streams
pub mod Packets
pub mod Results
pub mod Returns
pub mod Endings
pub mod Outcomes
use Prim.Native.Nat.{bit_xor}
use Prim.Native.Char.{code}
use pytvt.Prelude.{
  ℕ, zero, suc, ◌+◌, ◌-◌, ◌*◌, ◌/◌, ◌%◌, String, Bool, ◌||◌, Option, none, some, List, [], ◌∷◌,
  ◌++◌, ltb, leb, ◌==◌, if◌then◌else◌, length,
}
use pytvt.Prelude.Bytes.{Bytes, ascii, take, drop, u32_le, pack_u32_le}

-- `HEADER_FLAG`, `INIT_FLAG` and `INIT_PACKET_SIZE`
abbrev pub header_flag : Bytes
header_flag = ascii "1111"

abbrev pub init_flag : Bytes
init_flag = ascii "head"

abbrev pub init_packet_size : ℕ
init_packet_size = 64

-- The command numbers.
abbrev pub cmd_request_login : ℕ
cmd_request_login = 0x101

abbrev pub cmd_request_logout : ℕ
cmd_request_logout = 0x102

abbrev pub cmd_reply_login_succ : ℕ
cmd_reply_login_succ = 0x1000101

abbrev pub cmd_reply_login_fail : ℕ
cmd_reply_login_fail = 0x1000102

abbrev pub cmd_http_request : ℕ
cmd_http_request = 0x1010D00

abbrev pub cmd_http_reply : ℕ
cmd_http_reply = 0x1010D01

abbrev pub cmd_head_login : ℕ
cmd_head_login = 0x01000004

abbrev pub cmd_head_login_succ : ℕ
cmd_head_login_succ = 0x01000104

abbrev pub cmd_head_login_fail : ℕ
cmd_head_login_fail = 0x01000204

abbrev pub protocol_ver : ℕ
protocol_ver = 3

-- `b"\x00" * n`
abbrev pub zeros : ℕ → Bytes
zeros zero = []
zeros (suc n) = 0 ∷ zeros n

-- `xs.ljust(n, b"\x00")`
abbrev pub ljust : ℕ → Bytes → Bytes
ljust n xs = xs ++ zeros (n - length xs)

-- `s.encode("ascii")`: `none` is its `UnicodeEncodeError`.
abbrev pub ascii_put : ℕ → Option Bytes → Option Bytes
ascii_put c none = none
ascii_put c (some bs) = if ltb c 128 then some (c ∷ bs) else none

unfoldable pub encode_ascii : String → Option Bytes
encode_ascii String.[] = some []
encode_ascii (String.◌∷◌ c s) = ascii_put (code c) (encode_ascii s)

-- `struct.unpack_from("<I", data, n)[0]`, and `data[n]`, inside the data.
abbrev pub u32_at : ℕ → Bytes → ℕ
u32_at n bs = u32_le (drop n bs)

abbrev pub head_or_zero : Bytes → ℕ
head_or_zero [] = 0
head_or_zero (b ∷ bs) = b

abbrev pub byte_at : ℕ → Bytes → ℕ
byte_at n bs = head_or_zero (drop n bs)

-- `data[from : from + n]`
abbrev pub slice : ℕ → ℕ → Bytes → Bytes
slice from n bs = take n (drop from bs)

-- `_make_header`; `struct.pack("<I", n)` refuses what does not fit 32 bits, which the four values
-- of the callers do.
unfoldable pub make_header : ℕ → ℕ → ℕ → ℕ → Bytes → Bytes
make_header cmd data_len cmd_id cmd_ver flag =
    flag
    ++ (pack_u32_le (16 + data_len)
        ++ (pack_u32_le cmd
            ++ (pack_u32_le cmd_id ++ (pack_u32_le cmd_ver ++ pack_u32_le data_len))))

-- `f"{b:02X}"`
abbrev pub hex_digit : ℕ → ℕ
hex_digit n = if ltb n 10 then 48 + n else 55 + n

abbrev pub hex_byte : ℕ → Bytes
hex_byte b = hex_digit (b / 16) ∷ hex_digit (b % 16) ∷ []

-- `":".join(f"{b:02X}" for b in bs)`
abbrev pub mac_text : Bytes → Bytes
mac_text [] = []
mac_text (b ∷ []) = hex_byte b
mac_text (b ∷ c ∷ bs) = hex_byte b ++ 58 ∷ mac_text (c ∷ bs)

-- The dict that `_parse_init` gives for a whole packet.
pub record InitInfo : Type 0 where
  pub flag : Bytes
  pub dev_type : ℕ
  pub protocol_version : ℕ
  pub encrypt_type : ℕ
  pub encrypt_param : ℕ
  pub mac : Bytes
  pub login_encrypt : ℕ
  pub login_nonce : Bytes
  pub xor_key_4 : Bytes
  pub nonce_int : ℕ

abbrev pub init_fields : Bytes → InitInfo
init_fields bs = record {
  flag = take 4 bs;
  dev_type = u32_at 4 bs;
  protocol_version = u32_at 12 bs;
  encrypt_type = u32_at 24 bs;
  encrypt_param = u32_at 28 bs;
  mac = mac_text (slice 32 6 bs);
  login_encrypt = byte_at 44 bs;
  login_nonce = slice 45 3 bs;
  xor_key_4 = slice 44 4 bs;
  nonce_int = byte_at 45 bs + 256 * byte_at 46 bs + 65536 * byte_at 47 bs;
}

-- `_parse_init`; `none` is the empty dict.
unfoldable pub parse_init : Bytes → Option InitInfo
parse_init bs = if ltb (length bs) init_packet_size then none else some (init_fields bs)

-- `_is_head_variant`
abbrev pub is_head_variant : InitInfo → Bool
is_head_variant info = leb 11 info.protocol_version

-- `(key * 8)[:32]` for the key's four bytes, and in general `key * n`.
abbrev pub repeated : ℕ → Bytes → Bytes
repeated zero key = []
repeated (suc n) key = key ++ repeated n key

-- `bytes(a ^ b for a, b in zip(xs, ys))`
unfoldable pub xor_bytes : Bytes → Bytes → Bytes
xor_bytes [] ys = []
xor_bytes (x ∷ xs) [] = []
xor_bytes (x ∷ xs) (y ∷ ys) = bit_xor x y ∷ xor_bytes xs ys

-- `password.encode("ascii").ljust(32, b"\x00")[:32]`
unfoldable pub padded : ℕ → Bytes → Bytes
padded n bs = take n (ljust n bs)

abbrev pub xor_key_32 : Bytes → Bytes
xor_key_32 key = take 32 (repeated 8 key)

-- `_encrypt_password`, on the encoded password; `none` is the missing or empty `init_info`.
unfoldable pub encrypt_password : Bytes → Option InitInfo → Bytes
unfolding padded xor_bytes
encrypt_password password none = padded 32 password
encrypt_password password (some info) =
    if info.login_encrypt == 0
    then padded 32 password
    else if info.login_encrypt == 1 || info.login_encrypt == 2
    then xor_bytes (padded 32 password) (xor_key_32 info.xor_key_4)
    else padded 32 password

-- The digits of `str(n)`, on fuel: `n` itself is enough.
unfoldable pub decimal_fuel : ℕ → ℕ → Bytes → Bytes
decimal_fuel zero n more = (48 + n % 10) ∷ more
decimal_fuel (suc f) n more =
    let rest = decimal_fuel f (n / 10) ((48 + n % 10) ∷ more) in
    if ltb n 10 then (48 + n) ∷ more else rest

abbrev pub decimal : ℕ → Bytes
decimal n = decimal_fuel n n []

-- `f"{n:08d}"`
abbrev pub char_zeros : ℕ → Bytes
char_zeros zero = []
char_zeros (suc n) = 48 ∷ char_zeros n

abbrev pub decimal_08 : ℕ → Bytes
decimal_08 n = char_zeros (8 - length (decimal n)) ++ decimal n

-- `hashlib`: the upper-case hexadecimal MD5 digest, and the SHA-1 digest, which has twenty bytes.
pub record Digests : Type 0 where
  pub md5_upper_hex : Bytes → Bytes
  pub sha1 : Bytes → Bytes

-- `_encrypt_password_head`
unfoldable pub encrypt_password_head : Digests → Bytes → ℕ → Bytes
encrypt_password_head lib password nonce_int =
    lib.sha1 (lib.md5_upper_hex password ++ decimal_08 nonce_int)

-- The loop of `_encrypt_username_head`: `i` is counted from `i`, and the key is read at
-- `i % key_len`.
unfoldable pub xor_username : Bytes → ℕ → Bytes → Bytes
xor_username key i [] = []
xor_username key i (b ∷ bs) =
    (if b == 0 then 0 else bit_xor b (byte_at (i % length key) key)) ∷ xor_username key (suc i) bs

-- `_encrypt_username_head`
unfoldable pub encrypt_username_head : Bytes → ℕ → Bytes
unfolding padded xor_username
encrypt_username_head username nonce_int = xor_username (decimal nonce_int) 0 (padded 64 username)

-- `_make_login_data_head`
unfoldable pub make_login_data_head : Digests → Bytes → Bytes → ℕ → Bytes
make_login_data_head lib username password nonce_int = ljust 236 (
    pack_u32_le 3
    ++ (zeros 32
        ++ (encrypt_username_head username nonce_int
            ++ encrypt_password_head lib password nonce_int)))

-- The 116 bytes of the standard login.
unfoldable pub login_data_standard : Bytes → Bytes → Option InitInfo → Bytes
login_data_standard username password info =
    pack_u32_le 1
    ++ (padded 32 username
        ++ (encrypt_password password info
            ++ (padded 28 (ascii "NVRScanner")
                ++ (zeros 8 ++ (zeros 6 ++ (zeros 1 ++ (zeros 1 ++ pack_u32_le protocol_ver)))))))

-- `_make_login_data`, on the encoded texts.
unfoldable pub login_data : Digests → Bytes → Bytes → Option InitInfo → Bytes
login_data lib username password none = login_data_standard username password none
login_data lib username password (some info) =
    if is_head_variant info
    then make_login_data_head lib username password info.nonce_int
    else login_data_standard username password (some info)

abbrev pub login_data_both : Digests → Option Bytes → Option Bytes → Option InitInfo → Option Bytes
login_data_both lib (some username) (some password) info =
    some (login_data lib username password info)
login_data_both lib none password info = none
login_data_both lib (some username) none info = none

-- `_make_login_data`; `none` is the exception of a text that is not ASCII.
unfoldable pub make_login_data : Digests → String → String → Option InitInfo → Option Bytes
make_login_data lib username password info =
    login_data_both lib (encode_ascii username) (encode_ascii password) info

-- `_make_http_request`; the paths of the program are ASCII.
unfoldable pub http_content : String → Bytes
http_content path =
    ascii "GET "
    ++ (ascii path ++ ascii " HTTP/1.1\r\nHost: 127.0.0.1\r\nConnection: keep-alive\r\n\r\n")

unfoldable pub make_http_request : String → ℕ → Bytes
make_http_request path seq =
    pack_u32_le (length (http_content path))
    ++ (pack_u32_le seq ++ (zeros 64 ++ (http_content path ++ 0 ∷ [])))

-- `_parse_http_response_body`
unfoldable pub parse_http_response_body : Bytes → Bytes
parse_http_response_body bs = if ltb (length bs) 72 then bs else drop 72 bs
