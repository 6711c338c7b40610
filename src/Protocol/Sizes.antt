-- ===== src/Protocol/Sizes.antt =====
-- The lengths of the packets that the client of the binary protocol builds.
use pytvt.Prelude.{
  ℕ, zero, suc, ◌+◌, ◌-◌, ◌≤◌, ◌<◌, ◌^◌, ◌≡◌, sym, ap, refl, String, Bool, true, false, Option,
  none, some, [], ◌∷◌, ◌++◌, ltb, leb, ◌*◌, ◌/◌, ◌==◌, if◌then◌else◌, length, length-append, arith,
  Bool-cases, inl, inr, ◌||◌, ◌∙◌,
}
use pytvt.Prelude.Bytes.{
  Bytes, ascii, u32_le, take, drop, pack_u32_le, length-take, length-drop, take-append, drop-append,
  u32_le-pack_u32_le,
}
use mathlib.Core.Path.{subst}
use mathlib.Core.Option.{some-injective, none-ne-some}
use pytvt.Protocol.Login.{HeadInfo, channel_count_of, head_cameras, parse_login_response_head}
use pytvt.Protocol.{
  zeros, ljust, slice, decimal, decimal_08, parse_http_response_body, make_header, InitInfo,
  init_fields, parse_init, xor_key_32, is_head_variant, repeated, xor_bytes, padded,
  encrypt_password, Digests, xor_username, encrypt_username_head, encrypt_password_head,
  make_login_data_head, login_data_standard, login_data, login_data_both, make_login_data,
  encode_ascii, http_content, make_http_request,
}

pub length-zeros : (n : ℕ) → length (zeros n) ≡ n
length-zeros zero = refl
length-zeros (suc n) = omega (arith, length-zeros n)

pub length-pack_u32_le : (n : ℕ) → length (pack_u32_le n) ≡ 4
unfolding pack_u32_le
length-pack_u32_le n = refl

-- A header has the four bytes of its flag and twenty more.
pub length-make_header :
    (cmd n cmd_id cmd_ver : ℕ) (flag : Bytes)
    → length (make_header cmd n cmd_id cmd_ver flag) ≡ length flag + 20
unfolding make_header pack_u32_le
length-make_header cmd n cmd_id cmd_ver flag = omega (arith, length-append {0} flag)

pub length-padded : (n : ℕ) (bs : Bytes) → length (padded n bs) ≡ n
unfolding padded
length-padded n bs =
    length-take n (ljust n bs)
      (omega (arith, length-append bs (zeros (n - length bs)), length-zeros (n - length bs)))

pub length-xor_bytes :
    (xs ys : Bytes) → length xs ≤ length ys → length (xor_bytes xs ys) ≡ length xs
unfolding xor_bytes
length-xor_bytes [] ys h = refl
length-xor_bytes (x ∷ xs) [] h = absurd (omega arith)
length-xor_bytes (x ∷ xs) (y ∷ ys) h = omega (arith, length-xor_bytes xs ys)

-- A handshake's packet is read.
pub parse_init-some : (bs : Bytes) → 64 ≤ length bs → parse_init bs ≡ some (init_fields bs)
unfolding parse_init
parse_init-some bs h = elim (Bool-cases (ltb (length bs) 64)) [
  | inl e ↦ absurd (ground arith)
  | inr e ↦ rw e
]

-- The key of a handshake's packet has four bytes.
pub length-xor_key_4 : (bs : Bytes) → 64 ≤ length bs → length (slice 44 4 bs) ≡ 4
length-xor_key_4 bs h = length-take 4 (drop 44 bs) (omega (arith, length-drop 44 bs))

pub length-xor_key_32 : (key : Bytes) → length key ≡ 4 → length (xor_key_32 key) ≡ 32
length-xor_key_32 key h = length-take 32 (repeated 8 key) (
    omega (
      arith,
      length-append key (repeated 7 key),
      length-append key (repeated 6 key),
      length-append key (repeated 5 key),
      length-append key (repeated 4 key),
      length-append key (repeated 3 key),
      length-append key (repeated 2 key),
      length-append key (repeated 1 key),
      length-append key [],
    ))

length-if :
    (b : Bool) {n : ℕ} (xs ys : Bytes)
    → length xs ≡ n
    → length ys ≡ n
    → length (if b then xs else ys) ≡ n
length-if true xs ys p q = p
length-if false xs ys p q = q

pub length-encrypt_password :
    (password : Bytes) (info : InitInfo)
    → length info.xor_key_4 ≡ 4
    → length (encrypt_password password (some info)) ≡ 32
unfolding encrypt_password
length-encrypt_password password info h =
    let plain = length-padded 32 password in
    let key = length-xor_key_32 info.xor_key_4 h in
    let xored : length (xor_bytes (padded 32 password) (xor_key_32 info.xor_key_4)) ≡ 32 =
      length-xor_bytes (padded 32 password) (xor_key_32 info.xor_key_4) (omega arith) ∙ plain in
    length-if (info.login_encrypt == 0) _ _ plain
      (length-if (info.login_encrypt == 1 || info.login_encrypt == 2) _ _ xored plain)

length-xor_username :
    (key : Bytes) (i : ℕ) (bs : Bytes) → length (xor_username key i bs) ≡ length bs
unfolding xor_username
length-xor_username key i [] = refl
length-xor_username key i (b ∷ bs) = omega (arith, length-xor_username key (suc i) bs)

length-login_data_standard :
    (username password : Bytes) (info : InitInfo)
    → length info.xor_key_4 ≡ 4
    → length (login_data_standard username password (some info)) ≡ 116
unfolding login_data_standard pack_u32_le
length-login_data_standard username password info h = omega (
  arith,
  length-append {0} (padded 32 username),
  length-padded 32 username,
  length-append {0} (encrypt_password password (some info)),
  length-encrypt_password password info h,
  length-append {0} (padded 28 (ascii "NVRScanner")),
  length-padded 28 (ascii "NVRScanner"),
)

length-ljust : (n : ℕ) (xs : Bytes) → length xs ≤ n → length (ljust n xs) ≡ n
length-ljust n xs h =
    omega (arith, length-append xs (zeros (n - length xs)), length-zeros (n - length xs))

length-encrypt_username_head :
    (username : Bytes) (nonce_int : ℕ) → length (encrypt_username_head username nonce_int) ≡ 64
unfolding encrypt_username_head
length-encrypt_username_head username nonce_int =
    length-xor_username (decimal nonce_int) 0 (padded 64 username) ∙ length-padded 64 username

length-make_login_data_head :
    (lib : Digests) (username password : Bytes) (nonce_int : ℕ)
    → ((bs : Bytes) → length (lib.sha1 bs) ≡ 20)
    → length (make_login_data_head lib username password nonce_int) ≡ 236
unfolding make_login_data_head encrypt_password_head
length-make_login_data_head lib username password nonce_int sha1_length =
    let name = encrypt_username_head username nonce_int in
    let digest = encrypt_password_head lib password nonce_int in
    length-ljust 236 (pack_u32_le 3 ++ (zeros 32 ++ (name ++ digest))) (
      omega (
        arith,
        length-append (pack_u32_le 3) (zeros 32 ++ (name ++ digest)),
        length-append (zeros 32) (name ++ digest),
        length-append name digest,
        length-pack_u32_le 3,
        length-encrypt_username_head username nonce_int,
        sha1_length (lib.md5_upper_hex password ++ decimal_08 nonce_int),
      ))

length-login_data :
    (lib : Digests) (username password : Bytes) (info : InitInfo)
    → ((bs : Bytes) → length (lib.sha1 bs) ≡ 20)
    → length info.xor_key_4 ≡ 4
    → length (login_data lib username password (some info))
      ≡ (if is_head_variant info then 236 else 116)
unfolding login_data
length-login_data lib username password info sha1_length h =
    elim (Bool-cases (is_head_variant info)) [
      | inl e ↦ rw e (length-make_login_data_head lib username password info.nonce_int sha1_length)
      | inr e ↦ rw e (length-login_data_standard username password info h)
    ]

length-login_data_both :
    (lib : Digests) (u p : Option Bytes) (info : InitInfo) {bs : Bytes}
    → ((xs : Bytes) → length (lib.sha1 xs) ≡ 20)
    → length info.xor_key_4 ≡ 4
    → login_data_both lib u p (some info) ≡ some bs
    → length bs ≡ (if is_head_variant info then 236 else 116)
length-login_data_both lib (some u) (some p) info sha1_length h made =
    ap length (sym (some-injective _ _ made)) ∙ length-login_data lib u p info sha1_length h
length-login_data_both lib none p info sha1_length h made = absurd (none-ne-some _ made)
length-login_data_both lib (some u) none info sha1_length h made = absurd (none-ne-some _ made)

-- The data of a login have 236 bytes where the handshake's packet announces the newer protocol, and
-- 116 bytes otherwise, for every handshake's packet of at least 64 bytes and all texts that have an
-- encoding, given that SHA-1 digests have twenty bytes.
pub length-make_login_data :
    (lib : Digests) (username password : String) (init : Bytes) {bs : Bytes}
    → ((xs : Bytes) → length (lib.sha1 xs) ≡ 20)
    → 64 ≤ length init
    → make_login_data lib username password (parse_init init) ≡ some bs
    → length bs ≡ (if is_head_variant (init_fields init) then 236 else 116)
unfolding make_login_data
length-make_login_data lib username password init sha1_length h made =
    length-login_data_both lib (encode_ascii username) (encode_ascii password) (init_fields init)
      sha1_length (length-xor_key_4 init h)
      (sym (
          ap (login_data_both lib (encode_ascii username) (encode_ascii password))
            (parse_init-some init h))
        ∙ made)

framed :
    (pre content more : Bytes)
    → length pre ≡ 72
    → take (length content) (parse_http_response_body (pre ++ (content ++ more))) ≡ content
unfolding parse_http_response_body
framed pre content more h = rw (keep) (rw (dropped) (take-append content more))
  where
    keep : ltb (length (pre ++ (content ++ more))) 72 ≡ false
    keep = ground (arith, length-append pre (content ++ more))

    dropped : drop 72 (pre ++ (content ++ more)) ≡ content ++ more
    dropped = rw (← h) (drop-append pre (content ++ more))

-- A request over the tunnel announces the length of its text, which begins after 72 bytes.
pub make_http_request-content :
    (path : String) (seq : ℕ)
    → length (http_content path) < 2 ^ 32
    → (u32_le (make_http_request path seq) ≡ length (http_content path))
      × (take (length (http_content path)) (parse_http_response_body (make_http_request path seq))
          ≡ http_content path)
unfolding make_http_request pack_u32_le
make_http_request-content path seq h = (
  u32_le-pack_u32_le (length (http_content path))
      (pack_u32_le seq ++ (zeros 64 ++ (http_content path ++ 0 ∷ []))) h,
  framed (pack_u32_le (length (http_content path)) ++ (pack_u32_le seq ++ zeros 64))
      (http_content path) (0 ∷ []) refl,
)

head_cameras-length :
    (n : ℕ) (bs : Bytes) (q : ℕ)
    → 20 * q ≤ length bs
    → length bs < 20 * q + 20
    → length (head_cameras n bs) ≡ (if leb n q then n else q)
unfolding head_cameras
head_cameras-length zero bs q h k = ground arith
head_cameras-length (suc n) bs zero h k = ground arith
head_cameras-length (suc n) bs (suc q) h k =
    ground (arith, head_cameras-length n (drop 20 bs) q, length-drop 20 bs)

-- The cameras of a newer answer are as many as it counts, or as many whole records as its data hold
-- after 184 bytes, if these are fewer.
pub parse_login_response_head-length :
    (bs : Bytes) {info : HeadInfo}
    → parse_login_response_head bs ≡ some info
    → length info.cameras ≡ (
        if leb info.channel_count ((length bs - 184) / 20)
        then info.channel_count
        else (length bs - 184) / 20)
unfolding parse_login_response_head
parse_login_response_head-length bs h = elim (Bool-cases (ltb (length bs) 184)) [
  | inl e ↦ absurd (none-ne-some _ (rw e at h))
  | inr e ↦
      subst
        (λ (i : HeadInfo). length i.cameras ≡ (
          if leb i.channel_count ((length bs - 184) / 20)
          then i.channel_count
          else (length bs - 184) / 20))
        (some-injective _ _ (rw e at h))
        (head_cameras-length (channel_count_of bs) (drop 184 bs) ((length bs - 184) / 20)
          (omega (arith, length-drop 184 bs)) (omega (arith, length-drop 184 bs)))
]
