-- ===== src/Protocol/Login.antt =====
-- The two forms of the recorder's answer to a login (protocol.py).
use pytvt.Prelude.{
  ℕ, zero, suc, ◌+◌, ◌*◌, ◌%◌, Bool, ◌&&◌, ◌||◌, Option, none, some, List, [], ◌∷◌, ltb, leb, ◌==◌,
  if◌then◌else◌, length, is_empty,
}
use pytvt.Prelude.Int.{pos}
use pytvt.Prelude.Bytes.{Bytes, drop}
use pytvt.Protocol.{u32_at, byte_at, slice, mac_text}
use pytvt.Protocol.Cameras.{Camera, numbered}
use pytvt.Prelude.Json.{num}

-- A text as its code points.
abbrev pub Codes : Type 0
Codes = List ℕ

-- `raw.split(b"\x00")[0]`
abbrev pub until_zero : Bytes → Bytes
until_zero [] = []
until_zero (b ∷ bs) = let rest = until_zero bs in if b == 0 then [] else b ∷ rest

-- `.decode("ascii", errors="replace")`: U+FFFD for each byte that is not ASCII.
abbrev pub decode_replaced : Bytes → Codes
decode_replaced [] = []
decode_replaced (b ∷ bs) = (if ltb b 128 then b else 65533) ∷ decode_replaced bs

-- The whitespace of `str.strip` among the characters that such a text can have.
abbrev pub is_white : ℕ → Bool
is_white b = leb 9 b && leb b 13 || leb 28 b && leb b 32

abbrev pub strip_left : Codes → Codes
strip_left [] = []
strip_left (b ∷ bs) = let rest = strip_left bs in if is_white b then rest else b ∷ bs

abbrev pub strip_right : Codes → Codes
strip_right [] = []
strip_right (b ∷ bs) =
    let rest = strip_right bs in if is_white b && is_empty rest then [] else b ∷ rest

unfoldable pub device_text : Bytes → Codes
device_text raw = strip_right (strip_left (decode_replaced (until_zero raw)))

-- The dict of `_parse_login_response`, with `software_ver` as the bytes that its hex digits stand for.
pub record LoginInfo : Type 0 where
  pub config_data_len : ℕ
  pub software_ver : Bytes
  pub build_date : ℕ
  pub mac : Bytes
  pub device_name : Codes

abbrev pub login_fields : Bytes → LoginInfo
login_fields bs = record {
  config_data_len = u32_at 0 bs;
  software_ver = slice 44 4 bs;
  build_date = u32_at 48 bs;
  mac = mac_text (slice 52 6 bs);
  device_name = device_text (slice 58 34 bs);
}

-- `_parse_login_response`; `none` is the empty dict.
unfoldable pub parse_login_response : Bytes → Option LoginInfo
parse_login_response bs = if ltb (length bs) 80 then none else some (login_fields bs)

abbrev pub head_camera : Bytes → Camera
head_camera bs = record {
  channel = num (pos (u32_at 0 bs));
  name = numbered (u32_at 0 bs);
  address = "";
  port = pos 0;
  status = if u32_at 16 bs % 256 == 1 then "Online" else "Offline";
  protocol = "";
  model = "";
}

-- The loop over the channel records, twenty bytes each, from what is left of the data.
unfoldable pub head_cameras : ℕ → Bytes → List Camera
head_cameras zero bs = []
head_cameras (suc n) bs =
    let rest = head_cameras n (drop 20 bs) in
    if ltb (length bs) 20 then [] else head_camera bs ∷ rest

-- The dict of `_parse_login_response_head`.
pub record HeadInfo : Type 0 where
  pub device_name : Codes
  pub channel_count : ℕ
  pub cameras : List Camera

-- `struct.unpack_from("<H", data, 0xB0)[0]`
abbrev pub channel_count_of : Bytes → ℕ
channel_count_of bs = byte_at 0xB0 bs + 256 * byte_at 0xB1 bs

abbrev pub head_fields : Bytes → HeadInfo
head_fields bs = record {
  device_name = device_text (slice 0x8C 32 bs);
  channel_count = channel_count_of bs;
  cameras = head_cameras (channel_count_of bs) (drop 0xB8 bs);
}

-- `_parse_login_response_head`; `none` is the empty dict.
unfoldable pub parse_login_response_head : Bytes → Option HeadInfo
unfolding head_cameras
parse_login_response_head bs = if ltb (length bs) 0xB8 then none else some (head_fields bs)
