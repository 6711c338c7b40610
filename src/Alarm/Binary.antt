-- ===== src/Alarm/Binary.antt =====
-- Binary alarm frames, written and parsed back.
use mathlib.Core.Path.{subst, ap₂}
use pytvt.Prelude.{
  ℕ, ◌+◌, ◌^◌, ◌≤◌, ◌<◌, ◌≡◌, refl, ◌∙◌, ap, true, some, ◌++◌, leb, length, length-append, arith,
}
use pytvt.Prelude.Bytes.{
  Bytes, drop, take-append, starts_with, u32_le, pack_u32_le, u32_le-pack_u32_le,
}
use pytvt.Alarm.{binary, number, binary_detail, ParsedAlarmFrame, Libraries}
use pytvt.Alarm.Frame.{
  tvt_binary_magic, extract_http_body, binary_payload, code_event, binary_frame, parse_binary_frame,
  parse_bare, parse_body, parse_alarm_frame,
}

-- The payload of a binary frame: the code, the channel and the rest.
abbrev pub write_payload : ℕ → ℕ → Bytes → Bytes
write_payload code channel rest = pack_u32_le code ++ (pack_u32_le channel ++ rest)

-- The magic, the length of the payload, the payload, and what the connection sends after it.
abbrev pub write_frame : ℕ → ℕ → Bytes → Bytes → Bytes
write_frame code channel rest after =
    tvt_binary_magic
    ++ (pack_u32_le (8 + length rest) ++ (write_payload code channel rest ++ after))

-- What a frame says.
abbrev pub frame_of : {V : Type 0} → ℕ → ℕ → Bytes → ParsedAlarmFrame V
frame_of {V} code channel rest = record {
  event_code = (code_event {V = V} code).0;
  event_type = (code_event {V = V} code).1;
  channel = number channel;
  device_id = "";
  parse_format = binary;
  parsed = binary_detail (record {
    declared_length = 8 + length rest;
    actual_length = 8 + length rest;
    payload = write_payload code channel rest;
    alarm_code = some code;
    channel_raw = some channel;
  });
}

-- A frame with the magic is tried as binary.
parse_alarm_frame-magic :
    {V : Type 0} (lib : Libraries V) (rest : Bytes)
    → 4 ≤ length rest
    → parse_alarm_frame lib (tvt_binary_magic ++ rest)
      ≡ some (parse_binary_frame (tvt_binary_magic ++ rest))
unfolding parse_alarm_frame parse_body extract_http_body parse_bare starts_with
parse_alarm_frame-magic lib rest h =
    let e : leb 8 (length (tvt_binary_magic ++ rest)) ≡ true = ground arith in simp e refl

length-pack : (n : ℕ) → length (pack_u32_le n) ≡ 4
unfolding pack_u32_le
length-pack n = refl

-- The payload of a frame with enough bytes is as long as declared.
binary_payload-whole :
    (payload rest : Bytes)
    → length payload < 2 ^ 32
    → binary_payload (tvt_binary_magic ++ (pack_u32_le (length payload) ++ (payload ++ rest)))
      ≡ payload
unfolding pack_u32_le binary_payload
binary_payload-whole payload rest h =
    let declared = u32_le-pack_u32_le (length payload) (payload ++ rest) h in
    let frame = tvt_binary_magic ++ (pack_u32_le (length payload) ++ (payload ++ rest)) in
    let e : leb (8 + length payload) (length frame) ≡ true =
      ground (arith, length-append payload rest) in
    simp (declared, e) (take-append payload rest)

drop-pack : (n : ℕ) (xs : Bytes) → drop 4 (pack_u32_le n ++ xs) ≡ xs
unfolding pack_u32_le
drop-pack n xs = refl

tail_long : (n : ℕ) (xs : Bytes) → 4 ≤ length (pack_u32_le n ++ xs)
unfolding pack_u32_le
tail_long n xs = omega arith

length-write_payload :
    (code channel : ℕ) (rest : Bytes) → length (write_payload code channel rest) ≡ 8 + length rest
unfolding pack_u32_le
length-write_payload code channel rest = omega arith

-- A binary frame with a code, a channel and a length below 2 ^ 32 is parsed as what was written,
-- whatever the payload goes on with and whatever follows the payload: the code with its name and
-- category, the channel, and the payload.
pub parse_alarm_frame-write_frame :
    {V : Type 0} (lib : Libraries V) (code channel : ℕ) (rest after : Bytes)
    → code < 2 ^ 32
    → channel < 2 ^ 32
    → 8 + length rest < 2 ^ 32
    → parse_alarm_frame lib (write_frame code channel rest after)
      ≡ some (frame_of code channel rest)
unfolding parse_binary_frame
parse_alarm_frame-write_frame lib code channel rest after c d l =
    let payload = write_payload code channel rest in
    let frame = write_frame code channel rest after in
    let whole : binary_payload frame ≡ payload =
      subst
        (λ n. binary_payload (tvt_binary_magic ++ (pack_u32_le n ++ (payload ++ after))) ≡ payload)
        (length-write_payload code channel rest)
        (binary_payload-whole payload after
          (omega (arith, length-write_payload code channel rest))) in
    let declared : u32_le (drop 4 frame) ≡ 8 + length rest =
      u32_le-pack_u32_le (8 + length rest) (payload ++ after) l in
    let size = length-write_payload code channel rest in
    let a : leb 4 (8 + length rest) ≡ true = ground arith in
    let b : leb 8 (8 + length rest) ≡ true = ground arith in
    let next =
      ap u32_le (drop-pack code (pack_u32_le channel ++ rest))
      ∙ u32_le-pack_u32_le channel rest d in
    let first = u32_le-pack_u32_le code (pack_u32_le channel ++ rest) c in
    parse_alarm_frame-magic lib _ (tail_long (8 + length rest) (payload ++ after))
    ∙ ap some (ap₂ (λ n p. binary_frame n p) declared whole ∙ simp (a, b, first, next, size) refl)
