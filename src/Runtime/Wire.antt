-- ===== src/Runtime/Wire.antt =====
-- The reading of one answer from the runtime's socket (`SyncRuntimeClient._request` of
-- runtime_client.py). What the socket gives to read is a list of chunks, of which `recv` hands out at
-- most what it is asked for; the list's end stands for a peer that has closed the connection, and an
-- expired deadline is a failure.
use pytvt.Prelude.{
  ℕ, zero, suc, ◌+◌, ◌-◌, ◌*◌, is_empty, String, Option, none, some, List, [], ◌∷◌, ◌++◌, ltb, ◌==◌,
  if◌then◌else◌, length,
}
use pytvt.Prelude.Bytes.{Bytes, take, drop}
use pytvt.Protocol.Socket.{Incoming, chunk, fails}
use pytvt.Protocol.Steps.{weight}
use pytvt.Runtime.{
  smaller, max_runtime_response_bytes, client_error, RuntimeReply, error, RuntimeLibraries,
  parse_response,
}
use pytvt.Prelude.Json.{Json}

-- `chunk.find(b"\n")`, as the bytes up to the newline, with it.
abbrev pub cons_line : ℕ → Option Bytes → Option Bytes
cons_line b none = none
cons_line b (some bs) = some (b ∷ bs)

abbrev pub line_of : Bytes → Option Bytes
line_of [] = none
line_of (b ∷ bs) = let rest = line_of bs in if b == 10 then some (10 ∷ []) else cons_line b rest

-- What the loop comes to: a line, or one of its three errors; `no_round` is a loop of the model that
-- has no round left.
pub data LineRead : Type 0 where
  line : Bytes → LineRead
  incomplete too_large exchange_failed no_round : LineRead

-- `min(64 * 1024, MAX_RUNTIME_RESPONSE_BYTES + 1 - received)`
abbrev pub asked_size : ℕ → ℕ
asked_size received = smaller (64 * 1024) (max_runtime_response_bytes + 1 - received)

-- What is left to read when `recv(n)` hands out the first `n` of the bytes that have come.
abbrev pub left_over : ℕ → Bytes → List Incoming → List Incoming
left_over n c more = if ltb n (length c) then chunk (drop n c) ∷ more else more

-- The rest of the loop's body, with the chunk's line, if it has one, and the next rounds.
abbrev pub read_on : Bytes → Bytes → Option Bytes → LineRead → LineRead
read_on before c (some bs) rest = line (before ++ bs)
read_on before c none rest =
    if ltb max_runtime_response_bytes (length before + length c) then too_large else rest

-- The loop, with the bytes received before, on as many rounds as are given.
unfoldable pub read_rounds : ℕ → Bytes → List Incoming → LineRead
read_rounds zero before answers = no_round
read_rounds (suc f) before [] = incomplete
read_rounds (suc f) before (fails e ∷ more) = exchange_failed
read_rounds (suc f) before (chunk c ∷ more) =
    let size = asked_size (length before) in
    let piece = take size c in
    let rest = read_rounds f (before ++ piece) (left_over size c more) in
    if is_empty piece then incomplete else read_on before piece (line_of piece) rest

-- The loop: a round more than there are bytes and failures to read.
unfoldable pub read_line : List Incoming → LineRead
unfolding read_rounds
read_line answers = read_rounds (suc (weight answers)) [] answers

abbrev pub reply_of_line : RuntimeLibraries → String → LineRead → RuntimeReply Json
reply_of_line lib request_id (line bs) = parse_response lib bs request_id
reply_of_line lib request_id incomplete = error client_error
reply_of_line lib request_id too_large = error client_error
reply_of_line lib request_id exchange_failed = error client_error
reply_of_line lib request_id no_round = error client_error

-- `_request` after the request is sent.
unfoldable pub receive_reply : RuntimeLibraries → String → List Incoming → RuntimeReply Json
receive_reply lib request_id answers = reply_of_line lib request_id (read_line answers)
