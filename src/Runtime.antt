-- ===== src/Runtime.antt =====
-- The client of the local native runtime (runtime_client.py): its deadlines, the envelopes of its
-- answers, and its errors. `json.loads`, `datetime.fromisoformat` and `base64.b64decode` are the
-- standard library's, and the runtime itself is another program: what they answer is an argument.
pub mod Wire
pub mod Plates
pub mod Stream
pub mod Deadlines
pub mod Lines
pub mod Delivery
pub mod Given
use pytvt.Prelude.{
  ℕ, ◌+◌, ◌-◌, ◌*◌, String, Bool, true, false, not, ◌&&◌, ◌||◌, Option, none, some, List, [], ◌∷◌,
  ltb, leb, ◌==◌, str_eq, if◌then◌else◌,
}
use pytvt.Prelude.Int.{ℤ, pos, negsuc}
use pytvt.Prelude.Json.{Json, text, num, real, flag, null, array, object, Members, get_member}

abbrev pub runtime_protocol_version : ℕ
runtime_protocol_version = 2

abbrev pub runtime_response_grace_ms : ℕ
runtime_response_grace_ms = 6000

abbrev pub max_runtime_response_bytes : ℕ
max_runtime_response_bytes = 34 * 1024 * 1024

abbrev pub max_runtime_plate_channels : ℕ
max_runtime_plate_channels = 32

abbrev pub max_runtime_plate_poll_items : ℕ
max_runtime_plate_poll_items = 16

abbrev pub max_runtime_delivery_sequence : ℕ
max_runtime_delivery_sequence = 9223372036854775807

-- `RuntimeClientError`, and its two subclasses with what the runtime said; `load_error` is an
-- exception of `json.loads` that is not caught.
pub data RuntimeError : Type 0 where
  client_error load_error : RuntimeError
  remote_error : String → String → Option ℤ → RuntimeError
  operation_timed_out : String → RuntimeError

pub data RuntimeReply {ℓ} (A : Type ℓ) : Type ℓ where
  result : A → RuntimeReply A
  error : RuntimeError → RuntimeReply A

-- `_request_timeout_seconds` in milliseconds, less the case of no number; `none` is its
-- `ValueError`. The milliseconds are an `int` by their type.
abbrev pub valid_timeout_ms : ℕ → Option ℕ
valid_timeout_ms ms = if leb 1000 ms && leb ms 60000 then some ms else none

-- `max` and `min` of two numbers
abbrev pub larger : ℕ → ℕ → ℕ
larger m n = if leb m n then n else m

abbrev pub smaller : ℕ → ℕ → ℕ
smaller m n = if leb m n then m else n

abbrev pub operation_within : ℕ → Option ℕ → Option ℕ
operation_within total none = none
operation_within total (some ms) =
    some (larger 1000 (smaller ms (total - runtime_response_grace_ms)))

-- Without a deadline of its own, `int(total_seconds * 1000)` is the total or one less, which the
-- smaller number in `operation_within` hides.
abbrev pub operation_of_total : Option ℕ → Option ℕ → Option ℕ
operation_of_total timeout none = none
operation_of_total none (some total) = operation_within total (some total)
operation_of_total (some ms) (some total) = operation_within total (valid_timeout_ms ms)

-- `_operation_timeout_ms`: the outer `none` is its `ValueError`, the inner one `None`.
unfoldable pub operation_timeout_ms : Option ℕ → Option ℕ → Option (Option ℕ)
operation_timeout_ms timeout none = some timeout
operation_timeout_ms timeout (some total) =
    elim (operation_of_total timeout (valid_timeout_ms total)) [
      | none ↦ none
      | some ms ↦ some (some ms)
    ]

abbrev pub with_grace : Option ℕ → Option ℕ
with_grace none = none
with_grace (some ms) = some (ms + runtime_response_grace_ms)

-- `_exchange_timeout_seconds`, in milliseconds.
unfoldable pub exchange_timeout_ms : Option ℕ → ℕ → Option ℕ → Option ℕ
exchange_timeout_ms timeout fallback (some total) = valid_timeout_ms total
exchange_timeout_ms none fallback none = some fallback
exchange_timeout_ms (some ms) fallback none = with_grace (valid_timeout_ms ms)

-- What `json.loads` makes of bytes: `not_json` is the `JSONDecodeError` and the `UnicodeDecodeError`,
-- which are caught, `unloadable` every other exception.
pub data Decoded : Type 0 where
  decoded : Json → Decoded
  not_json unloadable : Decoded

-- What comes of decoding a line, and whether a float equals a number.
pub record RuntimeLibraries : Type 0 where
  pub loads : List ℕ → Decoded
  pub real_equals : String → ℕ → Bool
  pub aware_datetime : String → Bool
  pub b64_decoded : String → Option (List ℕ)

abbrev pub int_equals : ℤ → ℕ → Bool
int_equals (pos m) n = m == n
int_equals (negsuc m) n = false

-- `v == n`, where `True` is 1 and `False` is 0.
abbrev pub equals_number : RuntimeLibraries → Json → ℕ → Bool
equals_number lib (num i) n = int_equals i n
equals_number lib (real b s) n = lib.real_equals s n
equals_number lib (flag b) n = (if b then 1 else 0) == n
equals_number lib (text s) n = false
equals_number lib null n = false
equals_number lib (array xs) n = false
equals_number lib (object d) n = false

-- `v == s`
abbrev pub equals_text : Json → String → Bool
equals_text (text t) s = str_eq t s
equals_text (num i) s = false
equals_text (real b t) s = false
equals_text (flag b) s = false
equals_text null s = false
equals_text (array xs) s = false
equals_text (object d) s = false

-- `isinstance(v, int) and not isinstance(v, bool)`
abbrev pub is_plain_int : Json → Bool
is_plain_int (num i) = true
is_plain_int (real b t) = false
is_plain_int (flag b) = false
is_plain_int (text s) = false
is_plain_int null = false
is_plain_int (array xs) = false
is_plain_int (object d) = false

abbrev pub is_false : Json → Bool
is_false (flag b) = not b
is_false (num i) = false
is_false (real b t) = false
is_false (text s) = false
is_false null = false
is_false (array xs) = false
is_false (object d) = false

-- `retry_after if isinstance(retry_after, int) else None`
abbrev pub retry_after_of : Json → Option ℤ
retry_after_of (num i) = some i
retry_after_of (flag b) = some (pos (if b then 1 else 0))
retry_after_of (real b t) = none
retry_after_of (text s) = none
retry_after_of null = none
retry_after_of (array xs) = none
retry_after_of (object d) = none

-- The error of an answer of this protocol, by its kind and message.
abbrev pub typed_error : Json → Json → Option ℤ → RuntimeReply Json
typed_error (text kind) (text message) retry =
    if str_eq kind "operation_timeout"
    then error (operation_timed_out message)
    else error (remote_error kind message retry)
typed_error (text kind) other retry = error client_error
typed_error other message retry = error client_error

abbrev pub error_of_reply : Members → Json → RuntimeReply Json
error_of_reply d (object e) =
    typed_error (get_member "kind" e) (get_member "message" e)
      (retry_after_of (get_member "retry_after_seconds" d))
error_of_reply d other = error client_error

-- The answer of a runtime that speaks another protocol.
abbrev pub mismatch_message : Json → RuntimeReply Json
mismatch_message (text message) = error (remote_error "protocol_mismatch" message none)
mismatch_message other = error client_error

abbrev pub mismatch_error : Json → RuntimeReply Json
mismatch_error (object e) =
    if equals_text (get_member "kind" e) "protocol_mismatch"
    then mismatch_message (get_member "message" e)
    else error client_error
mismatch_error other = error client_error

abbrev pub mismatch : Members → RuntimeReply Json
mismatch d =
    if is_plain_int (get_member "protocol" d) && is_false (get_member "ok" d)
    then mismatch_error (get_member "error" d)
    else error client_error

abbrev pub by_ok : Members → Json → RuntimeReply Json
by_ok d (flag true) = result (get_member "result" d)
by_ok d (flag false) = error_of_reply d (get_member "error" d)
by_ok d other = error client_error

abbrev pub envelope : RuntimeLibraries → String → Json → RuntimeReply Json
envelope lib request_id (object d) =
    if equals_text (get_member "id" d) request_id
    then (if equals_number lib (get_member "protocol" d) runtime_protocol_version
        then by_ok d (get_member "ok" d)
        else mismatch d)
    else error client_error
envelope lib request_id other = error client_error

abbrev pub decoded_reply : RuntimeLibraries → String → Decoded → RuntimeReply Json
decoded_reply lib request_id (decoded v) = envelope lib request_id v
decoded_reply lib request_id not_json = error client_error
decoded_reply lib request_id unloadable = error load_error

-- `_parse_response`
unfoldable pub parse_response : RuntimeLibraries → List ℕ → String → RuntimeReply Json
parse_response lib line request_id = decoded_reply lib request_id (lib.loads line)
