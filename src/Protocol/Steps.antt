-- ===== src/Protocol/Steps.antt =====
-- What `scan_nvr` (protocol.py) keeps while it runs, how it ends, and its loops that read.
-- The socket's answers and the libraries are arguments.
use pytvt.Prelude.{
  ℕ, zero, suc, ◌+◌, String, Bool, true, false, not, ◌&&◌, Option, none, some, List, [], ◌∷◌, ◌++◌,
  ltb, ◌==◌, if◌then◌else◌, length,
}
use pytvt.Prelude.Bytes.{Bytes}
use pytvt.Protocol.{Digests}
use pytvt.Protocol.Socket.{
  Failure, timed_out, connection_refused, connection_error, os_error, Incoming, chunk, fails,
  Inbound, got, failed, stuck, Reader, PacketType, no_command, ack, command, Packet, recv_packet,
}
use pytvt.Protocol.Login.{Codes, LoginInfo, HeadInfo}
use pytvt.Protocol.Cameras.{Camera, Texts}
use pytvt.Prelude.Json.{Json}

-- `result["device_info"]`: the empty dict, or what the answer to the login said.
pub data DeviceInfo : Type 0 where
  no_info : DeviceInfo
  login_info : LoginInfo → DeviceInfo
  head_info : HeadInfo → DeviceInfo

-- `result["error"]`, by the text's kind.
pub data ScanError : Type 0 where
  no_init_packet : ℕ → ScanError
  login_failed no_camera_details scan_timed_out scan_refused network_error : ScanError

-- The result of a scan, less the address; an answer over HTTP is kept under its path.
pub record NvrScan : Type 0 where
  pub success : Bool
  pub device_name : Codes
  pub device_info : DeviceInfo
  pub cameras : List Camera
  pub error : Option ScanError
  pub http_responses : List (String × Json)

abbrev pub new_scan : NvrScan
new_scan = record {
  success = false;
  device_name = [];
  device_info = no_info;
  cameras = [];
  error = none;
  http_responses = [];
}

-- What `json.loads` makes of bytes: `JSONDecodeError` is apart from every other exception.
pub data Loaded : Type 0 where
  loaded : Json → Loaded
  not_json undecodable : Loaded

-- The standard library's part: digests, JSON, texts.
pub record ScanLibraries : Type 0 where
  pub digests : Digests
  pub loads : Bytes → Loaded
  pub texts : Texts

-- The socket and the result during the scan. The answers of `sock.sendall` come in order, and one
-- that is not listed is a success.
pub record ScanState : Type 0 where
  pub incoming : List Incoming
  pub send_answers : List (Option Failure)
  pub sent : List Bytes
  pub result : NvrScan

-- How the body of the `try` ends early: `return`, an exception that is an `OSError`, another one;
-- or a loop of the model has no round left.
pub data Stop : Type 0 where
  returned : Stop
  raised : Failure → Stop
  value_error : Stop
  out_of_fuel : Stop

pub data ScanStep {ℓ} (A : Type ℓ) : Type ℓ where
  done : A → ScanState → ScanStep A
  stops : Stop → ScanState → ScanStep A

abbrev pub Scan {ℓ} : Type ℓ → Type ℓ
Scan A = ScanState → ScanStep A

abbrev pub then_scan {ℓ κ} : {A : Type ℓ} {B : Type κ} → ScanStep A → (A → Scan B) → ScanStep B
then_scan (done a s) f = f a s
then_scan (stops e s) f = stops e s

infixl 5 ◌>>=◌ ◌>>◌
abbrev pub ◌>>=◌ {ℓ κ} : {A : Type ℓ} {B : Type κ} → Scan A → (A → Scan B) → Scan B
◌>>=◌ m f s = then_scan (m s) f

abbrev pub ◌>>◌ {ℓ} : {B : Type ℓ} → Scan (Unit {0}) → Scan B → Scan B
m >> k = m >>= λ _. k

abbrev pub pure {ℓ} : {A : Type ℓ} → A → Scan A
pure a s = done a s

abbrev pub stop {ℓ} : {A : Type ℓ} → Stop → Scan A
stop e s = stops e s

abbrev pub update : (NvrScan → NvrScan) → Scan (Unit {0})
update f s = done tt (record s { result = f s.result })

abbrev pub received_step {ℓ} : {A : Type ℓ} → ScanState → Inbound A → ScanStep A
received_step s (got a sock) = done a (record s { incoming = sock })
received_step s (failed e sock) = stops (raised e) (record s { incoming = sock })
received_step s stuck = stops out_of_fuel s

abbrev pub receive {ℓ} : {A : Type ℓ} → Reader A → Scan A
receive m s = received_step s (m s.incoming)

abbrev pub sent_with : Bytes → ScanState → List (Option Failure) → ScanStep (Unit {0})
sent_with data_bytes s [] = done tt (record s { sent = s.sent ++ data_bytes ∷ [] })
sent_with data_bytes s (none ∷ more) =
    done tt (record s { sent = s.sent ++ data_bytes ∷ []; send_answers = more })
sent_with data_bytes s (some e ∷ more) = stops (raised e) (record s { send_answers = more })

-- `sock.sendall`
abbrev pub send : Bytes → Scan (Unit {0})
send data_bytes s = sent_with data_bytes s s.send_answers

-- `except (socket.timeout, ConnectionError): pass`
abbrev pub no_ack : ScanStep Packet → ScanStep (Unit {0})
no_ack (done p s) = done tt s
no_ack (stops (raised timed_out) s) = done tt s
no_ack (stops (raised connection_refused) s) = done tt s
no_ack (stops (raised connection_error) s) = done tt s
no_ack (stops (raised os_error) s) = stops (raised os_error) s
no_ack (stops returned s) = stops returned s
no_ack (stops value_error s) = stops value_error s
no_ack (stops out_of_fuel s) = stops out_of_fuel s

-- The bytes and failures that a socket still has, one more for each: more than the packets in it.
abbrev pub weight : List Incoming → ℕ
weight [] = 0
weight (chunk c ∷ more) = suc (length c + weight more)
weight (fails e ∷ more) = suc (weight more)

-- The reading on after a packet: `while cmd_type == -1: ...`.
abbrev pub unless_ack : Packet → Reader Packet → Reader Packet
unless_ack (ack, bs) again sock = again sock
unless_ack (no_command, bs) again sock = got (no_command, bs) sock
unless_ack (command n, bs) again sock = got (command n, bs) sock

abbrev pub past_ack : Inbound Packet → Reader Packet → Inbound Packet
past_ack (got p sock) again = unless_ack p again sock
past_ack (failed e sock) again = failed e sock
past_ack stuck again = stuck

-- The first read of the answer to the login and the loop after it.
unfoldable pub skip_acks : ℕ → Reader Packet
skip_acks zero sock = stuck
skip_acks (suc f) sock = past_ack (recv_packet sock) (skip_acks f)

abbrev pub login_reply : Scan Packet
login_reply s = receive (skip_acks (suc (weight s.incoming))) s

-- The loop over at most `n` packets for the whole answer: with `was` when there is none.
abbrev pub is_ack : PacketType → Bool
is_ack ack = true
is_ack no_command = false
is_ack (command n) = false

abbrev pub is_whole : Packet → Bool
is_whole p = not (is_ack p.0) && ltb 100 (length p.1)

abbrev pub or_on : Inbound Packet → Packet → Reader Packet → Inbound Packet
or_on (got p sock) was again = if is_whole p then got p sock else again sock
or_on (failed timed_out sock) was again = got was sock
or_on (failed connection_refused sock) was again = failed connection_refused sock
or_on (failed connection_error sock) was again = failed connection_error sock
or_on (failed os_error sock) was again = failed os_error sock
or_on stuck was again = stuck

unfoldable pub full_reply : ℕ → Packet → Reader Packet
full_reply zero was sock = got was sock
full_reply (suc n) was sock = or_on (recv_packet sock) was (full_reply n was)

abbrev pub is_command : ℕ → PacketType → Bool
is_command n no_command = false
is_command n ack = false
is_command n (command m) = n == m
