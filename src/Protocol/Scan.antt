-- ===== src/Protocol/Scan.antt =====
-- `scan_nvr` (protocol.py): the exchange with one recorder, with its exceptions and early returns.
-- The debug output is left out.
use pytvt.Prelude.{
  ℕ, suc, String, Bool, true, false, not, ◌&&◌, ◌||◌, Option, none, some, List, [], ◌∷◌, ◌++◌, ltb,
  ◌==◌, if◌then◌else◌, length, is_empty,
}
use pytvt.Prelude.Bytes.{Bytes, drop}
use pytvt.Protocol.{
  header_flag, init_packet_size, cmd_request_login, cmd_request_logout, cmd_reply_login_succ,
  cmd_reply_login_fail, cmd_http_request, cmd_http_reply, cmd_head_login, cmd_head_login_succ,
  cmd_head_login_fail, make_header, InitInfo, parse_init, is_head_variant, make_login_data,
  make_http_request, parse_http_response_body,
}
use pytvt.Protocol.Socket.{
  Failure, timed_out, connection_refused, connection_error, os_error, Incoming, Packet, recv_packet,
}
use pytvt.Protocol.Login.{LoginInfo, parse_login_response, HeadInfo, parse_login_response_head}
use pytvt.Protocol.Cameras.{Camera, extract_cameras}
use pytvt.Protocol.Steps.{
  new_scan, Scan, ◌>>=◌, ◌>>◌, pure, stop, update, receive, send, no_ack, login_reply, full_reply,
  is_command, DeviceInfo, ScanError, NvrScan, Loaded, ScanLibraries, ScanState, ScanStep, no_info,
  login_info, head_info, no_init_packet, login_failed, no_camera_details, scan_timed_out,
  scan_refused, network_error, loaded, not_json, undecodable, returned, raised, value_error,
  out_of_fuel, done, stops,
}

-- `result["device_info"] = ...` and `result["device_name"] = ...` for the standard answer
abbrev pub note_login : Option LoginInfo → NvrScan → NvrScan
note_login none r = record r { device_name = []; device_info = no_info }
note_login (some info) r = record r {
  device_name = info.device_name;
  device_info = login_info info;
}

abbrev pub note_cameras : List Camera → NvrScan → NvrScan
note_cameras [] r = r
note_cameras (c ∷ cs) r = record r { cameras = c ∷ cs; success = true }

-- The same for the other answer, with its cameras.
abbrev pub note_head : Option HeadInfo → NvrScan → NvrScan
note_head none r = record r { device_name = []; device_info = no_info }
note_head (some info) r =
    note_cameras info.cameras
      (record r { device_name = info.device_name; device_info = head_info info })

abbrev pub note_reply : Bool → Packet → NvrScan → NvrScan
note_reply head p r =
    if is_command cmd_reply_login_succ p.0 || is_command cmd_head_login_succ p.0
    then note_login (parse_login_response p.1) r
    else if head && ltb 100 (length p.1)
    then note_head (parse_login_response_head p.1) r
    else r

-- `body.find(b)`
abbrev pub find_byte : ℕ → Bytes → Option ℕ
find_byte b [] = none
find_byte b (x ∷ xs) =
    let rest = find_byte b xs in
    if x == b then some 0 else elim rest [ none ↦ none | some n ↦ some (suc n) ]

abbrev pub earlier : Option ℕ → Option ℕ → Option ℕ
earlier none n = n
earlier (some m) none = some m
earlier (some m) (some n) = some (if ltb n m then n else m)

-- Where the first `{` or `[` of a body stands.
abbrev pub json_start : Bytes → Option ℕ
json_start body = earlier (find_byte 123 body) (find_byte 91 body)

abbrev pub camera_paths : List String
camera_paths = "/queryIPCInfo" ∷ "/LAPI/V1.0/Channel/Table" ∷ "/LAPI/V1.0/System/DeviceInfo" ∷ []

abbrev pub encoded_login : Option Bytes → Scan Bytes
encoded_login none = stop value_error
encoded_login (some bs) = pure bs

abbrev pub head_of : Option InitInfo → Bool
head_of none = false
head_of (some info) = is_head_variant info

abbrev pub login_packet : Bool → Bytes → Bytes
login_packet head bs =
    make_header (if head then cmd_head_login else cmd_request_login) (length bs)
      (if head then 0x0101 else 0) (if head then 0x0101 else 0) header_flag
    ++ bs

abbrev pub checked_init : Packet → Scan (Unit {0})
checked_init p =
    if ltb (length p.1) init_packet_size
    then (do update (λ r. record r { error = some (no_init_packet (length p.1)) }); stop returned)
    else pure tt

abbrev pub checked_login : Packet → Scan (Unit {0})
checked_login p =
    if is_command cmd_reply_login_fail p.0 || is_command cmd_head_login_fail p.0
    then (do update (λ r. record r { error = some login_failed }); stop returned)
    else pure tt

abbrev pub whole_reply : Bool → Packet → Scan Packet
whole_reply head p = if head && ltb (length p.1) 100 then receive (full_reply 20 p) else pure p

-- `if not result["cameras"] and result["device_info"]`
abbrev pub has_info : DeviceInfo → Bool
has_info no_info = false
has_info (login_info i) = true
has_info (head_info i) = true

abbrev pub note_missing : NvrScan → NvrScan
note_missing r =
    if is_empty r.cameras && has_info r.device_info
    then record r { success = true; error = some no_camera_details }
    else r

-- `except Exception: pass` around the logout
abbrev pub ignored : ScanStep (Unit {0}) → ScanStep (Unit {0})
ignored (done a s) = done tt s
ignored (stops e s) = done tt s

abbrev pub logout : Scan (Unit {0})
logout s = ignored (send (make_header cmd_request_logout 0 0 0 header_flag) s)

abbrev pub error_of : Failure → ScanError
error_of timed_out = scan_timed_out
error_of connection_refused = scan_refused
error_of connection_error = network_error
error_of os_error = network_error

-- How `scan_nvr` ends: by a result, by an exception that leaves it, or never.
pub data ScanEnd : Type 0 where
  gives : NvrScan → ScanEnd
  escapes hangs : ScanEnd

-- The handlers of the `try`.
abbrev pub ended : ScanStep (Unit {0}) → ScanEnd
ended (done a s) = gives s.result
ended (stops returned s) = gives s.result
ended (stops (raised e) s) = gives (record s.result { error = some (error_of e) })
ended (stops value_error s) = escapes
ended (stops out_of_fuel s) = hangs

abbrev pub scan_start : List Incoming → List (Option Failure) → ScanState
scan_start incoming answers = record {
  incoming = incoming;
  send_answers = answers;
  sent = [];
  result = new_scan;
}

module _ (lib : ScanLibraries) where
  abbrev pub note_extracted : Option (List Camera) → Scan (Unit {0})
  note_extracted none = stop value_error
  note_extracted (some cs) = update (note_cameras cs)

  abbrev pub note_json : String → Loaded → Scan (Unit {0})
  note_json path (loaded v) = do
    update (λ r. record r { http_responses = r.http_responses ++ (path, v) ∷ [] })
    note_extracted (extract_cameras lib.texts v)
  note_json path not_json = pure tt
  note_json path undecodable = stop value_error

  abbrev pub note_body : String → Bytes → Option ℕ → Scan (Unit {0})
  note_body path body none = pure tt
  note_body path body (some n) = note_json path (lib.loads (drop n body))

  abbrev pub note_http : String → Packet → Scan (Unit {0})
  note_http path p =
      if is_command cmd_http_reply p.0 && not (is_empty p.1)
      then note_body path (parse_http_response_body p.1) (json_start (parse_http_response_body p.1))
      else pure tt

  abbrev pub ask_path : String → ℕ → Scan (Unit {0})
  ask_path path seq = do
    send (
        make_header cmd_http_request (length (make_http_request path seq)) 0 0 header_flag
        ++ make_http_request path seq)
    p ← receive recv_packet
    note_http path p

  -- The loop over `camera_paths`, from the sequence number `i`.
  unfoldable pub tunnel : ℕ → List String → Scan (Unit {0})
  tunnel i [] = pure tt
  tunnel i (path ∷ paths) = ask_path path i >> tunnel (suc i) paths

  abbrev pub tunnel_unless : Bool → Scan (Unit {0})
  tunnel_unless true = pure tt
  tunnel_unless false = tunnel 1 camera_paths

  abbrev pub list_cameras : Bool → Scan (Unit {0})
  list_cameras head s = tunnel_unless (head && not (is_empty s.result.cameras)) s

  -- What follows the handshake's packet.
  abbrev pub after_init : String → String → Option InitInfo → Scan (Unit {0})
  after_init username password info = do
    (λ s. no_ack (receive recv_packet s))
    bs ← encoded_login (make_login_data lib.digests username password info)
    send (login_packet (head_of info) bs)
    first ← login_reply
    checked_login first
    reply ← whole_reply (head_of info) first
    update (note_reply (head_of info) reply)
    list_cameras (head_of info)
    update note_missing
    logout

  -- The body of the `try` after the connection is made.
  unfoldable pub exchange : String → String → Scan (Unit {0})
  exchange username password = do
    init ← receive recv_packet
    checked_init init
    after_init username password (parse_init init.1)

  -- `scan_nvr`: what `connect` raises comes first.
  unfoldable pub scan_nvr :
      String → String → Option Failure → List Incoming → List (Option Failure) → ScanEnd
  scan_nvr username password (some e) incoming answers =
      ended (stops (raised e) (scan_start incoming answers))
  scan_nvr username password none incoming answers =
      ended (exchange username password (scan_start incoming answers))
