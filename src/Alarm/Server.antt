-- ===== src/Alarm/Server.antt =====
-- The listener for alarm pushes (alarm_server.py): the reading of one connection, and the slots of
-- all connections. Sockets and threads are the operating system's: what they answer is an argument.
pub mod Slots
use pytvt.Prelude.{
  ℕ, zero, suc, ◌+◌, ◌-◌, ◌*◌, Bool, true, false, Option, none, some, List, [], ◌∷◌, ◌++◌, ltb,
  ◌==◌, if◌then◌else◌, length, ◌≡◌,
}
use pytvt.Prelude.Bytes.{Bytes}
use pytvt.Alarm.{ParsedAlarmFrame, Libraries}
use pytvt.Alarm.Frame.{parse_alarm_frame}
use pytvt.Alarm.Xml.{max_frame_size}

-- `_MAX_CONN_BYTES`
abbrev pub max_conn_bytes : ℕ
max_conn_bytes = max_frame_size * 4

-- One answer of `conn.recv(4096)`; another exception than the timeout is `failed`.
pub data Received : Type 0 where
  chunk : Bytes → Received
  timed_out : Received
  failed : Received

-- The loop of `_handle`, on the answers of the connection, with the bytes of the chunks before. A
-- list that ends stands for a peer that ends the connection; `none` is an exception.
unfoldable pub read_chunks : Bytes → List Received → Option Bytes
read_chunks got [] = some got
read_chunks got (timed_out ∷ more) = some got
read_chunks got (failed ∷ more) = if ltb (length got) max_conn_bytes then none else some got
read_chunks got (chunk [] ∷ more) = some got
read_chunks got (chunk (b ∷ bs) ∷ more) =
    let rest = read_chunks (got ++ b ∷ bs) more in
    if ltb (length got) max_conn_bytes then rest else some got

-- What one connection comes to: no data, a frame for the callback, or an exception for `on_error`.
pub data Handled (V : Type 0) : Type 0 where
  silent : Handled V
  delivered : ParsedAlarmFrame V → Handled V
  reported : Handled V

abbrev pub frame_handled : {V : Type 0} → Option (ParsedAlarmFrame V) → Handled V
frame_handled none = reported
frame_handled (some frame) = delivered frame

abbrev pub data_handled : {V : Type 0} → Libraries V → Option Bytes → Handled V
data_handled lib none = reported
data_handled lib (some []) = silent
data_handled lib (some (b ∷ bs)) = frame_handled (parse_alarm_frame lib (b ∷ bs))

-- `_handle` up to its `finally`; an exception of the callback is reported besides.
unfoldable pub handle : {V : Type 0} → Libraries V → List Received → Handled V
unfolding read_chunks
handle lib answers = data_handled lib (read_chunks [] answers)

-- The server's slots and threads. Connections are numbered as they are accepted.
pub record AlarmServer : Type 0 where
  pub max_connections : ℕ
  pub slots : ℕ
  pub threads : List ℕ
  pub accepted : List ℕ
  pub closed : List ℕ

-- `__init__`; `none` is the `ValueError`.
unfoldable pub new_server : ℕ → Option AlarmServer
new_server zero = none
new_server (suc n) =
    some
      (record { max_connections = suc n; slots = suc n; threads = []; accepted = []; closed = [] })

-- One round of `serve_forever` with a connection, whose thread starts or does not. The first answer
-- tells whether an error is reported.
unfoldable pub serve : ℕ → Bool → AlarmServer → Bool × AlarmServer
serve conn starts s =
    if s.slots == 0
    then (true, record s { accepted = conn ∷ s.accepted; closed = conn ∷ s.closed })
    else if starts
    then (
      false,
      record s { slots = s.slots - 1; accepted = conn ∷ s.accepted; threads = conn ∷ s.threads },
    )
    else (true, record s { accepted = conn ∷ s.accepted; closed = conn ∷ s.closed })

-- The `finally` of `_handle`: the connection is closed and its slot is free again.
unfoldable pub finish : ℕ → List ℕ → AlarmServer → AlarmServer
finish conn others s = record s { slots = s.slots + 1; threads = others; closed = conn ∷ s.closed }

-- A new connection, or the end of a thread, which may stand anywhere among the others.
pub data ServerStep : AlarmServer → AlarmServer → Type 0 where
  connect : (conn : ℕ) (starts : Bool) (s : AlarmServer) → ServerStep s (serve conn starts s).1
  ended :
      (conn : ℕ) (before after : List ℕ) (s : AlarmServer)
      → s.threads ≡ before ++ conn ∷ after
      → ServerStep s (finish conn (before ++ after) s)

pub data Serves (s : AlarmServer) : AlarmServer → Type 0 where
  idle : Serves s s
  later : {t u : AlarmServer} → Serves s t → ServerStep t u → Serves s u
