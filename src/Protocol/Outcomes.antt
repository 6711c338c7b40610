-- ===== src/Protocol/Outcomes.antt =====
-- What the result of `scan_nvr` (protocol.py) can be, on every path through the exchange.
use pytvt.Prelude.{
  ℕ, ◌≡◌, refl, Bool, true, false, not, ◌&&◌, ◌||◌, Option, none, some, List, [], ◌∷◌, ltb,
  if◌then◌else◌, length, is_empty, arith,
}
use pytvt.Prelude.Bytes.{Bytes}
use pytvt.Protocol.{cmd_reply_login_succ, cmd_head_login_succ}
use pytvt.Protocol.Socket.{
  Failure, Inbound, got, failed, stuck, Reader, Packet, timed_out, connection_refused,
  connection_error, os_error,
}
use pytvt.Protocol.Login.{LoginInfo, HeadInfo, parse_login_response, parse_login_response_head}
use pytvt.Protocol.Cameras.{Camera}
use pytvt.Protocol.Steps.{
  NvrScan, head_info, is_command, ScanError, ScanState, Stop, returned, raised, value_error,
  out_of_fuel, ScanStep, done, stops, Scan, then_scan, received_step, receive, sent_with, send,
  no_ack, weight, update, stop, pure, ◌>>◌,
}
use pytvt.Protocol.Scan.{
  note_login, note_head, note_reply, note_cameras, note_missing, has_info, ignored,
}
use pytvt.Protocol.Endings.{Leaves, Steady}

-- Cameras stand only in a result that says success, and success comes with cameras or with what the
-- answer to the login said.
pub record IsSound (r : NvrScan) : Type 0 where
  pub cameras_succeed : r.success ≡ false → is_empty r.cameras ≡ true
  pub success_shows :
      r.success ≡ true → (is_empty r.cameras && not (has_info r.device_info)) ≡ false

-- A result before the answer to the login.
pub record IsFresh (r : NvrScan) : Type 0 where
  pub no_success : r.success ≡ false
  pub no_cameras : is_empty r.cameras ≡ true

pub fresh-IsSound : (r : NvrScan) → IsFresh r → IsSound r
fresh-IsSound r f = record {
  cameras_succeed = λ h. f.no_cameras;
  success_shows = λ h. ground arith;
}

-- How the exchange may stop: with `V` for an exception of a library.
abbrev pub MayStop : Type 0 → Stop → Type 0
MayStop V returned = Unit
MayStop V (raised e) = Unit
MayStop V value_error = V
MayStop V out_of_fuel = ⊥

abbrev pub Ends {ℓ} : {A : Type ℓ} → Type 0 → (NvrScan → Type 0) → ScanStep A → Type 0
Ends V Q (done a s) = Q s.result
Ends V Q (stops e s) = IsSound s.result × MayStop V e

abbrev pub Runs {ℓ} :
    {A : Type ℓ} → Type 0 → (NvrScan → Type 0) → Scan A → (NvrScan → Type 0) → Type 0
Runs V P m Q = (s : ScanState) → P s.result → Ends V Q (m s)

module _ (V : Type 0) where
  pub Runs-bind {ℓ κ} :
      {A : Type ℓ} {B : Type κ} (P Q R : NvrScan → Type 0) (m : Scan A) (f : A → Scan B)
      → Runs V P m Q
      → ((a : A) → Runs V Q (f a) R)
      → Runs V P (λ s. then_scan (m s) f) R
  Runs-bind P Q R m f h k s p = after (m s) (h s p)
    where
      after : (t : ScanStep _) → Ends V Q t → Ends V R (then_scan t f)
      after (done a s') q = k a s' q
      after (stops e s') q = q

  note_login-IsSound :
      (info : Option LoginInfo) (r : NvrScan) → IsFresh r → IsSound (note_login info r)
  note_login-IsSound none r f = record {
    cameras_succeed = λ h. f.no_cameras;
    success_shows = λ h. ground arith;
  }
  note_login-IsSound (some info) r f = record {
    cameras_succeed = λ h. f.no_cameras;
    success_shows = λ h. ground arith;
  }

  pub note_cameras-IsSound :
      (cs : List Camera) (r : NvrScan) → IsSound r → IsSound (note_cameras cs r)
  note_cameras-IsSound [] r h = h
  note_cameras-IsSound (c ∷ cs) r h = record {
    cameras_succeed = λ e. cc;
    success_shows = λ e. refl;
  }

  pub note_missing-IsSound : (r : NvrScan) → IsSound r → IsSound (note_missing r)
  note_missing-IsSound r h = ground arith

  note_head-IsSound :
      (info : Option HeadInfo) (r : NvrScan) → IsFresh r → IsSound (note_head info r)
  note_head-IsSound none r f = record {
    cameras_succeed = λ h. f.no_cameras;
    success_shows = λ h. ground arith;
  }
  note_head-IsSound (some info) r f =
      note_cameras-IsSound info.cameras
        (record r { device_name = info.device_name; device_info = head_info info })
        (record { cameras_succeed = λ h. f.no_cameras; success_shows = λ h. ground arith })

  pub note_reply-IsSound :
      (head : Bool) (p : Packet) (r : NvrScan) → IsFresh r → IsSound (note_reply head p r)
  note_reply-IsSound head p r f =
      choose (is_command cmd_reply_login_succ p.0 || is_command cmd_head_login_succ p.0)
        (head && ltb 100 (length p.1))
    where
      choose :
          (a b : Bool)
          → IsSound (
              if a
              then note_login (parse_login_response p.1) r
              else if b
              then note_head (parse_login_response_head p.1) r
              else r)
      choose true b = note_login-IsSound (parse_login_response p.1) r f
      choose false true = note_head-IsSound (parse_login_response_head p.1) r f
      choose false false = fresh-IsSound r f

  pub received_step-Ends {ℓ} :
      {A : Type ℓ} (P : NvrScan → Type 0) (s : ScanState) (r : Inbound A) (w : ℕ)
      → Leaves w r
      → (P s.result → IsSound s.result)
      → P s.result
      → Ends V P (received_step s r)
  received_step-Ends P s (got a sock) w l f p = p
  received_step-Ends P s (failed e sock) w l f p = (f p, tt)
  received_step-Ends P s stuck w l f p = absurd l

  -- A reader, at a result that satisfies `P`.
  pub Runs-receive {ℓ} :
      {A : Type ℓ} (P : NvrScan → Type 0) (m : Reader A)
      → ((r : NvrScan) → P r → IsSound r)
      → Steady m
      → Runs V P (receive m) P
  Runs-receive P m f st s p =
      received_step-Ends P s (m s.incoming) (weight s.incoming) (st s.incoming) (f s.result) p

  sent_with-Ends :
      (P : NvrScan → Type 0) (bs : Bytes) (s : ScanState) (answers : List (Option Failure))
      → (P s.result → IsSound s.result)
      → P s.result
      → Ends V P (sent_with bs s answers)
  sent_with-Ends P bs s [] f p = p
  sent_with-Ends P bs s (none ∷ more) f p = p
  sent_with-Ends P bs s (some e ∷ more) f p = (f p, tt)

  pub Runs-send :
      (P : NvrScan → Type 0) (bs : Bytes) → ((r : NvrScan) → P r → IsSound r) → Runs V P (send bs) P
  Runs-send P bs f s p = sent_with-Ends P bs s s.send_answers (f s.result) p

  pub no_ack-Ends :
      (s : ScanState) (r : Inbound Packet) (w : ℕ)
      → Leaves w r
      → IsFresh s.result
      → Ends V IsFresh (no_ack (received_step s r))
  no_ack-Ends s (got a sock) w l f = f
  no_ack-Ends s (failed timed_out sock) w l f = f
  no_ack-Ends s (failed connection_refused sock) w l f = f
  no_ack-Ends s (failed connection_error sock) w l f = f
  no_ack-Ends s (failed os_error sock) w l f = (fresh-IsSound s.result f, tt)
  no_ack-Ends s stuck w l f = absurd l

  pub ignored-Ends :
      (bs : Bytes) (s : ScanState) (answers : List (Option Failure))
      → IsSound s.result
      → Ends V IsSound (ignored (sent_with bs s answers))
  ignored-Ends bs s [] h = h
  ignored-Ends bs s (none ∷ more) h = h
  ignored-Ends bs s (some e ∷ more) h = h

  pub Runs-checked :
      (b : Bool) (e : ScanError)
      → Runs {A = Unit {0}} V IsFresh
          (if b then (do update (λ r. record r { error = some e }); stop returned) else pure tt)
          IsFresh
  Runs-checked true e s f =
      (fresh-IsSound _ (record { no_success = f.no_success; no_cameras = f.no_cameras }), tt)
  Runs-checked false e s f = f
