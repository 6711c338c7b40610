-- ===== src/Protocol/Returns.antt =====
-- `scan_nvr` (protocol.py) as a whole: it returns, and its results are sound.
use mathlib.Core.Path.{subst}
use pytvt.Prelude.{◌≡◌, refl, ap, String, Option, none, some, List}
use pytvt.Prelude.Bytes.{Bytes}
use pytvt.Protocol.{InitInfo, parse_init, make_login_data}
use pytvt.Protocol.Socket.{Failure, Incoming, recv_packet}
use pytvt.Protocol.Cameras.{extract_cameras}
use pytvt.Prelude.Json.{Json}
use pytvt.Protocol.Steps.{
  NvrScan, ScanLibraries, ScanStep, done, stops, returned, raised, value_error, out_of_fuel,
  undecodable, receive, no_init_packet, new_scan,
}
use pytvt.Protocol.Scan.{
  ScanEnd, gives, escapes, hangs, exchange, checked_init, ended, scan_start, scan_nvr,
}
use pytvt.Protocol.Endings.{recv_packet-Steady}
use pytvt.Protocol.Outcomes.{
  IsSound, IsFresh, fresh-IsSound, Ends, Runs, Runs-bind, Runs-receive, Runs-checked,
}
use pytvt.Protocol.Results.{after_init-Ends}

exchange-Ends :
    (V : Type 0) (lib : ScanLibraries) (username password : String)
    → ((v : Json) → extract_cameras lib.texts v ≡ none → V)
    → ((bs : Bytes) → lib.loads bs ≡ undecodable → V)
    → ((info : Option InitInfo) → make_login_data lib.digests username password info ≡ none → V)
    → Runs V IsFresh (exchange lib username password) IsSound
unfolding exchange
exchange-Ends V lib username password texts loads login =
    Runs-bind V IsFresh IsFresh IsSound (receive recv_packet) _
      (Runs-receive V IsFresh recv_packet fresh-IsSound recv_packet-Steady)
      (λ init.
        Runs-bind V IsFresh IsFresh IsSound (checked_init init) _
          (Runs-checked V _ (no_init_packet _))
          (λ _.
            after_init-Ends V lib texts loads username password (parse_init init.1)
              (login (parse_init init.1))))

new_scan-IsFresh : IsFresh new_scan
new_scan-IsFresh = record { no_success = refl; no_cameras = refl }

result_of : NvrScan → ScanEnd → NvrScan
result_of r (gives x) = x
result_of r escapes = r
result_of r hangs = r

-- The result, where there is one.
ended-IsSound :
    (t : ScanStep (Unit {0})) {r : NvrScan}
    → Ends (Unit {0}) IsSound t
    → ended t ≡ gives r
    → IsSound r
unfolding result_of
ended-IsSound (done a s) {r} h e = subst IsSound (ap (result_of r) e) h
ended-IsSound (stops returned s) {r} h e = subst IsSound (ap (result_of r) e) h.0
ended-IsSound (stops (raised x) s) {r} h e =
    subst IsSound (ap (result_of r) e)
      (record { cameras_succeed = h.0.cameras_succeed; success_shows = h.0.success_shows })
ended-IsSound (stops value_error s) h e = cc
ended-IsSound (stops out_of_fuel s) h e = cc

-- Every result that `scan_nvr` returns is sound: cameras stand only in a result that says success,
-- and one that says success has cameras or what the answer to the login said. This holds for all
-- answers of the socket and of the libraries.
pub scan_nvr-IsSound :
    (lib : ScanLibraries) (username password : String) (connect : Option Failure)
    (incoming : List Incoming) (answers : List (Option Failure)) {r : NvrScan}
    → scan_nvr lib username password connect incoming answers ≡ gives r
    → IsSound r
unfolding scan_nvr
scan_nvr-IsSound lib username password (some e) incoming answers h =
    ended-IsSound (stops (raised e) (scan_start incoming answers))
      (fresh-IsSound new_scan new_scan-IsFresh, tt) h
scan_nvr-IsSound lib username password none incoming answers h =
    ended-IsSound (exchange lib username password (scan_start incoming answers))
      (exchange-Ends (Unit {0}) lib username password (λ v e. tt) (λ bs e. tt) (λ info e. tt)
        (scan_start incoming answers) new_scan-IsFresh)
      h
