-- ===== src/Protocol/Results.antt =====
-- That `scan_nvr` (protocol.py) returns, and that what it returns is sound.
use pytvt.Prelude.{
  ℕ, suc, ◌≡◌, refl, String, Bool, true, false, not, ◌&&◌, Option, none, some, List, [], ◌∷◌,
  is_empty, ltb, if◌then◌else◌, length, arith,
}
use pytvt.Protocol.{InitInfo, make_login_data}
use pytvt.Protocol.{cmd_http_reply, parse_http_response_body}
use pytvt.Prelude.Bytes.{Bytes, drop}
use pytvt.Protocol.Socket.{Packet, recv_packet}
use pytvt.Protocol.Cameras.{Camera, extract_cameras}
use pytvt.Prelude.Json.{Json}
use pytvt.Protocol.Steps.{
  NvrScan, ScanLibraries, Loaded, loaded, not_json, undecodable, send, receive, pure, ◌>>=◌,
  login_reply, weight, skip_acks, full_reply, is_command, update, no_ack, login_failed,
}
use pytvt.Protocol.Scan.{
  note_extracted, note_json, note_body, note_http, ask_path, tunnel, tunnel_unless, list_cameras,
  camera_paths, whole_reply, encoded_login, json_start, after_init, head_of, login_packet,
  checked_login, note_reply, note_missing, logout,
}
use pytvt.Protocol.Endings.{recv_packet-Steady, skip_acks-Leaves, full_reply-Steady}
use pytvt.Protocol.Outcomes.{
  IsSound, IsFresh, fresh-IsSound, Runs, Runs-bind, note_cameras-IsSound, note_missing-IsSound,
  note_reply-IsSound, received_step-Ends, Runs-receive, Runs-send, no_ack-Ends, ignored-Ends,
  Runs-checked,
}

module _ (V : Type 0) (lib : ScanLibraries)
    (texts_end : (v : Json) → extract_cameras lib.texts v ≡ none → V)
    (loads_end : (bs : Bytes) → lib.loads bs ≡ undecodable → V) where
  note_extracted-Ends :
      (o : Option (List Camera)) → (o ≡ none → V) → Runs V IsSound (note_extracted lib o) IsSound
  note_extracted-Ends none h s p = (p, h refl)
  note_extracted-Ends (some cs) h s p = note_cameras-IsSound V cs s.result p

  note_json-Ends :
      (path : String) (l : Loaded)
      → (l ≡ undecodable → V)
      → Runs V IsSound (note_json lib path l) IsSound
  note_json-Ends path (loaded v) h s p =
      note_extracted-Ends (extract_cameras lib.texts v) (texts_end v) _
        (record { cameras_succeed = p.cameras_succeed; success_shows = p.success_shows })
  note_json-Ends path not_json h s p = p
  note_json-Ends path undecodable h s p = (p, h refl)

  note_body-Ends :
      (path : String) (body : Bytes) (n : Option ℕ)
      → Runs V IsSound (note_body lib path body n) IsSound
  note_body-Ends path body none s p = p
  note_body-Ends path body (some n) s p =
      note_json-Ends path (lib.loads (drop n body)) (loads_end (drop n body)) s p

  note_http-Ends : (path : String) (p : Packet) → Runs V IsSound (note_http lib path p) IsSound
  note_http-Ends path p = choose (is_command cmd_http_reply p.0 && not (is_empty p.1))
    where
      body : Bytes
      body = parse_http_response_body p.1

      choose :
          (b : Bool)
          → Runs V IsSound
              (if b then note_body lib path body (json_start body) else pure tt)
              IsSound
      choose true s q = note_body-Ends path body (json_start body) s q
      choose false s q = q

  ask_path-Ends : (path : String) (i : ℕ) → Runs V IsSound (ask_path lib path i) IsSound
  ask_path-Ends path i =
      Runs-bind V IsSound IsSound IsSound (send _) (λ _. receive recv_packet >>= note_http lib path)
        (Runs-send V IsSound _ (λ r h. h))
        (λ _.
          Runs-bind V IsSound IsSound IsSound (receive recv_packet) (note_http lib path)
            (Runs-receive V IsSound recv_packet (λ r h. h) recv_packet-Steady)
            (note_http-Ends path))

  tunnel-Ends : (i : ℕ) (paths : List String) → Runs V IsSound (tunnel lib i paths) IsSound
  unfolding tunnel
  tunnel-Ends i [] s p = p
  tunnel-Ends i (path ∷ paths) s p =
      Runs-bind V IsSound IsSound IsSound (ask_path lib path i) (λ _. tunnel lib (suc i) paths)
        (ask_path-Ends path i) (λ _. tunnel-Ends (suc i) paths) s p

  list_cameras-Ends : (head : Bool) → Runs V IsSound (list_cameras lib head) IsSound
  list_cameras-Ends head s p = choose (head && not (is_empty s.result.cameras)) s p
    where
      choose : (b : Bool) → Runs V IsSound (tunnel_unless lib b) IsSound
      choose true s' q = q
      choose false s' q = tunnel-Ends 1 camera_paths s' q

  login_reply-Ends : Runs V IsFresh login_reply IsFresh
  login_reply-Ends s f =
      received_step-Ends V IsFresh s (skip_acks (suc (weight s.incoming)) s.incoming)
        (weight s.incoming) (skip_acks-Leaves (suc (weight s.incoming)) s.incoming (omega arith))
        (fresh-IsSound s.result) f

  whole_reply-Ends : (head : Bool) (p : Packet) → Runs V IsFresh (whole_reply head p) IsFresh
  whole_reply-Ends head p = choose (head && ltb (length p.1) 100)
    where
      choose : (b : Bool) → Runs V IsFresh (if b then receive (full_reply 20 p) else pure p) IsFresh
      choose true s f =
          Runs-receive V IsFresh (full_reply 20 p) fresh-IsSound (full_reply-Steady 20 p) s f
      choose false s f = f

  encoded_login-Ends :
      (o : Option Bytes) → (o ≡ none → V) → Runs V IsFresh (encoded_login o) IsFresh
  encoded_login-Ends none h s f = (fresh-IsSound s.result f, h refl)
  encoded_login-Ends (some bs) h s f = f

  logout-Ends : Runs V IsSound logout IsSound
  logout-Ends s h = ignored-Ends V _ s s.send_answers h

  update-Ends :
      (P Q : NvrScan → Type 0) (f : NvrScan → NvrScan)
      → ((r : NvrScan) → P r → Q (f r))
      → Runs V P (update f) Q
  update-Ends P Q f h s p = h s.result p

  pub after_init-Ends :
      (username password : String) (info : Option InitInfo)
      → (make_login_data lib.digests username password info ≡ none → V)
      → Runs V IsFresh (after_init lib username password info) IsSound
  after_init-Ends username password info h =
      let head = head_of info in
      let F : NvrScan → Type 0 = IsFresh in
      let G : NvrScan → Type 0 = IsSound in
      Runs-bind V F F G (λ s. no_ack (receive recv_packet s)) _
        (λ s f.
          no_ack-Ends V s (recv_packet s.incoming) (weight s.incoming)
            (recv_packet-Steady s.incoming) f)
        (λ _.
          Runs-bind V F F G (encoded_login (make_login_data lib.digests username password info)) _
            (encoded_login-Ends _ h)
            (λ bs.
              Runs-bind V F F G (send (login_packet head bs)) _ (Runs-send V F _ fresh-IsSound)
                (λ _. Runs-bind V F F G login_reply _ login_reply-Ends (λ first.
                  Runs-bind V F F G (checked_login first) _ (Runs-checked V _ login_failed) (λ _.
                    Runs-bind V F F G (whole_reply head first) _ (whole_reply-Ends head first)
                      (λ reply.
                        Runs-bind V F G G (update (note_reply head reply)) _
                          (update-Ends F G (note_reply head reply)
                            (note_reply-IsSound V head reply))
                          (λ _.
                            Runs-bind V G G G (list_cameras lib head) _ (list_cameras-Ends head)
                              (λ _.
                                Runs-bind V G G G (update note_missing) _
                                  (update-Ends G G note_missing (note_missing-IsSound V))
                                  (λ _. logout-Ends)))))))))
