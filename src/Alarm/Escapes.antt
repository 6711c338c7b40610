-- ===== src/Alarm/Escapes.antt =====
-- Which exceptions leave the two parsers of payloads (alarm_protocol.py).
use text.Mathlib.TextEquality.{eq_iff}
use pytvt.Prelude.{
  ℕ, ◌≡◌, refl, ◌∙◌, ap, String, Bool, true, false, not, ◌&&◌, ◌||◌, inl, inr, Option, none, some,
  List, [], ◌∷◌, ltb, str_eq, length, Bool-cases,
}
use pytvt.Prelude.Bytes.{Bytes, ascii}
use pytvt.Prelude.Dict.{Dict}
use pytvt.Prelude.Int.{pos, negsuc}
use pytvt.Alarm.{
  Format, object, value, EventCode, Dialect, ipc, nvr, Converted, converted, refused, overflow,
  StatusEntry, XmlDetail, Element, Libraries, Loaded, loaded, not_json, unloadable,
}
use pytvt.Alarm.Json.{
  first_of, text_of, int_of, info_of_code, classified, classified_frame, loaded_frame,
  parse_json_payload,
}
use pytvt.Alarm.Tree.{tag_of, children_of, has_bytes}
use pytvt.Alarm.Xml.{
  Tally, max_frame_size, at_least_one, display_of, id_of, nvr_entry, status_entry, status_code,
  nodes_of, tallied, and_then, add_nodes, add_elements, finished, detail_of, parts_frame,
  document_parts, root_frame, parse_xml_payload,
}

-- The call does not return: an exception leaves it.
abbrev pub is_none : {A : Type 0} → Option A → Bool
is_none none = true
is_none (some a) = false

abbrev any : {A : Type 0} → (A → Bool) → List A → Bool
any p [] = false
any p (x ∷ xs) = let rest = any p xs in p x || rest

abbrev overflows : Converted → Bool
overflows overflow = true
overflows refused = false
overflows (converted n) = false

-- The type of an alarm, of the two that the parser knows.
abbrev is_alarm : String → Bool
is_alarm kind = str_eq kind "alarm" || str_eq kind "event"

module _ {V : Type 0} (lib : Libraries V) where
  -- `int` of the alarm code of an object overflows.
  abbrev code_overflows : Dict V → Bool
  code_overflows payload =
      is_alarm (lib.lower (text_of lib (first_of ("type" ∷ "Type" ∷ []) payload)))
      && overflows (int_of lib (first_of ("alarm_type" ∷ "alarmType" ∷ "AlarmType" ∷ []) payload))

  -- `json.loads` raises what is not caught, or gives an alarm whose code overflows.
  abbrev pub json_escapes : Loaded V → Bool
  json_escapes unloadable = true
  json_escapes not_json = false
  json_escapes (loaded (value v)) = false
  json_escapes (loaded (object payload)) = code_overflows payload

  info_of_code-is_none :
      (v : Option V) (c : Converted) → is_none (info_of_code lib v c) ≡ overflows c
  info_of_code-is_none v (converted (pos n)) = refl
  info_of_code-is_none v (converted (negsuc n)) = refl
  info_of_code-is_none v refused = refl
  info_of_code-is_none v overflow = refl

  classified-is_none :
      (kind : String) (payload : Dict V)
      → is_none (classified lib kind payload) ≡ (
          is_alarm kind
          && overflows
              (int_of lib (first_of ("alarm_type" ∷ "alarmType" ∷ "AlarmType" ∷ []) payload)))
  unfolding classified
  classified-is_none kind payload = elim (Bool-cases (str_eq kind "alarm")) [
    | inl a ↦ rw ((eq_iff kind "alarm").0 a) (info_of_code-is_none _ _)
    | inr a ↦ elim (Bool-cases (str_eq kind "event")) [
      | inl b ↦ rw ((eq_iff kind "event").0 b) (info_of_code-is_none _ _)
      | inr b ↦
          elim (Bool-cases
            (str_eq kind "heartbeat" || str_eq kind "keepalive" || str_eq kind "keep_alive")) [
              | inl c ↦ simp (a, b, c) refl
              | inr c ↦ elim (Bool-cases (str_eq kind "")) [
                | inl d ↦ simp (a, b, c, d) refl
                | inr d ↦ simp (a, b, c, d) refl
              ]
            ]
    ]
  ]

  classified_frame-is_none :
      (format : Format) (payload : Dict V) (code : Option (EventCode V × String))
      → is_none (classified_frame lib format payload code) ≡ is_none code
  classified_frame-is_none format payload none = refl
  classified_frame-is_none format payload (some code) = refl

  loaded_frame-is_none :
      (format : Format) (raw : Bytes) (r : Loaded V)
      → is_none (loaded_frame lib format raw r) ≡ json_escapes r
  unfolding loaded_frame
  loaded_frame-is_none format raw unloadable = refl
  loaded_frame-is_none format raw not_json = refl
  loaded_frame-is_none format raw (loaded (value v)) = refl
  loaded_frame-is_none format raw (loaded (object payload)) =
      classified_frame-is_none format payload _ ∙ classified-is_none _ payload

  pub parse_json_payload-is_none :
      (format : Format) (raw : Bytes)
      → is_none (parse_json_payload lib format raw) ≡ json_escapes (lib.loads raw)
  unfolding parse_json_payload
  parse_json_payload-is_none format raw = loaded_frame-is_none format raw (lib.loads raw)

  -- A recorder's entry with an id of digits that `int` refuses.
  abbrev unread : Dialect → Element → Bool
  unread ipc e = false
  unread nvr e = lib.is_digits (id_of lib e) && is_none (lib.digits_value (id_of lib e))

  -- One of the status elements has such an entry.
  abbrev status_escapes : Dialect → Option Element → Bool
  status_escapes dialect none = false
  status_escapes dialect (some status) =
      any (λ e. any (unread dialect) (nodes_of lib e)) (children_of status)

  abbrev root_escapes : Option Element → Bool
  root_escapes none = false
  root_escapes (some root) = let parts = document_parts lib root in status_escapes parts.2 parts.0

  abbrev refused_unread : Bytes → Bool
  refused_unread raw =
      ltb max_frame_size (length raw)
      || (has_bytes (ascii "<!DOCTYPE") raw || has_bytes (ascii "<!ENTITY") raw)

  -- The document is read, and one of its status elements has such an entry.
  abbrev pub xml_escapes : Bytes → Bool
  xml_escapes raw = not (refused_unread raw) && root_escapes (lib.from_xml raw)

  at_least_one-is_none : (n : Option ℕ) → is_none (at_least_one lib n) ≡ is_none n
  at_least_one-is_none none = refl
  at_least_one-is_none (some n) = refl

  display_of-is_none :
      (raw_id : String)
      → is_none (display_of lib raw_id)
        ≡ (lib.is_digits raw_id && is_none (lib.digits_value raw_id))
  display_of-is_none raw_id = elim (Bool-cases (lib.is_digits raw_id)) [
    | inl e ↦ simp e (at_least_one-is_none (lib.digits_value raw_id))
    | inr e ↦ simp e refl
  ]

  nvr_entry-is_none :
      (element : String) (code : EventCode V) (e : Element) (display : Option (Option ℕ))
      → is_none (nvr_entry lib element code e display) ≡ is_none display
  nvr_entry-is_none element code e none = refl
  nvr_entry-is_none element code e (some display) = refl

  status_entry-is_none :
      (element : String) (code : EventCode V) (e : Element) (dialect : Dialect)
      → is_none (status_entry lib element code e dialect) ≡ unread dialect e
  unfolding status_entry
  status_entry-is_none element code e ipc = refl
  status_entry-is_none element code e nvr =
      nvr_entry-is_none element code e (display_of lib (id_of lib e))
      ∙ display_of-is_none (id_of lib e)

  tallied-is_none :
      (e : Element) (entry : Option (StatusEntry V)) (tally : Tally lib)
      → is_none (tallied lib e entry tally) ≡ is_none entry
  tallied-is_none e none tally = refl
  tallied-is_none e (some entry) (active, cleared) = refl

  and_then-is_none :
      (o : Option (Tally lib)) (f : Tally lib → Option (Tally lib)) (b : Bool)
      → ((t : Tally lib) → is_none (f t) ≡ b)
      → is_none (and_then lib o f) ≡ (is_none o || b)
  and_then-is_none none f b h = refl
  and_then-is_none (some t) f b h = h t

  -- Whether a loop lets an exception out does not depend on what it has added up before.
  add_nodes-is_none :
      (name : String) (dialect : Dialect) (es : List Element) (tally : Tally lib)
      → is_none (add_nodes lib name dialect es tally) ≡ any (unread dialect) es
  unfolding add_nodes
  add_nodes-is_none name dialect [] tally = refl
  add_nodes-is_none name dialect (e ∷ es) tally =
      and_then-is_none _ (add_nodes lib name dialect es) (any (unread dialect) es)
        (add_nodes-is_none name dialect es)
      ∙ ap (λ b. b || any (unread dialect) es)
          (tallied-is_none e _ tally ∙ status_entry-is_none name (status_code lib name) e dialect)

  add_elements-is_none :
      (dialect : Dialect) (es : List Element) (tally : Tally lib)
      → is_none (add_elements lib dialect es tally)
        ≡ any (λ e. any (unread dialect) (nodes_of lib e)) es
  unfolding add_elements
  add_elements-is_none dialect [] tally = refl
  add_elements-is_none dialect (e ∷ es) tally =
      and_then-is_none _ (add_elements lib dialect es)
        (any (λ e. any (unread dialect) (nodes_of lib e)) es) (add_elements-is_none dialect es)
      ∙ ap (λ b. b || any (λ e. any (unread dialect) (nodes_of lib e)) es)
          (add_nodes-is_none (tag_of e) dialect (nodes_of lib e) tally)

  finished-is_none :
      (format : Format) (detail : XmlDetail V) (tally : Option (Tally lib))
      → is_none (finished lib format detail tally) ≡ is_none tally
  finished-is_none format detail none = refl
  finished-is_none format detail (some tally) = refl

  parts_frame-is_none :
      (format : Format) (raw : Bytes) (root : Element) (status info : Option Element)
      (dialect : Dialect)
      → is_none (parts_frame lib format raw root status info dialect)
        ≡ status_escapes dialect status
  unfolding parts_frame
  parts_frame-is_none format raw root none none dialect = refl
  parts_frame-is_none format raw root none (some info) dialect = refl
  parts_frame-is_none format raw root (some status) info dialect =
      finished-is_none format (detail_of lib root info dialect) _
      ∙ add_elements-is_none dialect (children_of status) ([], [])

  root_frame-is_none :
      (format : Format) (raw : Bytes) (r : Option Element)
      → is_none (root_frame lib format raw r) ≡ root_escapes r
  unfolding root_frame
  root_frame-is_none format raw none = refl
  root_frame-is_none format raw (some root) =
      let parts = document_parts lib root in
      parts_frame-is_none format raw root parts.0 parts.1 parts.2

  pub parse_xml_payload-is_none :
      (format : Format) (raw : Bytes) → is_none (parse_xml_payload lib format raw) ≡ xml_escapes raw
  unfolding parse_xml_payload
  parse_xml_payload-is_none format raw = elim (Bool-cases (ltb max_frame_size (length raw))) [
    | inl a ↦ simp a refl
    | inr a ↦
        elim (Bool-cases (has_bytes (ascii "<!DOCTYPE") raw || has_bytes (ascii "<!ENTITY") raw)) [
          | inl b ↦ simp (a, b) refl
          | inr b ↦ simp (a, b) (root_frame-is_none format raw (lib.from_xml raw))
        ]
  ]
