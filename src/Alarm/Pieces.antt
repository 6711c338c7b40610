-- ===== src/Alarm/Pieces.antt =====
-- The frames of one status push, one for each active alarm.
use mathlib.Core.List.{append-nil}
use pytvt.Prelude.{
  ◌≤◌, ◌≡◌, refl, ◌∙◌, ap, true, inl, inr, List, [], ◌∷◌, ◌++◌, ltb, length, All, Bool-cases, arith,
}
use pytvt.Alarm.{
  StatusEntry, XmlDetail, Detail, nothing, dump, hex, json_detail, binary_detail, xml_detail,
  xml_unknown, ParsedAlarmFrame, Libraries,
}
use pytvt.Alarm.Split.{singles, is_xml, split_detail, split_alarm_frame}

module _ {V : Type 0} (lib : Libraries V) where
  abbrev pub active_of : Detail V → List (StatusEntry V)
  active_of (xml_detail detail) = detail.active_alarms
  active_of _ = []

  abbrev pub all_active : List (ParsedAlarmFrame V) → List (StatusEntry V)
  all_active [] = []
  all_active (f ∷ fs) = active_of f.parsed ++ all_active fs

  -- A frame from the same device in the same format, with at most one active alarm.
  pub record IsPiece (f p : ParsedAlarmFrame V) : Type 0 where
    pub device : p.device_id ≡ f.device_id
    pub format : p.parse_format ≡ f.parse_format
    pub few : length (active_of p.parsed) ≤ 1

  singles-pieces :
      (f : ParsedAlarmFrame V) (detail : XmlDetail V) (alarms : List (StatusEntry V))
      → (all_active (singles lib f detail alarms) ≡ alarms)
        × All (IsPiece f) (singles lib f detail alarms)
  singles-pieces f detail [] = (refl, tt)
  singles-pieces f detail (a ∷ alarms) =
      let r = singles-pieces f detail alarms in
      (ap (λ l. a ∷ l) r.0, (record { device = refl; format = refl; few = omega arith }, r.1))

  -- A frame that is not split.
  whole-pieces :
      (f : ParsedAlarmFrame V) {d : Detail V}
      → f.parsed ≡ d
      → length (active_of d) ≤ 1
      → (all_active (f ∷ []) ≡ active_of d) × All (IsPiece f) (f ∷ [])
  whole-pieces f e n = (
    append-nil (active_of f.parsed) ∙ ap active_of e,
    (
      record {
        device = refl;
        format = refl;
        few = omega (arith, n, ap (λ d. length (active_of d)) e);
      },
      tt,
    ),
  )

  split_detail-pieces :
      (f : ParsedAlarmFrame V) (detail : Detail V)
      → f.parsed ≡ detail
      → (all_active (split_detail lib f detail) ≡ active_of detail)
        × All (IsPiece f) (split_detail lib f detail)
  split_detail-pieces f (xml_detail detail) e =
      elim (Bool-cases (ltb (length detail.active_alarms) 2)) [
        | inl b ↦ simp b (whole-pieces f e (ground arith))
        | inr b ↦ simp b (singles-pieces f detail detail.active_alarms)
      ]
  split_detail-pieces f nothing e = whole-pieces f e (omega arith)
  split_detail-pieces f (dump _) e = whole-pieces f e (omega arith)
  split_detail-pieces f (hex _) e = whole-pieces f e (omega arith)
  split_detail-pieces f (json_detail _) e = whole-pieces f e (omega arith)
  split_detail-pieces f (binary_detail _) e = whole-pieces f e (omega arith)
  split_detail-pieces f (xml_unknown _ _ _) e = whole-pieces f e (omega arith)

  -- An XML frame is split into frames of its device and format with at most one active alarm each,
  -- and their alarms, one frame after the other, are those of the frame.
  pub split_alarm_frame-pieces :
      (f : ParsedAlarmFrame V)
      → is_xml f.parse_format ≡ true
      → (all_active (split_alarm_frame lib f) ≡ active_of f.parsed)
        × All (IsPiece f) (split_alarm_frame lib f)
  unfolding split_alarm_frame
  split_alarm_frame-pieces f x = simp x (split_detail-pieces f f.parsed refl)
