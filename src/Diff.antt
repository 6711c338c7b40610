-- ===== src/Diff.antt =====
-- The comparison of two inventories (diff.py) with the scan results that it reads (models.py). `str`
-- of a number, `str.strip`, `str.zfill` and the order of texts are the standard library's.
pub mod Scans
pub mod Counts
pub mod Unkeyed
use pytvt.Prelude.{
  ℕ, ◌+◌, String, Bool, true, false, not, ◌&&◌, ◌||◌, Option, none, some, List, [], ◌∷◌, ◌==◌,
  str_eq, eq_iff, if◌then◌else◌, length, is_empty, filter, count_if, map, ◌≡◌, ◌↔◌, refl, ap, arith,
  Bool-cases, inl, inr,
}
use pytvt.Prelude.Int.{ℤ, pos, negsuc}
use pytvt.Prelude.Keyed.{Eq, has, keys_of, sort_items, store, assign_all, value_or}

-- A channel of a camera, `int | str`.
pub data ChannelKey : Type 0 where
  number : ℤ → ChannelKey
  label : String → ChannelKey

-- A value of a compared field, `str | int | bool | None`.
pub data Value : Type 0 where
  str : String → Value
  int : ℤ → Value
  flag : Bool → Value
  nothing : Value

abbrev pub int_eq : ℤ → ℤ → Bool
int_eq (pos m) (pos n) = m == n
int_eq (negsuc m) (negsuc n) = m == n
int_eq (pos m) (negsuc n) = false
int_eq (negsuc m) (pos n) = false

abbrev pub int_of_flag : Bool → ℤ
int_of_flag b = pos (if b then 1 else 0)

abbrev pub option_eq : Option String → Option String → Bool
option_eq none none = true
option_eq (some s) (some t) = str_eq s t
option_eq none (some t) = false
option_eq (some s) none = false

-- `CameraInfo`, with `id(cam)`.
pub record CameraInfo : Type 0 where
  pub identity : ℕ
  pub channel : ChannelKey
  pub name : String
  pub address : String
  pub port : ChannelKey
  pub status : String
  pub protocol : String
  pub model : String

-- `ScanResult`, less what no comparison reads.
pub record ScanResult : Type 0 where
  pub site : String
  pub hostname : String
  pub nvr_ip : String
  pub success : Bool
  pub device_name : String
  pub device_model : String
  pub serial_number : String
  pub firmware : String
  pub total_channels : ℤ
  pub cameras : List CameraInfo
  pub error : Option String
  pub backend : String

pub record FieldChange : Type 0 where
  pub field : String
  pub old : Value
  pub new : Value

-- `status` of a difference.
pub data DiffStatus : Type 0 where
  added removed changed unchanged : DiffStatus

pub record CameraDiff : Type 0 where
  pub channel : ChannelKey
  pub name : String
  pub status : DiffStatus
  pub changes : List FieldChange

pub record DeviceDiff : Type 0 where
  pub nvr_ip : String
  pub site : String
  pub hostname : String
  pub status : DiffStatus
  pub field_changes : List FieldChange
  pub cameras_added : List CameraDiff
  pub cameras_removed : List CameraDiff
  pub cameras_changed : List CameraDiff
  pub camera_count_old : ℕ
  pub camera_count_new : ℕ

pub record ScanDiff : Type 0 where
  pub old_file : String
  pub new_file : String
  pub old_device_count : ℕ
  pub new_device_count : ℕ
  pub devices_added : List DeviceDiff
  pub devices_removed : List DeviceDiff
  pub devices_changed : List DeviceDiff
  pub unchanged_count : ℕ

-- `ScanDiff.has_changes`
unfoldable pub has_changes : ScanDiff → Bool
has_changes d =
    not (is_empty d.devices_added)
    || (not (is_empty d.devices_removed) || not (is_empty d.devices_changed))

-- `str.strip`, `str(n)`, `s.zfill(10)`, and `s <= t` on texts.
pub record TextLibrary : Type 0 where
  pub strip : String → String
  pub int_text : ℤ → String
  pub zfill_10 : String → String
  pub text_le : String → String → Bool

unfoldable pub channel_eq : ChannelKey → ChannelKey → Bool
channel_eq (number m) (number n) = int_eq m n
channel_eq (label s) (label t) = str_eq s t
channel_eq (number m) (label t) = false
channel_eq (label s) (number n) = false

pub int_eq_iff : (m n : ℤ) → (int_eq m n ≡ true) ↔ (m ≡ n)
int_eq_iff (pos m) (pos n) = (λ h. ap pos (ground arith), λ h. ground arith)
int_eq_iff (negsuc m) (negsuc n) = (λ h. ap negsuc (ground arith), λ h. ground arith)
int_eq_iff (pos m) (negsuc n) = (λ h. cc, λ h. cc)
int_eq_iff (negsuc m) (pos n) = (λ h. cc, λ h. cc)

pub channel_eq_iff : (a b : ChannelKey) → (channel_eq a b ≡ true) ↔ (a ≡ b)
unfolding channel_eq
channel_eq_iff (number m) (number n) =
    (λ h. ap number ((int_eq_iff m n).0 h), λ h. (int_eq_iff m n).1 (number-injective h))
  where
    number-injective : {m n : ℤ} → number m ≡ number n → m ≡ n
    number-injective h = cc
channel_eq_iff (label s) (label t) =
    (λ h. ap label ((eq_iff s t).0 h), λ h. (eq_iff s t).1 (label-injective h))
  where
    label-injective : {s t : String} → label s ≡ label t → s ≡ t
    label-injective h = cc
channel_eq_iff (number m) (label t) = (λ h. cc, λ h. cc)
channel_eq_iff (label s) (number n) = (λ h. cc, λ h. cc)

instance abbrev pub channel_key_eq : Eq ChannelKey
channel_key_eq = record { beq = channel_eq; beq_iff = channel_eq_iff }

instance abbrev pub ip_eq : Eq String
ip_eq = record { beq = str_eq; beq_iff = eq_iff }
