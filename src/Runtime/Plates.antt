-- ===== src/Runtime/Plates.antt =====
-- What the runtime's answers about a plate stream are checked for (runtime_client.py). An event is
-- kept as the checked values of its JSON; `none` is the error of an invalid answer.
pub mod Event
use pytvt.Prelude.{
  ℕ, zero, suc, String, Bool, true, false, not, ◌&&◌, ◌||◌, Option, none, some, List, [], ◌∷◌, ltb,
  leb, ◌==◌, str_eq, if◌then◌else◌, length, is_empty,
}
use pytvt.Prelude.Int.{ℤ, pos, negsuc}
use pytvt.Prelude.Json.{
  Json, text, num, real, flag, null, array, object, Items, no_items, item, Members, no_members,
  member, get_member, require, list_of,
}
use pytvt.Runtime.{
  max_runtime_plate_channels, max_runtime_delivery_sequence, RuntimeLibraries, equals_number,
  equals_text,
}

infixl 5 ◌>>=◌ ◌>>◌
abbrev pub ◌>>=◌ {ℓ κ} : {A : Type ℓ} {B : Type κ} → Option A → (A → Option B) → Option B
none >>= f = none
some a >>= f = f a

abbrev pub ◌>>◌ {ℓ} : {B : Type ℓ} → Option (Unit {0}) → Option B → Option B
m >> k = m >>= λ _. k

abbrev pub ensure : Bool → Option (Unit {0})
ensure true = some tt
ensure false = none

-- `len(s)`
abbrev pub text_length : String → ℕ
text_length String.[] = 0
text_length (String.◌∷◌ c s) = suc (text_length s)

-- `_required_nonnegative_int`
unfoldable pub required_nonnegative_int : Json → Option ℕ
required_nonnegative_int (num (pos n)) = some n
required_nonnegative_int (num (negsuc n)) = none
required_nonnegative_int (real b s) = none
required_nonnegative_int (flag b) = none
required_nonnegative_int (text s) = none
required_nonnegative_int null = none
required_nonnegative_int (array xs) = none
required_nonnegative_int (object d) = none

abbrev pub some_of {ℓ} : {A : Type ℓ} → Option A → Option (Option A)
some_of none = none
some_of (some a) = some (some a)

-- `None` or what a parser gives.
abbrev pub optional_value {ℓ} : {A : Type ℓ} → (Json → Option A) → Json → Option (Option A)
optional_value f null = some none
optional_value f (num i) = some_of (f (num i))
optional_value f (real b s) = some_of (f (real b s))
optional_value f (flag b) = some_of (f (flag b))
optional_value f (text s) = some_of (f (text s))
optional_value f (array xs) = some_of (f (array xs))
optional_value f (object d) = some_of (f (object d))

abbrev pub the_object : Json → Option Members
the_object (object d) = some d
the_object other = none

abbrev pub the_list : Json → Option (List Json)
the_list (array xs) = some (list_of xs)
the_list other = none

abbrev pub the_text : Json → Option String
the_text (text s) = some s
the_text other = none

abbrev pub the_flag : Json → Option Bool
the_flag (flag b) = some b
the_flag other = none

-- A text of at most `n` characters.
abbrev pub text_within : ℕ → Json → Option String
text_within n v = do s ← the_text v; ensure (leb (text_length s) n); some s

abbrev pub number_within : ℕ → Json → Option ℕ
number_within n v = do i ← required_nonnegative_int v; ensure (leb i n); some i

-- All results, or none.
abbrev pub cons_some {ℓ} : {A : Type ℓ} → Option A → Option (List A) → Option (List A)
cons_some none more = none
cons_some (some a) none = none
cons_some (some a) (some more) = some (a ∷ more)

unfoldable pub parse_all {ℓ} : {A : Type ℓ} → (Json → Option A) → List Json → Option (List A)
parse_all f [] = some []
parse_all f (v ∷ vs) = cons_some (f v) (parse_all f vs)

-- `_parse_plate_stats`
pub record PlateStats : Type 0 where
  pub callbacks_received : ℕ
  pub events_parsed : ℕ
  pub events_dropped : ℕ
  pub malformed_payloads : ℕ
  pub rejected_callbacks : ℕ
  pub ignored_commands : ℕ
  pub buffered_events : ℕ
  pub buffered_image_bytes : ℕ
  pub last_error : Option String

abbrev pub number_at : String → Members → Option ℕ
number_at k d = require k d >>= required_nonnegative_int

unfoldable pub parse_plate_stats : Json → Option PlateStats
unfolding required_nonnegative_int
parse_plate_stats v = do
  d ← the_object v
  callbacks ← number_at "callbacks_received" d
  parsed ← number_at "events_parsed" d
  dropped ← number_at "events_dropped" d
  malformed ← number_at "malformed_payloads" d
  rejected ← number_at "rejected_callbacks" d
  ignored ← number_at "ignored_commands" d
  buffered ← number_at "buffered_events" d
  bytes ← number_at "buffered_image_bytes" d
  raw_error ← require "last_error" d
  last ← optional_value (text_within 500) raw_error
  some (record {
    callbacks_received = callbacks;
    events_parsed = parsed;
    events_dropped = dropped;
    malformed_payloads = malformed;
    rejected_callbacks = rejected;
    ignored_commands = ignored;
    buffered_events = buffered;
    buffered_image_bytes = bytes;
    last_error = last;
  })

-- A value of an enumeration of texts, such as `PlateSource`.
abbrev pub is_among : String → List String → Bool
is_among s [] = false
is_among s (t ∷ ts) = let rest = is_among s ts in if str_eq s t then true else rest

abbrev pub enum_text : List String → Json → Option String
enum_text values v = do s ← the_text v; ensure (is_among s values); some s
