-- ===== src/StatusLog.antt =====
-- The parser of the Status Log export (status_log.py). The regular expression, `strip`, `lower`,
-- `int`, `strptime` and the cutting of a text into lines are Python's.
pub mod Rows
pub mod Names
use Prim.Native.Char.{Char, code}
use pytvt.Prelude.{
  ℕ, String, Bool, true, false, not, ◌&&◌, ◌||◌, Option, none, some, List, [], ◌∷◌, leb, ltb, ◌==◌,
  str_eq, if◌then◌else◌,
}
use pytvt.Prelude.Dict.{Dict, get}
use pytvt.Prelude.Int.{ℤ}

pub data EntityLayer : Type 0 where
  channel recorder decoder platform_server : EntityLayer

pub data Transition : Type 0 where
  online offline : Transition

abbrev pub event_vocab : Dict (EntityLayer × Transition)
event_vocab =
    ("Monitor online", (channel, online))
    ∷ ("Monitor offline", (channel, offline))
    ∷ ("Encoding device online", (recorder, online))
    ∷ ("Encoding device offline", (recorder, offline))
    ∷ ("Decoder online", (decoder, online))
    ∷ ("Decoder offline", (decoder, offline))
    ∷ ("Server online", (platform_server, online))
    ∷ ("Server offline", (platform_server, offline))
    ∷ []

-- The four octets and the port of an endpoint, as texts.
pub record Endpoint : Type 0 where
  pub octets : List String
  pub port : String

-- `ip_port` gives the groups of a match of `_IP_PORT_RE`; `parse_int` and `parse_time` give `none`
-- for a `ValueError`.
pub record Python : Type 0 where
  pub strip : String → String
  pub lower : String → String
  pub ip_port : String → Option Endpoint
  pub digits : String → ℕ
  pub parse_int : String → Option ℤ
  pub parse_time : String → Option ℕ

abbrev pub deleted_node_sentinel : String
deleted_node_sentinel = "The node has been deleted"

pub record NodeIdentity : Type 0 where
  pub raw : String
  pub parent : Option String
  pub channel_label : Option String
  pub endpoint : Option Endpoint
  pub is_deleted_sentinel : Bool

abbrev pub is_underscore : ℕ → Bool
is_underscore c = c == 95

-- The step of `rpartition` at a character before the rest of the text.
abbrev pub partition_at : Char → String → Option (String × String) → Option (String × String)
partition_at c s (some (parent, label)) = some (String.◌∷◌ c parent, label)
partition_at c s none = if is_underscore (code c) then some (String.[], s) else none

-- `name.rpartition("_")`, with `none` where there is no underscore.
unfoldable pub rpartition : String → Option (String × String)
rpartition String.[] = none
rpartition (String.◌∷◌ c s) = partition_at c s (rpartition s)

-- `name or None`
abbrev pub or_none : String → Option String
or_none name = if str_eq name "" then none else some name

-- The layer of the recorders' cameras.
abbrev pub is_channel : Option EntityLayer → Bool
is_channel (some channel) = true
is_channel _ = false

abbrev any_above : (String → ℕ) → List String → Bool
any_above digits [] = false
any_above digits (o ∷ os) = let rest = any_above digits os in ltb 255 (digits o) || rest

module _ (python : Python) where
  abbrev pub classify_event_type : String → Option (EntityLayer × Transition)
  classify_event_type type_str = get (python.strip type_str) event_vocab

  abbrev pub in_range : Option Endpoint → Option Endpoint
  in_range none = none
  in_range (some e) =
      if any_above python.digits e.octets
        || not (ltb 0 (python.digits e.port) && leb (python.digits e.port) 65535)
      then none
      else some e

  pub extract_endpoint : String → Option Endpoint
  extract_endpoint token = in_range (python.ip_port token)

  abbrev pub is_sentinel : String → Bool
  is_sentinel name = str_eq name deleted_node_sentinel

  -- A channel's name, by its parts.
  unfoldable pub channel_identity : String → String → Option (String × String) → NodeIdentity
  channel_identity raw name none = record {
    raw = raw;
    parent = none;
    channel_label = or_none name;
    endpoint = none;
    is_deleted_sentinel = false;
  }
  channel_identity raw name (some (parent, label)) = record {
    raw = raw;
    parent = some parent;
    channel_label = some label;
    endpoint = extract_endpoint parent;
    is_deleted_sentinel = false;
  }

  unfoldable pub parse_node_name : String → Option EntityLayer → NodeIdentity
  parse_node_name raw layer =
      if is_channel layer && not (is_sentinel (python.strip raw))
      then channel_identity raw (python.strip raw) (rpartition (python.strip raw))
      else record {
        raw = raw;
        parent = or_none (python.strip raw);
        channel_label = none;
        endpoint =
            if is_sentinel (python.strip raw) then none else extract_endpoint (python.strip raw);
        is_deleted_sentinel = is_sentinel (python.strip raw);
      }
