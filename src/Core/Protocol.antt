-- ===== src/Core/Protocol.antt =====
-- packages/mas-core/src/mas_core/protocol.py: JSON values and message envelopes. Times are
-- milliseconds.
use mas_framework.Common.{ℕ, Bool, false, not, Option, none, some, String, str_eq}

-- A decoded JSON value; a number, a Boolean and null are the text that json.dumps gives for them.
mutual
  pub data Json : Type 0 where
    text : String → Json
    literal : String → Json
    array : Items → Json
    object : Fields → Json

  pub data Items : Type 0 where
    no_items : Items
    item : Json → Items → Items

  pub data Fields : Type 0 where
    no_fields : Fields
    field : String → Json → Fields → Fields

pub record MessageMeta : Type 0 where
  pub version : ℕ
  pub correlation_id : Option String
  pub expects_reply : Bool
  pub is_reply : Bool
  pub sender_instance_id : Option String
  pub reply_to_instance_id : Option String
  pub traceparent : Option String
  pub tracestate : Option String

pub record EnvelopeMessage : Type 0 where
  pub sender_id : String
  pub target_id : String
  pub message_type : String
  pub data' : Fields
  pub meta : MessageMeta
  pub timestamp : ℕ
  pub message_id : String

-- Whether Python takes an optional text for true.
abbrev pub truthy : Option String → Bool
truthy none = false
truthy (some t) = not (str_eq t "")
