-- ===== src/Server/Ingress.antt =====
-- packages/mas-server/src/mas_server/ingress.py: what becomes of a request or a reply before the
-- policy pipeline takes it. JSON, SHA-256 and the identities of messages are parameters. Times are
-- milliseconds.
pub mod Origins
mod Examples
use mas_framework.Common.{
  ℕ, ◌+◌, ◌==◌, leb, Bool, true, false, not, ◌||◌, Option, none, some, String, str_eq,
  if◌then◌else◌, is_some,
}
use mas_framework.Common.Int.{ℤ, pos, negsuc}
use mas_framework.Common.Results.{Result, ok, err, ◌>>=◌, ◌>>◌, ensure, or_fail}
use mas_framework.Core.Protocol.{
  MessageMeta, EnvelopeMessage, Json, object, Fields, no_fields, truthy,
}
use mas_framework.Server.Routing.{CorrelationCommit, Keyspace, Pending, request, set_pending}

pub data Error : Type 0 where
  not_connected invalid_json payload_must_be_object invalid_timeout_ms missing_correlation_id :
      Error
  unknown_correlation_id reply_sender_mismatch correlation_id_expired : Error

-- The members of the decoded origin of a request, none where one has another type.
pub record Origin : Type 0 where
  pub agent_id : Option String
  pub instance_id : Option String
  pub target_id : Option String
  pub expires_at : Option ℕ

-- What was read of a pending request: its agent, instance, target and deadline.
pub record Request : Type 0 where
  pub agent : String
  pub instance' : String
  pub target : String
  pub deadline : ℕ

-- `json.loads`, none where it raises; pydantic's validation of a value as a JSON object; the decoding
-- of origins, the fingerprint of a reply, and the text of an origin.
pub record External : Type 0 where
  pub loads : String → Option Json
  pub validate_object : Json → Option Fields
  pub parse_origin : String → Option Origin
  pub fingerprint : String → String → Fields → String
  pub dump_origin : Request → String

-- `_parse_payload_json`: the empty text stands for the empty object.
pub parse_payload_json : External → String → Result Error Fields
parse_payload_json ext data_json = do
  obj ←
      (if str_eq data_json ""
        then ok (object no_fields)
        else or_fail (ext.loads data_json) invalid_json)
  or_fail (ext.validate_object obj) payload_must_be_object

-- The call of the pipeline or of the router that follows, or the error; `expire` also deletes the
-- pending request.
pub data Next : Type 0 where
  fail expire : Error → Next
  replay : String → String → String → Next
  submit : EnvelopeMessage → CorrelationCommit → Next

abbrev pub nonempty : Option String → Option String
nonempty none = none
nonempty (some t) = if str_eq t "" then none else some t

-- The checks of the origin.
pub read_origin : Origin → Option Request
read_origin o = elim (nonempty o.agent_id) [
  | none ↦ none
  | some agent ↦ elim (nonempty o.instance_id) [
    | none ↦ none
    | some i ↦ elim (nonempty o.target_id) [
      | none ↦ none
      | some target ↦ elim o.expires_at [
        | none ↦ none
        | some deadline ↦
            some (record { agent = agent; instance' = i; target = target; deadline = deadline })
      ]
    ]
  ]
]

abbrev pub parsed : External → String → Option Request
parsed ext text = elim (ext.parse_origin text) [ none ↦ none | some o ↦ read_origin o ]

abbrev pub reply_meta : String → String → String → MessageMeta
reply_meta sender_instance correlation origin_instance = record {
  version = 1;
  correlation_id = some correlation;
  expects_reply = false;
  is_reply = true;
  sender_instance_id = some sender_instance;
  reply_to_instance_id = some origin_instance;
  traceparent = none;
  tracestate = none;
}

-- `reply_message` once the origin is read, with the time and the identity of the message.
pub answer :
    String → String → String → String → Fields → String → Request → ℕ → String → String → Next
answer sender sender_instance correlation message_type payload text origin now id fingerprint =
    if not (str_eq sender origin.target)
    then fail reply_sender_mismatch
    else if leb origin.deadline now
    then expire correlation_id_expired
    else submit
        (record {
          sender_id = sender;
          target_id = origin.agent;
          message_type = message_type;
          data' = payload;
          meta = reply_meta sender_instance correlation origin.instance';
          timestamp = now;
          message_id = id;
        })
        (record { expected_value = text; fingerprint = fingerprint; expires_at = origin.deadline })

-- `reply_message`: whether the sender is connected, and the pending request that Redis has.
pub reply_message :
    External → Bool → String → String → String → String → String → Option String → ℕ → String → Next
reply_message ext connected sender sender_instance correlation message_type data_json pending now
      id =
    if not connected then fail not_connected else elim (parse_payload_json ext data_json) [
      | err e ↦ fail e
      | ok payload ↦
          if str_eq correlation ""
          then fail missing_correlation_id
          else let fingerprint = ext.fingerprint sender message_type payload in
            elim (nonempty pending) [
              | none ↦ replay correlation sender fingerprint
              | some text ↦ elim (parsed ext text) [
                | none ↦ fail unknown_correlation_id
                | some origin ↦
                    answer sender sender_instance correlation message_type payload text origin now
                      id fingerprint
              ]
            ]
    ]

-- expires_at of a request; a timeout of 0 stands for a minute.
abbrev pub deadline_of : ℕ → ℕ → ℕ
deadline_of now timeout_ms = now + (if timeout_ms == 0 then 60000 else timeout_ms)

-- The text of the pending request, as Redis answers it.
abbrev pub pending_text : Option Pending → Option String
pending_text (some (request text deadline)) = some text
pending_text _ = none

-- `request_message` up to the pipeline: the message and the keys with the pending request.
pub request_message :
    External
    → Bool
    → Keyspace
    → String
    → String
    → String
    → String
    → String
    → ℤ
    → ℕ
    → String
    → String
    → Result Error (EnvelopeMessage × Keyspace)
request_message ext connected k sender sender_instance target message_type data_json timeout now
      correlation id =
    do
      ensure connected not_connected
      timeout_ms ← (elim timeout [ negsuc n ↦ err invalid_timeout_ms | pos n ↦ ok n ])
      payload ← parse_payload_json ext data_json
      let deadline = deadline_of now timeout_ms in
          ok (
            record {
              sender_id = sender;
              target_id = target;
              message_type = message_type;
              data' = payload;
              meta = record {
                version = 1;
                correlation_id = some correlation;
                expects_reply = true;
                is_reply = false;
                sender_instance_id = some sender_instance;
                reply_to_instance_id = none;
                traceparent = none;
                tracestate = none;
              };
              timestamp = now;
              message_id = id;
            },
            set_pending k correlation
                (ext.dump_origin (record {
                  agent = sender;
                  instance' = sender_instance;
                  target = target;
                  deadline = deadline;
                }))
                deadline,
          )
