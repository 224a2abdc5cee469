-- ===== src/Server/Ingress/Examples.antt =====
-- The theorem on replies at a concrete request.
use mas_framework.Common.{
  ◌≡◌, refl, true, false, Option, none, some, [], str_eq, if◌then◌else◌, arith,
}
use mas_framework.Core.Protocol.{EnvelopeMessage, Json, object, Fields, no_fields}
use mas_framework.Server.Routing.{Keyspace, get_pending, set_pending}
use mas_framework.Server.Ingress.{
  External, fail, submit, reply_sender_mismatch, reply_meta, reply_message, request_message,
  pending_text, parse_payload_json,
}
use mas_framework.Server.Ingress.Origins.{origin_of, made, request_message-reply}

abbrev fields_of_json : Json → Option Fields
fields_of_json (object fields) = some fields
fields_of_json _ = none

abbrev externals : External
externals = record {
  loads = λ t. if str_eq t "{}" then some (object no_fields) else none;
  validate_object = fields_of_json;
  parse_origin =
      λ t. if str_eq t "origin" then some (origin_of (made "client" "i" "worker" 110)) else none;
  fingerprint = λ sender type' payload. "f";
  dump_origin = λ q. "origin";
}

abbrev empty : Keyspace
empty = record { pending = []; receipts = []; entries = []; foreign_streams = [] }

abbrev asked : Keyspace
asked = set_pending empty "c" "origin" 110

abbrev question : EnvelopeMessage
question = record {
  sender_id = "client";
  target_id = "worker";
  message_type = "ask";
  data' = no_fields;
  meta = record {
    version = 1;
    correlation_id = some "c";
    expects_reply = true;
    is_reply = false;
    sender_instance_id = some "i";
    reply_to_instance_id = none;
    traceparent = none;
    tracestate = none;
  };
  timestamp = 10;
  message_id = "m1";
}

request_message-reply_example :
    reply_message externals true "worker" "w" "c" "result" "{}"
      (pending_text (get_pending asked 20 "c"))
      20
      "m2"
    ≡ (if str_eq "worker" "worker"
        then submit
            (record {
              sender_id = "worker";
              target_id = "client";
              message_type = "result";
              data' = no_fields;
              meta = reply_meta "w" "c" "i";
              timestamp = 20;
              message_id = "m2";
            })
            (record { expected_value = "origin"; fingerprint = "f"; expires_at = 110 })
        else fail reply_sender_mismatch)
unfolding request_message parse_payload_json
request_message-reply_example =
    request_message-reply externals empty asked question "client" "i" "worker" "ask" "{}" "c" "m1"
      100 10 "worker" "w" "result" "{}" "m2" 20 no_fields (refl, refl) refl refl refl refl refl refl
      (omega arith)
