-- ===== src/Server/Policy/Examples.antt =====
-- The theorems on the pipeline at a concrete message, and tests of its definitions.
use mas_framework.Common.{◌≡◌, refl, ◌⊎◌, true, false, none, some, List, [], ◌∷◌, String}
use mas_framework.Common.Dict.{Dict, lookup}
use mas_framework.Common.Sets.{any_of}
use mas_framework.Common.Results.{ok}
use mas_framework.Core.Protocol.{EnvelopeMessage, Fields, no_fields, field, text}
use mas_framework.Gateway.Dlp.{
  ActionPolicy, block, redact, Violation, scan, has_policy, redactable, redact_object, applies,
  policy_eq,
}
use mas_framework.Server.Policy.{Components, ingest_and_route}
use mas_framework.Server.Policy.Mediation.{enqueued, Mediated}
use mas_framework.Server.Policy.Checks.{ingest_and_route-Mediated}
use mas_framework.Server.Policy.Redaction.{blocked_not_enqueued, redacted_enqueued}

abbrev policies : Dict ActionPolicy
policies = ("ssn", redact) ∷ ("jwt", block) ∷ []

abbrev masked : List Violation → String → String
masked vs t = "[ssn]"

abbrev finds : String → Fields → List Violation
finds kind payload = record { violation_type = kind; matched_text = "123" } ∷ []

abbrev types : Fields → List String
types payload = "ssn" ∷ []

abbrev components : String → Components
components kind = record {
  authorize = λ sender target action. true;
  rate_allowed = λ sender message. true;
  circuit_allowed = some (λ target. true);
  shared_pool = false;
  scan = some (λ payload. (scan policies masked (finds kind payload) payload, types payload));
  audit_target = record { connection_pool = 1; durability = 1 };
  router_target = record { connection_pool = 2; durability = 1 };
  logged = true;
  routed = ok tt;
  committed = ok "m";
  dump_json = λ m. "json";
}

abbrev message : EnvelopeMessage
message = record {
  sender_id = "a";
  target_id = "b";
  message_type = "t";
  data' = field "n" (text "123") no_fields;
  meta = record {
    version = 1;
    correlation_id = none;
    expects_reply = false;
    is_reply = false;
    sender_instance_id = some "i";
    reply_to_instance_id = none;
    traceparent = none;
    tracestate = none;
  };
  timestamp = 1;
  message_id = "m";
}

blocked_not_enqueued_example : enqueued (ingest_and_route (components "jwt") message none).1 ≡ []
unfolding has_policy any_of lookup applies policy_eq
blocked_not_enqueued_example =
    blocked_not_enqueued policies masked (finds "jwt") types (components "jwt") refl message none
      refl

redacted_enqueued_example :
    (enqueued (ingest_and_route (components "ssn") message none).1 ≡ [])
    ⊎ ((m' : EnvelopeMessage) × (enqueued (ingest_and_route (components "ssn") message none).1
          ≡ m' ∷ [])
        × (redact_object (masked (redactable policies (finds "ssn" message.data'))) [] message.data'
            ≡ ok m'.data'))
unfolding has_policy any_of lookup applies policy_eq
redacted_enqueued_example =
    redacted_enqueued policies masked (finds "ssn") types (components "ssn") refl message none refl

ingest_and_route-Mediated_example :
    Mediated (components "ssn") message (ingest_and_route (components "ssn") message none)
ingest_and_route-Mediated_example = ingest_and_route-Mediated (components "ssn") message none
