-- ===== src/Server/Routing/Examples.antt =====
-- The theorems on routing at concrete messages, and tests of its definitions.
use mas_framework.Common.{
  ◌≤◌, ◌<◌, ◌≡◌, refl, Bool, true, false, ◌&&◌, Option, none, some, List, [], ◌∷◌, String, str_eq,
  length, All, arith, Bool-cases, inl, inr, if◌then◌else◌, is_some,
}
use mas_framework.Common.Dict.{lookup, insert, remove}
use mas_framework.Common.Sets.{member}
use mas_framework.Common.Results.{ok, err}
use mas_framework.Core.Protocol.{EnvelopeMessage, truthy, no_fields}
use mas_framework.Core.Durability.{
  Settings, integer, confirm, enabled, validate_confirmation, at_least,
}
use mas_framework.Common.Int.{pos}
use mas_framework.Server.Routing.{
  CorrelationCommit, Keyspace, get_pending, get_receipt, matching, commit_pending, commit_script,
  make_receipt, commit_reply, set_pending, confirmed, unknown_or_completed_correlation_id,
  replay_reply, replay_script,
}
use mas_framework.Server.Routing.Operations.{
  replies, Operation, register, reply, replay, reply_id, run, acknowledged,
}
use mas_framework.Server.Routing.Once.{reply_once}
use mas_framework.Server.Routing.Retries.{commit_reply-retry}

-- A stand-in for the JSON of a message: only the correlation that it replies to.
abbrev text_of : Option String → String
text_of none = ""
text_of (some c) = c

abbrev dump : EnvelopeMessage → String
dump m = text_of (reply_id m)

abbrev load : String → Option String
load t = if str_eq t "" then none else some t

load-dump :
    (is_reply : Bool) (o : Option String)
    → let id = if is_reply && truthy o then o else none in load (text_of id) ≡ id
load-dump false o = refl
load-dump true none = refl
load-dump true (some c) = elim (Bool-cases (str_eq c "")) [
  | inl e ↦ rw (e) refl
  | inr e ↦ rw (e, e) refl
]

reads : (m : EnvelopeMessage) → load (dump m) ≡ reply_id m
reads m = load-dump m.meta.is_reply m.meta.correlation_id

abbrev replicated : Settings
replicated = record { replica_count = 1; timeout_ms = 1; wait_for_aof = false }

abbrev answer_to : String → String → EnvelopeMessage
answer_to c id = record {
  sender_id = "worker";
  target_id = "client";
  message_type = "result";
  data' = no_fields;
  meta = record {
    version = 1;
    correlation_id = some c;
    expects_reply = false;
    is_reply = true;
    sender_instance_id = some "w";
    reply_to_instance_id = some "i";
    traceparent = none;
    tracestate = none;
  };
  timestamp = 5;
  message_id = id;
}

abbrev commit : CorrelationCommit
commit = record { expected_value = "origin"; fingerprint = "f"; expires_at = 100 }

abbrev empty : Keyspace
empty = record { pending = []; receipts = []; entries = []; foreign_streams = [] }

-- The reply is committed, sent again, and replayed.
abbrev operations : List Operation
operations =
    register "c" "origin" 100
    ∷ reply 10 (answer_to "c" "m1") commit (ok (integer (pos 0)))
    ∷ reply 20 (answer_to "c" "m2") commit (ok (integer (pos 1)))
    ∷ replay 30 "c" "worker" "f" (ok (integer (pos 1)))
    ∷ []

acknowledged_twice :
    acknowledged dump (λ f. true) replicated "c" operations empty ≡ "m1" ∷ "m1" ∷ []
unfolding commit_reply make_receipt commit_script commit_pending matching get_pending get_receipt
    set_pending replay_reply replay_script lookup insert remove member confirm enabled
    validate_confirmation at_least
acknowledged_twice = refl

reply_once_example :
    let n = replies load "c" (run dump (λ f. true) replicated operations empty).entries in
    let ids = acknowledged dump (λ f. true) replicated "c" operations empty in
    (n ≤ 1) × (0 < length ids → n ≡ 1) × ((id : String) × All (λ x. x ≡ id) ids)
unfolding lookup
reply_once_example =
    reply_once dump load reads "c" (λ f. true) replicated operations empty
      (tt, (tt, (tt, (tt, tt)))) refl refl (omega arith)

abbrev waiting : Keyspace
waiting = set_pending empty "c" "origin" 100

abbrev answered : Keyspace
answered =
    (commit_reply dump (λ f. true) replicated waiting 10 (answer_to "c" "m1") commit
      (ok (integer (pos 0)))).1

commit_reply-retry_example :
    (is_some (get_receipt answered 10 "c") ≡ true)
    × (commit_reply dump
          (λ f. true)
          replicated
          answered
          50
          (answer_to "c" "m2")
          commit
          (ok (integer (pos 1)))
        ≡ (if str_eq "worker" "worker" && str_eq "f" "f"
            then (confirmed (confirm replicated (ok (integer (pos 1)))) (ok "m1"), answered)
            else (err unknown_or_completed_correlation_id, answered)))
unfolding commit_reply make_receipt commit_script commit_pending matching get_pending get_receipt
    set_pending lookup insert remove member
commit_reply-retry_example =
    commit_reply-retry dump (λ f. true) replicated waiting answered 10 50 "c" (answer_to "c" "m1")
      (answer_to "c" "m2") commit commit (ok (integer (pos 0))) (ok (integer (pos 1)))
      (record { sender_id = "worker"; fingerprint = "f"; message_id = "m1" })
      (record { sender_id = "worker"; fingerprint = "f"; message_id = "m2" })
      (refl, refl, refl, refl) (refl, refl, refl, refl) refl refl refl refl refl
