-- ===== src/Server/Ingress/Origins.antt =====
-- A reply goes back to the instance that made the request, from the agent that it was made to.
use mas_framework.Common.{
  ℕ, ◌<◌, ◌≡◌, refl, ap, ◌∙◌, inl, inr, true, false, Option, some, String, str_eq, str_eq_iff,
  if◌then◌else◌, arith, leb, Bool-cases,
}
use mas_framework.Common.Int.{pos}
use mas_framework.Common.Dict.{lookup-insert}
use mas_framework.Common.Results.{ok}
use mas_framework.Core.Protocol.{EnvelopeMessage, Fields}
use mas_framework.Server.Routing.{Keyspace, request, get_pending, set_pending}
use mas_framework.Server.Ingress.{
  reply_sender_mismatch, Origin, Request, External, fail, submit, nonempty, parse_payload_json,
  read_origin, parsed, reply_meta, answer, reply_message, deadline_of, pending_text,
  request_message,
}

pending_text-set :
    (k : Keyspace) (c text : String) (deadline later : ℕ)
    → later < deadline
    → pending_text (get_pending (set_pending k c text deadline) later c) ≡ some text
unfolding get_pending set_pending
pending_text-set k c text deadline later soon =
    ground (arith, lookup-insert c c (request text (some deadline)) k.pending, str_eq_iff c c)

nonempty-some : (t : String) → str_eq t "" ≡ false → nonempty (some t) ≡ some t
nonempty-some t h = rw (h) refl

abbrev pub made : String → String → String → ℕ → Request
made agent instance' target deadline = record {
  agent = agent;
  instance' = instance';
  target = target;
  deadline = deadline;
}

-- The request as its origin says it.
abbrev pub origin_of : Request → Origin
origin_of q = record {
  agent_id = some q.agent;
  instance_id = some q.instance';
  target_id = some q.target;
  expires_at = some q.deadline;
}

read_origin-of :
    (q : Request)
    → str_eq q.agent "" ≡ false
    → str_eq q.instance' "" ≡ false
    → str_eq q.target "" ≡ false
    → read_origin (origin_of q) ≡ some q
unfolding read_origin
read_origin-of q a i t =
    let a' = nonempty-some q.agent a in
    let i' = nonempty-some q.instance' i in
    let t' = nonempty-some q.target t in ground (arith, a', i', t')

request_message-keys :
    (ext : External) (k k' : Keyspace) (m : EnvelopeMessage)
    (sender sender_instance target type' data_json c id : String) (timeout_ms now : ℕ)
    → request_message ext true k sender sender_instance target type' data_json
        (pos timeout_ms)
        now
        c
        id
      ≡ ok (m, k')
    → k'
      ≡ set_pending k c
          (ext.dump_origin (record {
            agent = sender;
            instance' = sender_instance;
            target = target;
            deadline = deadline_of now timeout_ms;
          }))
          (deadline_of now timeout_ms)
unfolding request_message
request_message-keys ext k k' m sender sender_instance target type' data_json c id timeout_ms now
      h =
    ground arith

parsed-some :
    (ext : External) (text : String) (o : Origin) (q : Request)
    → ext.parse_origin text ≡ some o
    → read_origin o ≡ some q
    → parsed ext text ≡ some q
parsed-some ext text o q h r = ground arith

reply_message-pending :
    (ext : External) (replier replier_instance c type' json id : String) (now : ℕ)
    (payload : Fields) (pending : Option String) (text : String) (q : Request)
    → parse_payload_json ext json ≡ ok payload
    → str_eq c "" ≡ false
    → nonempty pending ≡ some text
    → parsed ext text ≡ some q
    → reply_message ext true replier replier_instance c type' json pending now id
      ≡ answer replier replier_instance c type' payload text q now id
          (ext.fingerprint replier type' payload)
unfolding reply_message
reply_message-pending ext replier replier_instance c type' json id now payload pending text q p n f
      r =
    ground arith

-- Before the deadline, only the agent that was asked may answer.
answer_in_time :
    (replier replier_instance c type' : String) (payload : Fields) (text : String) (q : Request)
    (now : ℕ) (id fingerprint : String)
    → now < q.deadline
    → answer replier replier_instance c type' payload text q now id fingerprint ≡ (
        if str_eq replier q.target
        then submit
            (record {
              sender_id = replier;
              target_id = q.agent;
              message_type = type';
              data' = payload;
              meta = reply_meta replier_instance c q.instance';
              timestamp = now;
              message_id = id;
            })
            (record { expected_value = text; fingerprint = fingerprint; expires_at = q.deadline })
        else fail reply_sender_mismatch)
unfolding answer
answer_in_time replier replier_instance c type' payload text q now id fingerprint soon =
    let in_time : leb q.deadline now ≡ false = ground arith in
    elim (Bool-cases (str_eq replier q.target)) [
      | inl same ↦ rw (same, in_time) refl
      | inr other ↦ rw (other) refl
    ]

-- A connected agent makes a request of a target, with a timeout that is not negative and a
-- correlation that Redis then has pending; the origin that it stores is no empty text and is read
-- back as it was written. Then whatever connected agent replies to that correlation before the
-- deadline, with a payload that can be read: if it is the target, its reply goes through the
-- pipeline to the agent and the instance that made the request, to be committed against exactly
-- the stored origin and its deadline, and otherwise it is refused.
pub request_message-reply :
    (ext : External) (k k' : Keyspace) (m : EnvelopeMessage)
    (sender sender_instance target type' data_json c id : String) (timeout_ms now : ℕ)
    (replier replier_instance type'' reply_json id' : String) (later : ℕ) (payload : Fields)
    → (let q = made sender sender_instance target (deadline_of now timeout_ms) in
        (ext.parse_origin (ext.dump_origin q) ≡ some (origin_of q))
        × (str_eq (ext.dump_origin q) "" ≡ false))
    → str_eq sender "" ≡ false
    → str_eq sender_instance "" ≡ false
    → str_eq target "" ≡ false
    → str_eq c "" ≡ false
    → request_message ext true k sender sender_instance target type' data_json
        (pos timeout_ms)
        now
        c
        id
      ≡ ok (m, k')
    → parse_payload_json ext reply_json ≡ ok payload
    → later < deadline_of now timeout_ms
    → reply_message ext true replier replier_instance c type'' reply_json
        (pending_text (get_pending k' later c))
        later
        id'
      ≡ (if str_eq replier target
          then submit
              (record {
                sender_id = replier;
                target_id = sender;
                message_type = type'';
                data' = payload;
                meta = reply_meta replier_instance c sender_instance;
                timestamp = later;
                message_id = id';
              })
              (record {
                expected_value = ext.dump_origin (record {
                  agent = sender;
                  instance' = sender_instance;
                  target = target;
                  deadline = deadline_of now timeout_ms;
                });
                fingerprint = ext.fingerprint replier type'' payload;
                expires_at = deadline_of now timeout_ms;
              })
          else fail reply_sender_mismatch)
request_message-reply ext k k' m sender sender_instance target type' data_json c id timeout_ms now
      replier replier_instance type'' reply_json id' later payload (reads, some_text) s i t
      nonempty_c h p soon =
    let q : Request = record {
      agent = sender;
      instance' = sender_instance;
      target = target;
      deadline = deadline_of now timeout_ms;
    } in
    let text = ext.dump_origin q in
    let e =
      request_message-keys ext k k' m sender sender_instance target type' data_json c id timeout_ms
        now h in
    let stored = pending_text-set k c text (deadline_of now timeout_ms) later soon in
    let found : pending_text (get_pending k' later c) ≡ some text = rw (e) stored in
    let there = nonempty-some text some_text in
    let read = parsed-some ext text (origin_of q) q reads (read_origin-of q s i t) in
    reply_message-pending ext replier replier_instance c type'' reply_json id' later payload
      (pending_text (get_pending k' later c)) text q p nonempty_c (ap nonempty found ∙ there) read
    ∙ answer_in_time replier replier_instance c type'' payload text q later id'
        (ext.fingerprint replier type'' payload) soon
