-- ===== src/Server/Delivery/Service.antt =====
-- packages/mas-server/src/mas_server/delivery.py and routing.py: how the broker settles deliveries.
-- What Redis and the network do during an operation is an argument of it.
use mas_framework.Common.{
  ℕ, suc, ◌==◌, ltb, leb, Bool, true, false, not, ◌&&◌, Option, none, some, List, [], ◌∷◌, ◌++◌,
  String, if◌then◌else◌, length,
}
use Prim.Native.String.{◌++◌ as str_append}
use mas_framework.Common.Dict.{lookup, insert}
use mas_framework.Common.Int.{ℤ, pos, negsuc}
use mas_framework.Common.Results.{Result, ok, err, ◌>>=◌}
use mas_framework.Core.Protocol.{EnvelopeMessage}
use mas_framework.Core.SessionLease.{SessionLease}
use mas_framework.Core.Durability.{Reply, integer, execute}
use mas_framework.Core.Durability
use mas_framework.Server.Sessions.{
  InflightDelivery, Session, Sessions, pop_inflight, drop_oldest_outbound, lease_of,
}
use mas_framework.Server.Delivery.{
  Error, redis_error, not_confirmed, session_not_connected, RawFields, Entry, Store, ack_and_delete,
  requeue_and_ack, commit_delivery, is_text,
}

-- A script runs and is answered, or its answer is lost, or it does not run.
pub data Network : Type 0 where
  answered unanswered unsent : Network

abbrev pub over : {A : Type 0} → Network → Store → Result Error A × Store → Result Error A × Store
over answered s r = r
over unanswered s (r, s') = (err redis_error, s')
over unsent s r = (err redis_error, s)

-- What an operation meets: the owner of the session that the script reads, the network, the
-- answers to the confirmation of a write, and the clock.
pub record Conditions : Type 0 where
  pub owner : Option String
  pub network : Network
  pub confirmation : List Reply
  pub now : ℕ

pub record Settings : Type 0 where
  pub reclaim_idle_ms : ℕ
  pub reclaim_batch_size : ℕ
  pub max_in_flight : ℕ
  pub max_delivery_attempts : ℕ
  pub outbound_maxsize : ℕ
  pub dlq_enabled : Bool
  pub durability : Durability.Settings

abbrev or_empty : Option String → String
or_empty none = ""
or_empty (some t) = t

-- f"{agent_id}-{instance_id}-{lease.owner}"
pub consumer_of : Session → String
consumer_of session =
    str_append session.agent_id
      (str_append "-" (str_append session.instance_id (str_append "-" session.lease.owner)))

-- _ack_inflight
unfoldable pub ack_inflight :
    Store → Conditions → InflightDelivery → String → SessionLease → Result Error Bool × Store
ack_inflight s env delivery consumer lease =
    over env.network s
      (ack_and_delete s env.owner lease.owner delivery.stream_name delivery.entry_id consumer)

-- `handle_ack`, which says whether it records a success.
pub handle_ack :
    Sessions → Store → Conditions → String → String → String → Result Error Bool × Sessions × Store
handle_ack sessions s env agent instance' delivery_id = elim (lease_of sessions agent instance') [
  | err e ↦ (err session_not_connected, sessions, s)
  | ok lease ↦
      let (found, sessions') = pop_inflight sessions agent instance' delivery_id in
      elim found [
        | none ↦ (ok false, sessions', s)
        | some delivery ↦
            let (r, s') = ack_inflight s env delivery delivery.consumer lease in (r, sessions', s')
      ]
]

-- The decoding of an envelope, its SHA-256, the reading of a number, and the text of a number and
-- of a time.
pub record External : Type 0 where
  pub parse_envelope : String → Option EnvelopeMessage
  pub sha256 : String → String
  pub parse_int : String → Option ℤ
  pub show_int : ℕ → String
  pub show_time : ℕ → String

unfoldable pub identity_fields : Option EnvelopeMessage → RawFields
identity_fields none =
    ("message_id", "")
    ∷ ("sender_id", "")
    ∷ ("sender_instance_id", "")
    ∷ ("target_id", "")
    ∷ ("message_type", "")
    ∷ []
identity_fields (some m) =
    ("message_id", m.message_id)
    ∷ ("sender_id", m.sender_id)
    ∷ ("sender_instance_id", or_empty m.meta.sender_instance_id)
    ∷ ("target_id", m.target_id)
    ∷ ("message_type", m.message_type)
    ∷ []

-- What `write_dlq` does with the answers to its pipeline.
pub completed : Result Durability.Error (List Reply) → Result Error Bool
completed (err e) = err not_confirmed
completed (ok (integer (pos n) ∷ rest)) = ok (n == 1)
completed (ok (integer (negsuc n) ∷ rest)) = ok false
completed (ok _) = err not_confirmed

abbrev pub pipeline_answers : List Reply → Result Error Bool → Result Durability.Error (List Reply)
pipeline_answers confirmation (ok true) = ok (integer (pos 1) ∷ confirmation)
pipeline_answers confirmation (ok false) = ok (integer (pos 0) ∷ confirmation)
pipeline_answers confirmation (err e) = err Durability.Error.redis_error

module _ (ext : External) (settings : Settings) where
  unfoldable pub dlq_fields : ℕ → String → String → RawFields
  dlq_fields now envelope reason =
      identity_fields (ext.parse_envelope envelope)
      ++ ("decision", "DLQ")
        ∷ ("reason", reason)
        ∷ ("envelope_hash", ext.sha256 envelope)
        ∷ ("timestamp", ext.show_time now)
        ∷ ("envelope", envelope)
        ∷ []

  -- `write_dlq` with a delivery to commit.
  unfoldable pub write_dlq :
      Store → Conditions → InflightDelivery → SessionLease → String → Result Error Bool × Store
  write_dlq s env delivery lease reason =
      let (r, s') = over env.network s (
        commit_delivery s env.owner lease.owner delivery.stream_name delivery.entry_id
          delivery.consumer settings.dlq_enabled
          (dlq_fields env.now delivery.envelope_json reason)) in
      (completed (execute settings.durability false 1 (pipeline_answers env.confirmation r)), s')

  -- `handle_nack` from where the delivery is popped: whether it records a failure.
  unfoldable pub settle_nack :
      Store
      → Conditions
      → InflightDelivery
      → SessionLease
      → String
      → Bool
      → Result Error Bool × Store
  settle_nack s env delivery lease reason retryable =
      if retryable && ltb delivery.attempt settings.max_delivery_attempts
      then (let (r, s') = over env.network s (
            requeue_and_ack s env.owner lease.owner delivery.stream_name delivery.entry_id
              delivery.consumer delivery.envelope_json (ext.show_int (suc delivery.attempt))) in
          (r >>= λ done. ok true, s'))
      else write_dlq s env delivery lease
          (if retryable then str_append reason "; retry_limit_exceeded" else reason)

  -- `handle_nack`; `first` is the owner that Redis names before the delivery is popped.
  pub handle_nack :
      Sessions
      → Store
      → Result Error (Option String)
      → Conditions
      → String
      → String
      → String
      → String
      → Bool
      → Result Error Bool × Sessions × Store
  handle_nack sessions s first env agent instance' delivery_id reason retryable =
      elim (lease_of sessions agent instance') [
        | err e ↦ (err session_not_connected, sessions, s)
        | ok lease ↦ elim first [
          | err e ↦ (err e, sessions, s)
          | ok owner ↦
              if not (is_text lease.owner owner)
              then (ok false, sessions, s)
              else let (found, sessions') = pop_inflight sessions agent instance' delivery_id in
                elim found [
                  | none ↦ (ok false, sessions', s)
                  | some delivery ↦
                      let (r, s') = settle_nack s env delivery lease reason retryable in
                      (r, sessions', s')
                ]
        ]
      ]

  -- int(...) of the attempt, where 0 stands for what is refused.
  pub attempt_of : Option String → ℕ
  attempt_of none = 1
  attempt_of (some text) = elim (ext.parse_int text) [
    | none ↦ 0
    | some (negsuc n) ↦ 0
    | some (pos n) ↦ n
  ]

  abbrev pub delivery_for : Session → Entry → String → ℕ → ℕ → InflightDelivery
  delivery_for session e envelope attempt now = record {
    stream_name = e.stream;
    group = "agents";
    entry_id = e.id;
    envelope_json = envelope;
    received_at = now;
    attempt = attempt;
    consumer = consumer_of session;
  }

  -- `_deliver_entry`, to a session with the name of the delivery.
  unfoldable pub deliver_entry :
      Session → Store → Conditions → String → Entry → String → Result Error Session × Store
  deliver_entry session s env delivery_id e envelope =
      let attempt = attempt_of (lookup "attempt" e.fields) in
      if not (leb 1 attempt && leb attempt settings.max_delivery_attempts)
      then (let (r, s') =
            write_dlq s env (delivery_for session e envelope 1 env.now) session.lease
              "invalid_delivery_attempt" in
          (r >>= λ written. ok session, s'))
      else let (dropped, outbound, inflight) =
          drop_oldest_outbound settings.outbound_maxsize session.outbound session.inflight in
        if ltb 0 settings.outbound_maxsize && leb settings.outbound_maxsize (length outbound)
        then (ok (record session { outbound = outbound; inflight = inflight }), s)
        else (
          ok (record session {
            outbound = outbound ++ delivery_id ∷ [];
            inflight =
                insert delivery_id (delivery_for session e envelope attempt env.now) inflight;
          }),
          s,
        )
