-- ===== src/Server/Routing.antt =====
-- packages/mas-server/src/mas_server/routing.py: the streams that messages are routed to, and the
-- replies that are committed together with the request they answer. The JSON of a message is a
-- parameter. Times are milliseconds.
pub mod Operations
pub mod Commit
pub mod Appends
pub mod Invariant
pub mod Once
pub mod Retries
mod Examples
use Prim.Native.String.{◌++◌ as str_append}
use mas_framework.Common.{
  ℕ, ◌+◌, ltb, leb, Bool, true, false, not, ◌&&◌, ◌||◌, Option, none, some, List, [], ◌∷◌, ◌++◌,
  String, str_eq, if◌then◌else◌,
}
use mas_framework.Common.Dict.{Dict, lookup, insert, remove}
use mas_framework.Common.Results.{Result, ok, err, ◌>>=◌, ◌>>◌, ensure}
use mas_framework.Common.Sets.{member}
use mas_framework.Core.Protocol.{MessageMeta, EnvelopeMessage, truthy}
use mas_framework.Core.RedisCommit.{StreamAppend, make_append}
use mas_framework.Core.RedisCommit
use mas_framework.Core.Durability.{Settings, Reply, confirm, execute}
use mas_framework.Core.Durability

pub data Error : Type 0 where
  missing_reply_to_instance_id invalid_reply_envelope : Error
  unknown_or_completed_correlation_id : Error
  invalid_reply_receipt_type invalid_reply_receipt invalid_correlation_type : Error
  invalid_reply_stream_type receipt_validation_error : Error
  append_error : RedisCommit.Error → Error
  durability_error : Durability.Error → Error

pub record ReplyReceipt : Type 0 where
  pub sender_id : String
  pub fingerprint : String
  pub message_id : String

pub record CorrelationCommit : Type 0 where
  pub expected_value : String
  pub fingerprint : String
  pub expires_at : ℕ

-- `mas.pending_request:<correlation>`: a text, with a deadline where it has one, or another type.
pub data Pending : Type 0 where
  request : String → Option ℕ → Pending
  other_pending : Pending

-- `mas.reply_receipt:<correlation>`: a receipt that runs out, a text that is none, or another type.
pub data Completed : Type 0 where
  receipt : ReplyReceipt → ℕ → Completed
  not_receipt other_completed : Completed

-- The keys, by correlation, and the entries of all streams in the order of their insertion, each
-- with the name of its stream.
pub record Keyspace : Type 0 where
  pub pending : Dict Pending
  pub receipts : Dict Completed
  pub entries : List (String × List (String × String))
  pub foreign_streams : List String

abbrev pub alive : ℕ → Option Pending → Option Pending
alive now (some (request text (some deadline))) =
    if ltb now deadline then some (request text (some deadline)) else none
alive now found = found

unfoldable pub get_pending : Keyspace → ℕ → String → Option Pending
get_pending k now correlation = alive now (lookup correlation k.pending)

abbrev pub kept : ℕ → Option Completed → Option Completed
kept now (some (receipt r deadline)) = if ltb now deadline then some (receipt r deadline) else none
kept now found = found

pub get_receipt : Keyspace → ℕ → String → Option Completed
get_receipt k now correlation = kept now (lookup correlation k.receipts)

abbrev pub min : ℕ → ℕ → ℕ
min a b = if leb a b then a else b

-- What a completed correlation answers to a sender and a fingerprint; KEEPTTL leaves the key as it
-- is.
pub matching : ReplyReceipt → String → String → Result Error (Option String)
matching r sender fingerprint =
    if str_eq r.message_id ""
    then err invalid_reply_receipt
    else if not (str_eq r.sender_id sender) || not (str_eq r.fingerprint fingerprint)
    then ok none
    else ok (some r.message_id)

-- _REPLAY_REPLY_SCRIPT
pub replay_script : Keyspace → ℕ → String → String → String → Result Error (Option String)
replay_script k now correlation sender fingerprint = elim (get_receipt k now correlation) [
  | none ↦ ok none
  | some other_completed ↦ err invalid_reply_receipt_type
  | some not_receipt ↦ err invalid_reply_receipt
  | some (receipt r deadline) ↦ matching r sender fingerprint
]

-- _COMMIT_REPLY_SCRIPT once the correlation is found with the value and the deadline it has.
pub commit_pending :
    Keyspace
    → ℕ
    → String
    → String
    → List (String × String)
    → ReplyReceipt
    → ℕ
    → ℕ
    → Result Error (Option String × Keyspace)
commit_pending k now correlation stream fields new expires_at deadline =
    if leb (min deadline expires_at) now
    then ok (none, k)
    else if member stream k.foreign_streams
    then err invalid_reply_stream_type
    else if str_eq new.message_id ""
    then err invalid_reply_receipt
    else ok (
      some new.message_id,
      record k {
        entries = k.entries ++ (stream, fields) ∷ [];
        receipts = insert correlation (receipt new (min deadline expires_at)) k.receipts;
        pending = remove correlation k.pending;
      },
    )

-- _COMMIT_REPLY_SCRIPT; PTTL of a key without a deadline is negative.
pub commit_script :
    Keyspace
    → ℕ
    → String
    → String
    → String
    → List (String × String)
    → ReplyReceipt
    → ℕ
    → Result Error (Option String × Keyspace)
commit_script k now correlation stream expected fields new expires_at =
    elim (get_receipt k now correlation) [
      | some other_completed ↦ err invalid_reply_receipt_type
      | some not_receipt ↦ err invalid_reply_receipt
      | some (receipt r deadline) ↦
          matching r new.sender_id new.fingerprint >>= λ found. ok (found, k)
      | none ↦ elim (get_pending k now correlation) [
        | none ↦ ok (none, k)
        | some other_pending ↦ err invalid_correlation_type
        | some (request text deadline) ↦
            if not (str_eq text expected) then ok (none, k) else elim deadline [
              | none ↦ ok (none, k)
              | some d ↦ commit_pending k now correlation stream fields new expires_at d
            ]
      ]
    ]

abbrev pub or_empty : Option String → String
or_empty none = ""
or_empty (some t) = t

pub instance_stream : String → String → String
instance_stream target instance' =
    str_append "agent.stream:" (str_append target (str_append ":" instance'))

abbrev pub lift_append : Result RedisCommit.Error StreamAppend → Result Error StreamAppend
lift_append (ok a) = ok a
lift_append (err e) = err (append_error e)

abbrev pub confirmed {ℓ κ} :
    {A : Type ℓ} {B : Type κ} → Result Durability.Error A → Result Error B → Result Error B
confirmed (ok a) r = r
confirmed (err e) r = err (durability_error e)

-- The stream that a message is routed to.
pub destination : EnvelopeMessage → String
destination m =
    if m.meta.is_reply
    then instance_stream m.target_id (or_empty m.meta.reply_to_instance_id)
    else str_append "agent.stream:" m.target_id

-- What XADD does to a stream.
pub xadd : Keyspace → StreamAppend → Keyspace
xadd k append = record k { entries = k.entries ++ (append.stream, append.fields) ∷ [] }

-- ReplyReceipt(...), with the pattern of its fingerprint.
pub make_receipt : (String → Bool) → String → String → String → Result Error ReplyReceipt
make_receipt valid_fingerprint sender fingerprint message = do
  ensure (not (str_eq sender "") && valid_fingerprint fingerprint && not (str_eq message ""))
      receipt_validation_error
  ok (record { sender_id = sender; fingerprint = fingerprint; message_id = message })

-- `dump_json` is model_dump_json.
module _ (dump_json : EnvelopeMessage → String) where
  pub prepare_stream_append : EnvelopeMessage → Result Error StreamAppend
  prepare_stream_append m =
      if m.meta.is_reply && not (truthy m.meta.reply_to_instance_id)
      then err missing_reply_to_instance_id
      else lift_append (make_append (destination m) (("envelope", dump_json m) ∷ []))

  -- `route_message`; `answers` is what Redis answers to the pipeline.
  pub route_message :
      Settings
      → Keyspace
      → EnvelopeMessage
      → Result Durability.Error (List Reply)
      → Result Error (Unit {0}) × Keyspace
  route_message settings k m answers = elim (prepare_stream_append m) [
    | err e ↦ (err e, k)
    | ok append ↦
        if member append.stream k.foreign_streams
        then (confirmed (execute settings false 1 (err Durability.Error.redis_error)) (ok tt), k)
        else (confirmed (execute settings false 1 answers) (ok tt), xadd k append)
  ]

  -- `commit_reply`; `answer` is what Redis answers to the confirmation.
  pub commit_reply :
      (String → Bool)
      → Settings
      → Keyspace
      → ℕ
      → EnvelopeMessage
      → CorrelationCommit
      → Result Durability.Error Reply
      → Result Error String × Keyspace
  commit_reply valid_fingerprint settings k now m correlation answer =
      if not m.meta.is_reply
        || not (truthy m.meta.correlation_id)
        || not (truthy m.meta.reply_to_instance_id)
      then (err invalid_reply_envelope, k)
      else elim (make_receipt valid_fingerprint m.sender_id correlation.fingerprint m.message_id) [
        | err e ↦ (err e, k)
        | ok new ↦
            elim (commit_script k now (or_empty m.meta.correlation_id)
              (instance_stream m.target_id (or_empty m.meta.reply_to_instance_id))
              correlation.expected_value (("envelope", dump_json m) ∷ []) new
              correlation.expires_at) [
                | err e ↦ (err e, k)
                | ok (none, k') ↦ (err unknown_or_completed_correlation_id, k')
                | ok (some id, k') ↦ (confirmed (confirm settings answer) (ok id), k')
              ]
      ]

-- `replay_reply`
pub replay_reply :
    Settings
    → Keyspace
    → ℕ
    → String
    → String
    → String
    → Result Durability.Error Reply
    → Result Error (Option String)
replay_reply settings k now correlation sender fingerprint answer =
    replay_script k now correlation sender fingerprint >>= λ found. elim found [
      | none ↦ ok none
      | some id ↦ confirmed (confirm settings answer) (ok (some id))
    ]

-- The writes to a pending request by the ingress: SET ... PX, and DEL.
unfoldable pub set_pending : Keyspace → String → String → ℕ → Keyspace
set_pending k correlation text deadline = record k {
  pending = insert correlation (request text (some deadline)) k.pending;
}

pub delete_pending : Keyspace → String → Keyspace
delete_pending k correlation = record k { pending = remove correlation k.pending }
