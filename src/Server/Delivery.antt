-- ===== src/Server/Delivery.antt =====
-- packages/mas-server/src/mas_server/delivery.py and routing.py: the streams with their consumer
-- group, and the scripts that the broker runs on them. An entry is named by its place in the order
-- in which Redis generated the names. Times are milliseconds.
pub mod Claim
pub mod Service
pub mod Loop
pub mod Limits
pub mod Capacity
pub mod Turns
pub mod WellFormed
pub mod Conservation
pub mod Fencing
pub mod Scripts
mod Examples
use mas_framework.Common.{
  ℕ, zero, suc, ◌+◌, ◌-◌, ◌*◌, ◌==◌, ltb, leb, Bool, true, false, not, ◌&&◌, ◌||◌, Option, none,
  some, List, [], ◌∷◌, ◌++◌, String, str_eq, if◌then◌else◌, length, is_some,
}
use mas_framework.Common.Dict.{Dict, lookup, insert}
use mas_framework.Common.Results.{Result, ok, err, ◌>>=◌, ◌>>◌, ensure}

pub data Error : Type 0 where
  redis_error no_group invalid_dlq_stream_type invalid_dlq_fields : Error
  not_confirmed session_not_connected session_lease_lost value_error : Error

abbrev pub RawFields : Type 0
RawFields = List (String × String)

pub record Entry : Type 0 where
  pub id : ℕ
  pub stream : String
  pub fields : RawFields

-- An entry that was delivered to a consumer of the group and not acknowledged.
pub record Unacknowledged : Type 0 where
  pub entry : ℕ
  pub stream : String
  pub consumer : String
  pub since : ℕ

-- The entries of all streams; `positions` has the last entry delivered to the group of each stream
-- that has the group.
pub record Store : Type 0 where
  pub entries : List Entry
  pub next : ℕ
  pub positions : Dict ℕ
  pub pending : List Unacknowledged
  pub dlq : List RawFields
  pub dlq_foreign : Bool

-- XADD with a generated name.
pub xadd : String → RawFields → Store → Store
xadd stream fields s = record s {
  entries = s.entries ++ record { id = s.next; stream = stream; fields = fields } ∷ [];
  next = suc s.next;
}

-- The consumer that an entry is pending for, as XPENDING finds it.
pub pending_for : String → ℕ → List Unacknowledged → Option String
pending_for stream id [] = none
pending_for stream id (p ∷ ps) =
    let later = pending_for stream id ps in
    if str_eq p.stream stream && p.entry == id then some p.consumer else later

-- XACK
pub xack : String → ℕ → List Unacknowledged → List Unacknowledged
xack stream id [] = []
xack stream id (p ∷ ps) =
    let rest = xack stream id ps in
    if str_eq p.stream stream && p.entry == id then rest else p ∷ rest

-- XDEL
pub xdel : String → ℕ → List Entry → List Entry
xdel stream id [] = []
xdel stream id (e ∷ es) =
    let rest = xdel stream id es in if str_eq e.stream stream && e.id == id then rest else e ∷ rest

-- The entry of a stream with a name.
pub find_entry : String → ℕ → List Entry → Option Entry
find_entry stream id [] = none
find_entry stream id (e ∷ es) =
    let later = find_entry stream id es in
    if str_eq e.stream stream && e.id == id then some e else later

pub ack_entry : String → ℕ → Store → Store
ack_entry stream id s = record s {
  pending = xack stream id s.pending;
  entries = xdel stream id s.entries;
}

abbrev pub is_text : String → Option String → Bool
is_text t none = false
is_text t (some u) = str_eq u t

-- The guards that three scripts share: the owner of the session, then the consumer that the entry
-- is pending for. XPENDING fails without a group.
pub owns_pending : Store → Option String → String → String → ℕ → String → Result Error Bool
owns_pending s current owner stream id consumer =
    if not (is_text owner current)
    then ok false
    else if not (is_some (lookup stream s.positions))
    then err no_group
    else ok (is_text consumer (pending_for stream id s.pending))

-- What a script does where the guards hold; 0 where they do not.
abbrev pub fenced : Store → Result Error Bool → Result Error Store → Result Error Bool × Store
fenced s (err e) done = (err e, s)
fenced s (ok false) done = (ok false, s)
fenced s (ok true) (err e) = (err e, s)
fenced s (ok true) (ok s') = (ok true, s')

-- _ACK_AND_DELETE_SCRIPT
pub ack_and_delete :
    Store → Option String → String → String → ℕ → String → Result Error Bool × Store
ack_and_delete s current owner stream id consumer =
    fenced s (owns_pending s current owner stream id consumer) (ok (ack_entry stream id s))

-- _REQUEUE_AND_ACK_SCRIPT
pub requeue_and_ack :
    Store
    → Option String
    → String
    → String
    → ℕ
    → String
    → String
    → String
    → Result Error Bool × Store
requeue_and_ack s current owner stream id consumer envelope attempt =
    fenced s (owns_pending s current owner stream id consumer) (
      ok (ack_entry stream id (xadd stream (("envelope", envelope) ∷ ("attempt", attempt) ∷ []) s)))

-- _COMMIT_DELIVERY_SCRIPT once its guards hold.
pub dead_letter : Bool → RawFields → Store → Result Error Store
dead_letter enabled fields s =
    if not enabled
    then ok s
    else if s.dlq_foreign
    then err invalid_dlq_stream_type
    else if length fields == 0
    then err invalid_dlq_fields
    else ok (record s { dlq = s.dlq ++ fields ∷ [] })

-- _COMMIT_DELIVERY_SCRIPT
pub commit_delivery :
    Store
    → Option String
    → String
    → String
    → ℕ
    → String
    → Bool
    → RawFields
    → Result Error Bool × Store
commit_delivery s current owner stream id consumer enabled fields =
    fenced s (owns_pending s current owner stream id consumer)
      (dead_letter enabled fields s >>= λ s'. ok (ack_entry stream id s'))

-- The entries of a stream after a position, at most so many; COUNT 0 sets no limit.
unfoldable pub entries_after : String → ℕ → List Entry → List Entry
entries_after stream position [] = []
entries_after stream position (e ∷ es) =
    let rest = entries_after stream position es in
    if str_eq e.stream stream && ltb position e.id then e ∷ rest else rest

unfoldable pub take : ℕ → List Entry → List Entry
take zero es = []
take (suc n) [] = []
take (suc n) (e ∷ es) = e ∷ take n es

unfoldable pub limited : ℕ → List Entry → List Entry
limited zero es = es
limited (suc n) es = take (suc n) es

pub last_id : ℕ → List Entry → ℕ
last_id position [] = position
last_id position (e ∷ es) = last_id e.id es

pub deliver_to : String → ℕ → List Entry → List Unacknowledged
deliver_to consumer now [] = []
deliver_to consumer now (e ∷ es) =
    record { entry = e.id; stream = e.stream; consumer = consumer; since = now }
    ∷ deliver_to consumer now es

-- XREADGROUP GROUP ... STREAMS ... > ...: the entries of each stream in turn.
unfoldable pub xreadgroup : Store → String → ℕ → ℕ → List String → Result Error (List Entry × Store)
xreadgroup s consumer count now [] = ok ([], s)
xreadgroup s consumer count now (stream ∷ streams) = elim (lookup stream s.positions) [
  | none ↦ err no_group
  | some position ↦
      let found = limited count (entries_after stream position s.entries) in
      xreadgroup
        (record s {
          positions = insert stream (last_id position found) s.positions;
          pending = s.pending ++ deliver_to consumer now found;
        })
        consumer count now streams
      >>= λ (more, s'). ok (found ++ more, s')
]

-- _READ_SCRIPT
unfoldable pub read_script :
    Store
    → Option String
    → String
    → List String
    → String
    → ℕ
    → ℕ
    → Result Error (Option (List Entry) × Store)
read_script s current owner streams consumer count now =
    if not (is_text owner current)
    then ok (none, s)
    else xreadgroup s consumer count now streams >>= λ (found, s'). ok (some found, s')
