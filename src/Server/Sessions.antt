-- ===== src/Server/Sessions.antt =====
-- packages/mas-server/src/mas_server/sessions.py: the table of the agent sessions of one broker,
-- their leases, and the deliveries that they have in flight. The agents, the pattern of instance
-- names and the lease store are arguments.
pub mod Table
mod Examples
use mas_framework.Common.{
  ℕ, zero, suc, ◌+◌, ◌==◌, ltb, leb, Bool, true, false, not, ◌&&◌, ◌||◌, Option, none, some, List,
  [], ◌∷◌, ◌++◌, String, str_eq, if◌then◌else◌, length,
}
use mas_framework.Common.Dict.{Dict, lookup, remove}
use mas_framework.Common.Results.{Result, ok, err, ◌>>=◌, ◌>>◌, ensure}
use mas_framework.Core.SessionLease.{SessionLease}

pub data Error : Type 0 where
  agent_not_allowlisted invalid_instance_id instance_already_connected : Error
  session_not_connected task_not_created redis_error : Error

-- What the lease store answers to `acquire`.
pub data Acquired : Type 0 where
  leased : SessionLease → Acquired
  conflict failed : Acquired

-- An entry is named by its place in the order in which Redis generated the names.
pub record InflightDelivery : Type 0 where
  pub stream_name : String
  pub group : String
  pub entry_id : ℕ
  pub envelope_json : String
  pub received_at : ℕ
  pub attempt : ℕ
  pub consumer : String

-- `outbound` names the deliveries in the queue, oldest first; `inflight` has those not yet
-- acknowledged by the same names.
pub record Session : Type 0 where
  pub agent_id : String
  pub instance_id : String
  pub outbound : List String
  pub inflight : Dict InflightDelivery
  pub done : Bool
  pub lease : SessionLease
  pub capacity_changed : Bool

-- The sessions of the broker, in the order of their connections.
abbrev pub Sessions : Type 0
Sessions = List Session

pub is_key : String → String → Session → Bool
is_key agent instance' s = str_eq s.agent_id agent && str_eq s.instance_id instance'

pub get : Sessions → String → String → Option Session
get [] agent instance' = none
get (s ∷ rest) agent instance' =
    let later = get rest agent instance' in if is_key agent instance' s then some s else later

pub pop : Sessions → String → String → Sessions
pop [] agent instance' = []
pop (s ∷ rest) agent instance' =
    let others = pop rest agent instance' in if is_key agent instance' s then others else s ∷ others

pub put : Sessions → Session → Sessions
put [] new = []
put (s ∷ rest) new =
    let below = put rest new in
    if is_key new.agent_id new.instance_id s then new ∷ rest else s ∷ below

abbrev pub taken : Option Session → Bool
taken none = false
taken (some s) = true

module _ (allowlisted : String → Bool) (valid_instance : String → Bool) where
  -- `connect`; `created` says whether the task factory succeeded, and the last component is the
  -- lease that is released where it did not.
  pub connect :
      Sessions
      → String
      → String
      → Acquired
      → Bool
      → Result Error Session × Sessions × Option SessionLease
  connect sessions agent instance' acquired created =
      if not (allowlisted agent)
      then (err agent_not_allowlisted, sessions, none)
      else if not (valid_instance instance')
      then (err invalid_instance_id, sessions, none)
      else if taken (get sessions agent instance')
      then (err instance_already_connected, sessions, none)
      else elim acquired [
        | conflict ↦ (err instance_already_connected, sessions, none)
        | failed ↦ (err redis_error, sessions, none)
        | leased lease ↦
            let session : Session = record {
              agent_id = agent;
              instance_id = instance';
              outbound = [];
              inflight = [];
              done = false;
              lease = lease;
              capacity_changed = false;
            } in
            if created
            then (ok session, sessions ++ session ∷ [], none)
            else (err task_not_created, sessions, some lease)
      ]

  -- `ensure_connected`; `live` says whether a lease is live on the local clock, and `owner` is what
  -- Redis names as the owner of the instance.
  pub ensure_connected :
      Sessions
      → (SessionLease → Bool)
      → Result Error (Option String)
      → String
      → String
      → Result Error (Unit {0})
  ensure_connected sessions live owner agent instance' = do
    ensure (valid_instance instance') invalid_instance_id
    ensure (allowlisted agent) agent_not_allowlisted
    elim (get sessions agent instance') [
      | some s ↦ ensure (live s.lease && not s.done) session_not_connected
      | none ↦ owner >>= λ o. elim o [ none ↦ err session_not_connected | some name ↦ ok tt ]
    ]

pub any_agent : String → Sessions → Bool
any_agent agent [] = false
any_agent agent (s ∷ rest) = str_eq s.agent_id agent || any_agent agent rest

-- `disconnect`: the session that is removed, whose lease is then released, and whether its agent
-- still has another.
pub disconnect : Sessions → String → String → (Option Session × Bool) × Sessions
disconnect sessions agent instance' =
    let remaining = pop sessions agent instance' in
    ((get sessions agent instance', any_agent agent remaining), remaining)

pub pop_inflight : Sessions → String → String → String → Option InflightDelivery × Sessions
pop_inflight sessions agent instance' delivery_id =
    if str_eq delivery_id "" then (none, sessions) else elim (get sessions agent instance') [
      | none ↦ (none, sessions)
      | some s ↦ elim (lookup delivery_id s.inflight) [
        | none ↦ (none, sessions)
        | some delivery ↦ (
          some delivery,
          put sessions
              (record s { inflight = remove delivery_id s.inflight; capacity_changed = true }),
        )
      ]
    ]

pub session : Sessions → String → String → Result Error Session
session sessions agent instance' = elim (get sessions agent instance') [
  | none ↦ err session_not_connected
  | some s ↦ ok s
]

pub lease_of : Sessions → String → String → Result Error SessionLease
lease_of sessions agent instance' = do s ← session sessions agent instance'; ok s.lease

pub snapshot_and_clear : Sessions → Sessions × Sessions
snapshot_and_clear sessions = (sessions, [])

-- The loop of `drop_oldest_outbound` on a queue of the given capacity.
pub drop_full : ℕ → List String → Dict InflightDelivery → ℕ × List String × Dict InflightDelivery
drop_full maxsize [] inflight = (0, [], inflight)
drop_full maxsize (oldest ∷ rest) inflight =
    let (dropped, queue, kept) = drop_full maxsize rest (remove oldest inflight) in
    if leb maxsize (length (oldest ∷ rest))
    then (suc dropped, queue, kept)
    else (0, oldest ∷ rest, inflight)

pub drop_oldest_outbound :
    ℕ → List String → Dict InflightDelivery → ℕ × List String × Dict InflightDelivery
drop_oldest_outbound maxsize queue inflight =
    if leb maxsize 0 || not (leb maxsize (length queue))
    then (0, queue, inflight)
    else drop_full maxsize queue inflight
