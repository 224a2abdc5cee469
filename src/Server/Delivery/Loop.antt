-- ===== src/Server/Delivery/Loop.antt =====
-- packages/mas-server/src/mas_server/delivery.py: a turn of the loop that reads the streams of a
-- session. Nothing else runs during a turn.
use mas_framework.Common.{
  ℕ, zero, suc, ◌-◌, ◌/◌, ◌==◌, ltb, leb, Bool, false, not, ◌&&◌, ◌||◌, Option, none, some, List,
  [], ◌∷◌, String, str_eq, if◌then◌else◌, length,
}
use Prim.Native.String.{◌++◌ as str_append}
use mas_framework.Common.Dict.{Dict, lookup}
use mas_framework.Common.Results.{Result, ok, err}
use mas_framework.Server.Sessions.{InflightDelivery, Session}
use mas_framework.Server.Delivery.{
  Error, session_lease_lost, Entry, Store, ack_and_delete, read_script,
}
use mas_framework.Server.Delivery.Claim.{claim_script}
use mas_framework.Server.Delivery.Service.{
  Conditions, Settings, External, over, consumer_of, deliver_entry,
}

abbrev pub min : ℕ → ℕ → ℕ
min a b = if leb a b then a else b

abbrev max : ℕ → ℕ → ℕ
max a b = if leb a b then b else a

-- What a step of the loop leaves, an exception included, and what follows it where there is none.
abbrev pub Step : Type 0 → Type 0
Step A = Result Error A × Session × Store

abbrev pub chain : {A B : Type 0} → Step A → (A → Session → Store → Step B) → Step B
chain (ok a, session, s) f = f a session s
chain (err e, session, s) f = (err e, session, s)

-- The result of a script that may change the store.
abbrev pub stored : {A : Type 0} → Store → Result Error (A × Store) → Result Error A × Store
stored s (ok (a, s')) = (ok a, s')
stored s (err e) = (err e, s)

abbrev pub to_step : Session → Result Error Session × Store → Step (Unit {0})
to_step session (ok session', s) = (ok tt, session', s)
to_step session (err e, s) = (err e, session, s)

-- `_available_capacity`, where 0 also stands for what is negative.
unfoldable pub available_capacity : Settings → Session → ℕ
available_capacity settings session =
    let capacity = settings.max_in_flight - length session.inflight in
    if ltb 0 settings.outbound_maxsize
    then min capacity (settings.outbound_maxsize - length session.outbound)
    else capacity

abbrev pub or_empty : Option String → String
or_empty none = ""
or_empty (some t) = t

-- What an entry meets while it is delivered, and the name of its delivery.
abbrev pub Circumstances : Type 0
Circumstances = ℕ → Conditions × String

pub shared_stream : Session → String
shared_stream session = str_append "agent.stream:" session.agent_id

pub instance_stream : Session → String
instance_stream session = str_append (shared_stream session) (str_append ":" session.instance_id)

-- The local variables of the loop that last from turn to turn.
pub record LoopState : Type 0 where
  pub shared_start : ℕ
  pub instance_start : ℕ
  pub stream_names : List String
  pub last_reclaim : ℕ

abbrev swapped : List String → List String
swapped (a ∷ b ∷ []) = b ∷ a ∷ []
swapped names = names

pub rotate : LoopState → LoopState
rotate loop = record loop { stream_names = swapped loop.stream_names }

-- The delivery of the entry is in flight.
pub is_inflight : Entry → Dict InflightDelivery → Bool
is_inflight e [] = false
is_inflight e ((name, d) ∷ rest) =
    (str_eq d.stream_name e.stream && d.entry_id == e.id) || is_inflight e rest

abbrev pub first_streams : ℕ → List String → List String
first_streams zero streams = []
first_streams (suc n) [] = []
first_streams (suc n) (stream ∷ streams) = stream ∷ first_streams n streams

module _ (ext : External) (settings : Settings) where
  -- The body of both loops over entries: one without an envelope is acknowledged, whatever comes of
  -- it.
  unfoldable pub handle_entry : Session → Store → Circumstances → Entry → Step (Unit {0})
  handle_entry session s around e =
      let (env, delivery_id) = around e.id in
      let envelope = or_empty (lookup "envelope" e.fields) in
      if str_eq envelope ""
      then (
        ok tt,
        session,
        (over env.network s
            (ack_and_delete s env.owner session.lease.owner e.stream e.id (consumer_of session))).1,
      )
      else to_step session (deliver_entry ext settings session s env delivery_id e envelope)

  -- The entries that were read. Where the limit is reached the loop over a stream ends, and so do
  -- those over the streams after it.
  unfoldable pub deliver_read : Session → Store → Circumstances → List Entry → Step (Unit {0})
  deliver_read session s around [] = (ok tt, session, s)
  deliver_read session s around (e ∷ es) =
      let all =
        chain (handle_entry session s around e)
          (λ _ session' s'. deliver_read session' s' around es) in
      if leb settings.max_in_flight (length session.inflight) then (ok tt, session, s) else all

  -- The entries that were claimed.
  unfoldable pub deliver_claimed : Session → Store → Circumstances → List Entry → Step (Unit {0})
  deliver_claimed session s around [] = (ok tt, session, s)
  deliver_claimed session s around (e ∷ es) =
      let all =
        chain (handle_entry session s around e)
          (λ _ session' s'. deliver_claimed session' s' around es) in
      let others = deliver_claimed session s around es in
      if is_inflight e session.inflight then others else all

  unfoldable pub claimed :
      Session → Store → Circumstances → ℕ → Result Error (Option (ℕ × List Entry)) → Step ℕ
  claimed session s around start (err x) = (ok start, session, s)
  claimed session s around start (ok none) = (err session_lease_lost, session, s)
  claimed session s around start (ok (some (next, messages))) =
      chain (deliver_claimed session s around messages) (λ _ session' s'. (ok next, session', s'))

  -- `_reclaim_pending`: the place to go on from.
  unfoldable pub reclaim_pending :
      Session → Store → Conditions → Circumstances → String → ℕ → Step ℕ
  reclaim_pending session s env around stream start =
      let capacity = available_capacity settings session in
      if capacity == 0
      then (ok start, session, s)
      else let (r, s') = over env.network s (
          claim_script s env.owner session.lease.owner stream (consumer_of session) env.now
            settings.reclaim_idle_ms start (min settings.reclaim_batch_size capacity)) in
        claimed session s' around start r

  unfoldable pub read :
      Session → Store → Circumstances → Result Error (Option (List Entry)) → Step (Unit {0})
  read session s around (err x) = (err x, session, s)
  read session s around (ok none) = (err session_lease_lost, session, s)
  read session s around (ok (some entries)) = deliver_read session s around entries

  -- Both streams of the session in turn.
  unfoldable pub reclaim_both :
      Session → Store → LoopState → Conditions → Conditions → Circumstances → ℕ → Step LoopState
  reclaim_both session s loop first second around now =
      chain (reclaim_pending session s first around (shared_stream session) loop.shared_start)
        (λ shared session' s'.
          chain
            (reclaim_pending session' s' second around (instance_stream session)
              loop.instance_start)
            (λ own session'' s''. (
              ok (record loop { shared_start = shared; instance_start = own; last_reclaim = now }),
              session'',
              s'',
            )))

  -- The read of a turn, from the streams in their order, where there is capacity.
  unfoldable pub read_streams :
      Session → Store → Conditions → Circumstances → List String → Step (Unit {0})
  read_streams session s env around streams =
      let capacity = available_capacity settings session in
      let selected = first_streams capacity streams in
      if capacity == 0
      then (ok tt, session, s)
      else let (r, s') = over env.network s (
          stored s (
            read_script s env.owner session.lease.owner selected (consumer_of session)
              (min 50 (capacity / length selected)) env.now)) in
        read session s' around r

  -- A turn of `_stream_loop` from the test of the capacity, where each script has its own conditions.
  unfoldable pub turn_from :
      Session
      → Store
      → LoopState
      → ℕ
      → Conditions
      → Conditions
      → Conditions
      → Circumstances
      → Step LoopState
  turn_from session s loop now first second reading around =
      if available_capacity settings session == 0
      then (ok loop, session, s)
      else chain
          (if leb (max 1000 settings.reclaim_idle_ms) (now - loop.last_reclaim)
            then reclaim_both session s loop first second around now
            else (ok loop, session, s))
          (λ loop' session' s'.
            chain (read_streams session' s' reading around loop.stream_names) (λ _ session'' s''. (
              ok (if available_capacity settings session' == 0 then loop' else rotate loop'),
              session'',
              s'',
            )))

  -- `turn`, a turn of `_stream_loop`, where the local clock says whether the lease is live.
  unfoldable pub turn :
      Session
      → Store
      → LoopState
      → Bool
      → ℕ
      → Conditions
      → Conditions
      → Conditions
      → Circumstances
      → Step LoopState
  turn session s loop live now first second reading around =
      if not live
      then (err session_lease_lost, session, s)
      else turn_from (record session { capacity_changed = false }) s loop now first second reading
          around
