-- ===== src/Server/Sessions/Table.antt =====
-- What the operations do to the table of sessions and to the queue of a session.
use mas_framework.Common.{
  ℕ, ◌+◌, ◌<◌, ◌≡◌, refl, sym, inl, inr, Bool, not, ◌&&◌, ◌||◌, Option, none, some, List, [], ◌∷◌,
  ◌++◌, String, str_eq, str_eq_iff, arith, leb, if◌then◌else◌, length, Bool-cases, Option-cases,
}
use mas_framework.Common.Dict.{Dict, remove}
use mas_framework.Common.Results.{ok}
use mas_framework.Core.SessionLease.{SessionLease}
use mas_framework.Server.Sessions.{
  Acquired, leased, InflightDelivery, Session, Sessions, is_key, get, pop, connect, disconnect,
  drop_full, drop_oldest_outbound,
}

drop_full-counts :
    (maxsize : ℕ) (queue : List String) (inflight : Dict InflightDelivery)
    → 0 < maxsize
    → let (dropped, kept, left) = drop_full maxsize queue inflight in
      (length kept < maxsize) × (dropped + length kept ≡ length queue)
unfolding drop_full
drop_full-counts maxsize [] inflight h = (omega arith, omega arith)
drop_full-counts maxsize (oldest ∷ rest) inflight h =
    let r = drop_full-counts maxsize rest (remove oldest inflight) h in
    elim (Bool-cases (leb maxsize (length (oldest ∷ rest)))) [
      | inl full ↦ rw full (r.0, omega (arith, r.1))
      | inr roomy ↦ rw roomy (ground (arith, roomy), omega arith)
    ]

-- Where the queue has a bound, it is left with room for one delivery, and what is dropped is
-- counted.
pub drop_oldest_outbound-room :
    (maxsize : ℕ) (queue : List String) (inflight : Dict InflightDelivery)
    → 0 < maxsize
    → let (dropped, kept, left) = drop_oldest_outbound maxsize queue inflight in
      (length kept < maxsize) × (dropped + length kept ≡ length queue)
unfolding drop_oldest_outbound
drop_oldest_outbound-room maxsize queue inflight h =
    elim (Bool-cases (leb maxsize 0 || not (leb maxsize (length queue)))) [
      | inl room ↦ rw room (ground (arith, room), omega arith)
      | inr full ↦ rw full (drop_full-counts maxsize queue inflight h)
    ]

get-pop :
    (sessions : Sessions) (agent instance' : String)
    → get (pop sessions agent instance') agent instance' ≡ none
unfolding get pop
get-pop [] agent instance' = refl
get-pop (s ∷ rest) agent instance' = ground (arith, get-pop rest agent instance')

-- A session that is disconnected is returned once: the instance is not connected then.
pub disconnect_twice :
    (sessions : Sessions) (agent instance' : String)
    → let after = (disconnect sessions agent instance').1 in
      (disconnect after agent instance').0.0 ≡ none
unfolding disconnect
disconnect_twice sessions agent instance' = get-pop sessions agent instance'

get-append :
    (sessions : Sessions) (new : Session) (agent instance' : String)
    → get (sessions ++ new ∷ []) agent instance' ≡ (elim (get sessions agent instance') [
      | some s ↦ some s
      | none ↦ if is_key agent instance' new then some new else none
    ])
unfolding get
get-append [] new agent instance' = refl
get-append (s ∷ rest) new agent instance' = ground (arith, get-append rest new agent instance')

connect-ok_lem :
    (allowlisted valid_instance : String → Bool) (sessions after : Sessions)
    (agent instance' : String) (acquired : Acquired) (created : Bool) (session : Session)
    (released : Option SessionLease)
    → connect allowlisted valid_instance sessions agent instance' acquired created
      ≡ (ok session, after, released)
    → (get sessions agent instance' ≡ none)
      × (acquired ≡ leased session.lease)
      × (after ≡ sessions ++ session ∷ [])
      × (session.agent_id ≡ agent)
      × (session.instance_id ≡ instance')
unfolding connect
connect-ok_lem allowlisted valid_instance sessions after agent instance' acquired created session
      released e =
    elim (Option-cases (get sessions agent instance')) [
      | inl free ↦ ground arith
      | inr (s, f) ↦ absurd (ground arith)
    ]

-- A connection that succeeds found no session of its instance, holds the lease that was acquired,
-- and adds exactly its session to those that can be looked up.
pub connect-ok :
    (allowlisted valid_instance : String → Bool) (sessions after : Sessions)
    (agent instance' : String) (acquired : Acquired) (created : Bool) (session : Session)
    (released : Option SessionLease)
    → connect allowlisted valid_instance sessions agent instance' acquired created
      ≡ (ok session, after, released)
    → (get sessions agent instance' ≡ none)
      × (acquired ≡ leased session.lease)
      × ((a i : String)
          → get after a i
            ≡ (if str_eq agent a && str_eq instance' i then some session else get sessions a i))
unfolding is_key
connect-ok allowlisted valid_instance sessions after agent instance' acquired created session
      released e =
    let (free, held, q, qa, qi) =
      connect-ok_lem allowlisted valid_instance sessions after agent instance' acquired created
        session released e in
    (
      free,
      held,
      λ a i. elim (Bool-cases (str_eq agent a && str_eq instance' i)) [
        | inl same ↦
            let x : agent ≡ a = (str_eq_iff agent a).0 (ground arith) in
            let y : instance' ≡ i = (str_eq_iff instance' i).0 (ground arith) in
            let none_there : get sessions a i ≡ none = rw (sym x, sym y) free in
            rw (q, same)
              (ground (
                arith,
                get-append sessions session a i,
                qa,
                qi,
                str_eq_iff session.agent_id a,
                str_eq_iff session.instance_id i,
              ))
        | inr other ↦ elim (Option-cases (get sessions a i)) [
          | inl f ↦
              rw (q, other)
                (ground (
                  arith,
                  get-append sessions session a i,
                  qa,
                  qi,
                  str_eq_iff agent a,
                  str_eq_iff instance' i,
                  str_eq_iff session.agent_id a,
                  str_eq_iff session.instance_id i,
                ))
          | inr (s, f) ↦ rw (q, other) (ground (arith, get-append sessions session a i))
        ]
      ],
    )

-- Where the queue has no bound or has room, nothing is dropped.
pub drop_oldest_outbound-roomy :
    (maxsize : ℕ) (queue : List String) (inflight : Dict InflightDelivery)
    → (0 < maxsize → length queue < maxsize)
    → drop_oldest_outbound maxsize queue inflight ≡ (0, queue, inflight)
unfolding drop_oldest_outbound
drop_oldest_outbound-roomy maxsize queue inflight room =
    elim (Bool-cases (leb maxsize 0 || not (leb maxsize (length queue)))) [
      | inl r ↦ rw (r) refl
      | inr full ↦ absurd (ground (arith, full, room (ground (arith, full))))
    ]
