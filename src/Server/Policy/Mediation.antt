-- ===== src/Server/Policy/Mediation.antt =====
-- Nothing is enqueued but what passed every check, once, and with an entry in the audit.
use mathlib.Core.Path.{subst}
use mas_framework.Common.{
  ◌≡◌, refl, sym, ap, ◌⊎◌, inl, inr, Bool, true, false, not, ◌&&◌, Option, none, some, List, [],
  ◌∷◌, ◌++◌, String, if◌then◌else◌, is_some, append_nil, append_assoc, arith, Bool-cases,
  Option-cases,
}
use mas_framework.Common.Results.{Result, ok, err, Result-cases}
use mas_framework.Core.Protocol.{EnvelopeMessage, Fields}
use mas_framework.Core.RedisCommit.{StreamAppend, compatible_with}
use mas_framework.Server.Routing.{CorrelationCommit, prepare_stream_append}
use mas_framework.Server.Policy.{
  Decision, allowed, Error, audit_failed, Effect, check_rate, check_circuit, queue_circuit,
  scan_payload, log, route, commit, Components, Outcome, log_and_raise, stream_append,
  log_and_route, verdict, lift, identity_of,
}

-- The messages that the effects put into a stream, in their order.
abbrev pub enqueued : List Effect → List EnvelopeMessage
enqueued [] = []
enqueued (log d v payload (some (m, append)) ∷ es) = m ∷ enqueued es
enqueued (route m ∷ es) = m ∷ enqueued es
enqueued (commit m ∷ es) = m ∷ enqueued es
enqueued (_ ∷ es) = enqueued es

-- The decisions that the effects log, with their payloads.
abbrev pub logs : List Effect → List (Decision × Fields)
logs [] = []
logs (log d v payload append ∷ es) = (d, payload) ∷ logs es
logs (_ ∷ es) = logs es

-- What the scan, if there is one, leads to.
abbrev pub scanned : Components → EnvelopeMessage → Option (Decision × Fields)
scanned c m = elim c.scan [
  | none ↦ some (allowed, m.data')
  | some scan ↦ verdict (scan m.data').0 m.data'
]

abbrev pub circuit_passes : Components → EnvelopeMessage → Bool
circuit_passes c m = elim c.circuit_allowed [ none ↦ true | some check ↦ check m.target_id ]

-- The message passed every check, with the decision and the payload of the scan.
abbrev pub Cleared : Components → EnvelopeMessage → Decision → EnvelopeMessage → Type 0
Cleared c m d m' =
    (c.authorize m.sender_id m.target_id "send" ≡ true)
    × (c.rate_allowed m.sender_id m.message_id ≡ true)
    × (circuit_passes c m ≡ true)
    × (scanned c m ≡ some (d, m'.data'))
    × (m' ≡ record m { data' = m'.data' })

abbrev pub is_ok : {E A : Type 0} → Result E A → Bool
is_ok (ok a) = true
is_ok (err e) = false

-- A refusal, or a message that is enqueued once and logged once.
abbrev pub Mediated : Components → EnvelopeMessage → Outcome → Type 0
Mediated c m (r, es) =
    ((enqueued es ≡ []) × (is_ok r ≡ false))
    ⊎ ((d : Decision) × (m' : EnvelopeMessage) × (enqueued es ≡ m' ∷ [])
        × (logs es ≡ (d, m'.data') ∷ [])
        × Cleared c m d m')

abbrev pub quiet : Effect → Bool
quiet (log d v payload append) = false
quiet (route m) = false
quiet (commit m) = false
quiet _ = true

abbrev pub Quiet : List Effect → Type 0
Quiet [] = Unit {0}
Quiet (e ∷ es) = (quiet e ≡ true) × Quiet es

enqueued-Quiet : (before es : List Effect) → Quiet before → enqueued (before ++ es) ≡ enqueued es
enqueued-Quiet [] es q = refl
enqueued-Quiet (check_rate ∷ before) es q = enqueued-Quiet before es q.1
enqueued-Quiet (check_circuit ∷ before) es q = enqueued-Quiet before es q.1
enqueued-Quiet (queue_circuit ∷ before) es q = enqueued-Quiet before es q.1
enqueued-Quiet (scan_payload ∷ before) es q = enqueued-Quiet before es q.1
enqueued-Quiet (log d v payload append ∷ before) es q = absurd (ground (arith, q.0))
enqueued-Quiet (route m ∷ before) es q = absurd (ground (arith, q.0))
enqueued-Quiet (commit m ∷ before) es q = absurd (ground (arith, q.0))

logs-Quiet : (before es : List Effect) → Quiet before → logs (before ++ es) ≡ logs es
logs-Quiet [] es q = refl
logs-Quiet (check_rate ∷ before) es q = logs-Quiet before es q.1
logs-Quiet (check_circuit ∷ before) es q = logs-Quiet before es q.1
logs-Quiet (queue_circuit ∷ before) es q = logs-Quiet before es q.1
logs-Quiet (scan_payload ∷ before) es q = logs-Quiet before es q.1
logs-Quiet (log d v payload append ∷ before) es q = absurd (ground (arith, q.0))
logs-Quiet (route m ∷ before) es q = absurd (ground (arith, q.0))
logs-Quiet (commit m ∷ before) es q = absurd (ground (arith, q.0))

pub Quiet-append : (xs ys : List Effect) → Quiet xs → Quiet ys → Quiet (xs ++ ys)
Quiet-append [] ys p q = q
Quiet-append (x ∷ xs) ys p q = (p.0, Quiet-append xs ys p.1 q)

-- What follows what is quiet decides.
Mediated-Quiet :
    (c : Components) (m : EnvelopeMessage) (r : Result Error String) (before es : List Effect)
    → Quiet before
    → Mediated c m (r, es)
    → Mediated c m (r, before ++ es)
Mediated-Quiet c m r before es q h = rw (enqueued-Quiet before es q, logs-Quiet before es q) h

pub log_and_raise-Mediated :
    (c : Components) (m : EnvelopeMessage) (before : List Effect) (d : Decision) (v : List String)
    (e : Error)
    → Quiet before
    → Mediated c m (log_and_raise c m before d v e)
unfolding log_and_raise
log_and_raise-Mediated c m before d v e q =
    Mediated-Quiet c m (err (if c.logged then e else audit_failed)) before
      (log d v m.data' none ∷ []) q (inl (refl, refl))

followed :
    (c : Components) (m : EnvelopeMessage) (r : Result Error String) (before : List Effect)
    (first second : Effect)
    → Quiet before
    → Mediated c m (r, first ∷ second ∷ [])
    → Mediated c m (r, before ++ first ∷ [] ++ second ∷ [])
followed c m r before first second q h =
    subst (λ es. Mediated c m (r, es)) (sym (append_assoc before (first ∷ []) (second ∷ [])))
      (Mediated-Quiet c m r before (first ∷ second ∷ []) q h)

stream_append-some :
    (c : Components) (m x : EnvelopeMessage) (correlation : Option CorrelationCommit)
    (a : StreamAppend)
    → stream_append c m correlation ≡ ok (some (x, a))
    → (correlation ≡ none) × (x ≡ m)
unfolding stream_append
stream_append-some c m x correlation a h =
    elim (Bool-cases (
      compatible_with c.audit_target c.router_target
      && not (is_some correlation)
      && not m.meta.is_reply)) [
        | inr off ↦ absurd (ground arith)
        | inl on ↦ elim (Result-cases (prepare_stream_append c.dump_json m)) [
          | inr (e, q) ↦ absurd (ground arith)
          | inl (append, q) ↦ elim (Option-cases correlation) [
            | inr (k, f) ↦ absurd (ground arith)
            | inl f ↦ (f, ground arith)
          ]
        ]
      ]

-- A message that is cleared is enqueued at the end, or refused by an exception.
pub log_and_route-Mediated :
    (c : Components) (m m' : EnvelopeMessage) (correlation : Option CorrelationCommit)
    (before : List Effect) (d : Decision) (v : List String)
    → Quiet before
    → Cleared c m d m'
    → Mediated c m (log_and_route c m' correlation before d v)
unfolding log_and_route
log_and_route-Mediated c m m' correlation before d v q cleared =
    let to_release : (o : Outcome)
        → log_and_route c m' correlation before d v ≡ o
        → Mediated c m o
        → Mediated c m (log_and_route c m' correlation before d v) =
      λ o e h. subst (Mediated c m) (sym e) h in
    elim (Result-cases (stream_append c m' correlation)) [
      | inr (e, f) ↦
          to_release (err e, before) (ground arith)
            (subst (λ es. Mediated c m (err e, es)) (append_nil before)
              (Mediated-Quiet c m (err e) before [] q (inl (refl, refl))))
      | inl (none, f) ↦ elim (Bool-cases c.logged) [
        | inr failed ↦
            to_release (err audit_failed, before ++ log d v m'.data' none ∷ []) (ground arith)
              (Mediated-Quiet c m (err audit_failed) before (log d v m'.data' none ∷ []) q
                (inl (refl, refl)))
        | inl logged ↦ elim (Option-cases correlation) [
          | inl g ↦
              to_release
                (
                  identity_of m' (lift c.routed),
                  before ++ log d v m'.data' none ∷ [] ++ route m' ∷ [],
                )
                (ground arith)
                (followed c m (identity_of m' (lift c.routed)) before (log d v m'.data' none)
                  (route m') q (inr (d, m', refl, refl, cleared)))
          | inr (k, g) ↦
              to_release (lift c.committed, before ++ log d v m'.data' none ∷ [] ++ commit m' ∷ [])
                (ground arith)
                (followed c m (lift c.committed) before (log d v m'.data' none) (commit m') q
                  (inr (d, m', refl, refl, cleared)))
        ]
      ]
      | inl (some (x, a), f) ↦
          let (alone, same) = stream_append-some c m' x correlation a f in
          let done : (r : Result Error String)
              → Mediated c m (r, before ++ log d v m'.data' (some (x, a)) ∷ []) =
            λ r.
              Mediated-Quiet c m r before (log d v m'.data' (some (x, a)) ∷ []) q
                (inr (d, m', ap (λ y. y ∷ []) same, refl, cleared)) in
          elim (Bool-cases c.logged) [
            | inr failed ↦
                to_release (err audit_failed, before ++ log d v m'.data' (some (x, a)) ∷ [])
                  (ground arith) (done (err audit_failed))
            | inl logged ↦
                to_release (ok m'.message_id, before ++ log d v m'.data' (some (x, a)) ∷ [])
                  (ground arith) (done (ok m'.message_id))
          ]
    ]
