-- ===== src/Server/Delivery/Scripts.antt =====
-- Every script keeps the streams well formed.
use mas_framework.Common.{
  ℕ, zero, suc, ◌≡◌, refl, ltb, Bool, true, false, ◌&&◌, Option, List, [], ◌∷◌, ◌++◌, String,
  str_eq, str_eq_iff, if◌then◌else◌, is_some, arith, inl, inr, Bool-cases, Option-cases, All,
  All-append,
}
use Prim.Native.String.{◌++◌ as str_append}
use mas_framework.Common.Dict.{lookup, insert}
use mas_framework.Common.Results.{Result, ok, err, Result-cases, ◌>>=◌}
use mas_framework.Core.SessionLease.{SessionLease}
use mas_framework.Server.Sessions.{InflightDelivery}
use mas_framework.Server.Delivery.{
  Error, RawFields, Entry, Store, is_text, owns_pending, fenced, xadd, ack_entry, find_entry,
  entries_after, take, limited, deliver_to, last_id, xreadgroup, dead_letter, Unacknowledged,
  ack_and_delete, requeue_and_ack, commit_delivery, read_script,
}
use mas_framework.Server.Delivery.Service.{
  Conditions, Settings, External, Network, answered, unanswered, unsent, over, write_dlq,
  dlq_fields, settle_nack, ack_inflight,
}
use mas_framework.Server.Delivery.Claim.{claim_script, reassign, has_id}
use mas_framework.Server.Delivery.WellFormed.{
  WellFormed, Present, Distinct, ack_entry-WellFormed, xadd-WellFormed, All-map,
}

over-WellFormed :
    {A : Type 0} (net : Network) (s : Store) (r : Result Error A × Store)
    → WellFormed s
    → WellFormed r.1
    → WellFormed (over net s r).1
over-WellFormed answered s r w w' = w'
over-WellFormed unanswered s r w w' = w'
over-WellFormed unsent s r w w' = w

fenced-WellFormed :
    (s : Store) (guards : Result Error Bool) (done : Result Error Store)
    → WellFormed s
    → ((s' : Store) → done ≡ ok s' → WellFormed s')
    → WellFormed (fenced s guards done).1
fenced-WellFormed s (err e) done w f = w
fenced-WellFormed s (ok false) done w f = w
fenced-WellFormed s (ok true) (err e) w f = w
fenced-WellFormed s (ok true) (ok s') w f = f s' refl

Present-cons :
    (e : Entry) (es : List Entry) (p : Unacknowledged) → Present es p → Present (e ∷ es) p
unfolding find_entry
Present-cons e es p h = ground arith

-- What was found is in the stream.
found-Present :
    (stream consumer : String) (position now : ℕ) (es : List Entry)
    → Distinct es
    → All (Present es) (deliver_to consumer now (entries_after stream position es))
unfolding deliver_to entries_after find_entry
found-Present stream consumer position now [] d = tt
found-Present stream consumer position now (e ∷ es) d =
    let rest = All-map _ (Present-cons e es) (found-Present stream consumer position now es d.1) in
    elim (Bool-cases (str_eq e.stream stream && ltb position e.id)) [
      | inr other ↦ rw (other) rest
      | inl same ↦ rw (same) (ground (arith, str_eq_iff e.stream e.stream), rest)
    ]

take-Present :
    (consumer : String) (now n : ℕ) (all es : List Entry)
    → All (Present all) (deliver_to consumer now es)
    → All (Present all) (deliver_to consumer now (take n es))
unfolding deliver_to take
take-Present consumer now zero all es a = tt
take-Present consumer now (suc n) all [] a = tt
take-Present consumer now (suc n) all (e ∷ es) a = (a.0, take-Present consumer now n all es a.1)

limited-Present :
    (consumer : String) (now n : ℕ) (all es : List Entry)
    → All (Present all) (deliver_to consumer now es)
    → All (Present all) (deliver_to consumer now (limited n es))
unfolding limited
limited-Present consumer now zero all es a = a
limited-Present consumer now (suc n) all es a = take-Present consumer now (suc n) all es a

xreadgroup-WellFormed :
    (s s' : Store) (consumer : String) (count now : ℕ) (streams : List String) (es : List Entry)
    → WellFormed s
    → xreadgroup s consumer count now streams ≡ ok (es, s')
    → WellFormed s'
unfolding xreadgroup
xreadgroup-WellFormed s s' consumer count now [] es w h = let q : s' ≡ s = ground arith in rw (q) w
xreadgroup-WellFormed s s' consumer count now (stream ∷ streams) es w h =
    elim (Option-cases (lookup stream s.positions)) [
      | inl none' ↦ absurd (ground arith)
      | inr (position, g) ↦
          let found = limited count (entries_after stream position s.entries) in
          let s2 = record s {
            positions = insert stream (last_id position found) s.positions;
            pending = s.pending ++ deliver_to consumer now found;
          } in
          elim (Result-cases (xreadgroup s2 consumer count now streams)) [
            | inr (x, f) ↦ absurd (ground arith)
            | inl ((more, s3), f) ↦
                let q : s' ≡ s3 = ground arith in
                rw (q) (
                  xreadgroup-WellFormed s2 s3 consumer count now streams more
                    (
                      w.0,
                      w.1,
                      All-append (Present s.entries) s.pending (deliver_to consumer now found) w.2 (
                          limited-Present consumer now count s.entries _
                            (found-Present stream consumer position now s.entries w.1)),
                    )
                    f)
          ]
    ]

reassign-Present :
    (stream consumer : String) (now : ℕ) (ids : List ℕ) (es : List Entry) (ps : List Unacknowledged)
    → All (Present es) ps
    → All (Present es) (reassign stream consumer now ids es ps)
unfolding reassign
reassign-Present stream consumer now ids es [] a = tt
reassign-Present stream consumer now ids es (p ∷ ps) a =
    let rest = reassign-Present stream consumer now ids es ps a.1 in
    elim (Bool-cases (str_eq p.stream stream && has_id p.entry ids)) [
      | inr other ↦ rw (other) (a.0, rest)
      | inl same ↦ elim (Bool-cases (is_some (find_entry stream p.entry es))) [
        | inr gone ↦ rw (same, gone) rest
        | inl there ↦ rw (same, there) (a.0, rest)
      ]
    ]

claim_script-WellFormed :
    (s : Store) (current : Option String) (owner stream consumer : String)
    (now min_idle start count : ℕ)
    → WellFormed s
    → WellFormed (claim_script s current owner stream consumer now min_idle start count).1
unfolding claim_script
claim_script-WellFormed s current owner stream consumer now min_idle start count w =
    elim (Bool-cases (is_text owner current)) [
      | inr other ↦ rw (other) w
      | inl same ↦ elim (Bool-cases (is_some (lookup stream s.positions))) [
        | inr no_group ↦ rw (same, no_group) w
        | inl group ↦
            rw (same, group)
              (w.0, w.1, reassign-Present stream consumer now _ s.entries s.pending w.2)
      ]
    ]

-- A read of well-formed streams that succeeds leaves them well formed.
pub read-WellFormed :
    (s s' : Store) (current : Option String) (owner consumer : String) (streams : List String)
    (count now : ℕ) (found : Option (List Entry))
    → WellFormed s
    → read_script s current owner streams consumer count now ≡ ok (found, s')
    → WellFormed s'
unfolding read_script
read-WellFormed s s' current owner consumer streams count now found w h =
    elim (Bool-cases (is_text owner current)) [
      | inr other ↦ let q : s' ≡ s = ground arith in rw (q) w
      | inl same ↦ elim (Result-cases (xreadgroup s consumer count now streams)) [
        | inr (x, f) ↦ absurd (ground arith)
        | inl ((more, s2), f) ↦
            let q : s' ≡ s2 = ground arith in
            rw (q) (xreadgroup-WellFormed s s2 consumer count now streams more w f)
      ]
    ]

dead_letter-WellFormed :
    (enabled : Bool) (fields : RawFields) (s s' : Store)
    → WellFormed s
    → dead_letter enabled fields s ≡ ok s'
    → WellFormed s'
unfolding dead_letter
dead_letter-WellFormed enabled fields s s' w h = elim (Bool-cases enabled) [
  | inr off ↦ let q : s' ≡ s = ground arith in rw (q) w
  | inl on ↦ let q : s' ≡ record s { dlq = s.dlq ++ fields ∷ [] } = ground arith in rw (q) w
]

dead-WellFormed :
    (enabled : Bool) (fields : RawFields) (d : InflightDelivery) (s s' : Store)
    → WellFormed s
    → (dead_letter enabled fields s >>= λ x. ok (ack_entry d.stream_name d.entry_id x)) ≡ ok s'
    → WellFormed s'
dead-WellFormed enabled fields d s s' w h = elim (Result-cases (dead_letter enabled fields s)) [
  | inr (x, q) ↦ absurd (ground arith)
  | inl (x, q) ↦
      let r : s' ≡ ack_entry d.stream_name d.entry_id x = ground arith in
      rw (r) (
        ack_entry-WellFormed d.stream_name d.entry_id x
          (dead_letter-WellFormed enabled fields s x w q))
]

module _ (ext : External) (settings : Settings) where
  -- Acknowledgements and negative ones keep the streams well formed: entries have different names
  -- below the next one, and whatever is pending is in its stream.
  pub settle-WellFormed :
      (s : Store) (env : Conditions) (d : InflightDelivery) (lease : SessionLease) (reason : String)
      (retryable : Bool)
      → WellFormed s
      → WellFormed (ack_inflight s env d d.consumer lease).1
        × WellFormed (settle_nack ext settings s env d lease reason retryable).1
  unfolding ack_inflight settle_nack write_dlq ack_and_delete requeue_and_ack commit_delivery
      dlq_fields
  settle-WellFormed s env d lease reason retryable w =
      let guards = owns_pending s env.owner lease.owner d.stream_name d.entry_id d.consumer in
      let acked = ack_entry d.stream_name d.entry_id in
      let kept = ack_entry-WellFormed d.stream_name d.entry_id in
      (
        over-WellFormed env.network s _ w (
            fenced-WellFormed s guards (ok (acked s)) w
              (λ s' e. let q : s' ≡ acked s = ground arith in rw (q) (kept s w))),
        elim (Bool-cases (retryable && ltb d.attempt settings.max_delivery_attempts)) [
          | inl again ↦ rw (again) (
              over-WellFormed env.network s _ w (
                fenced-WellFormed s guards _ w (λ s' e.
                  let s1 =
                    xadd d.stream_name
                      (("envelope", d.envelope_json)
                        ∷ ("attempt", ext.show_int (suc d.attempt))
                        ∷ [])
                      s in
                  let q : s' ≡ acked s1 = ground arith in
                  rw (q) (kept s1 (xadd-WellFormed d.stream_name _ s w)))))
          | inr last ↦ rw (last) (
              over-WellFormed env.network s _ w (
                fenced-WellFormed s guards _ w (λ s' e.
                  dead-WellFormed settings.dlq_enabled
                    (dlq_fields ext settings env.now d.envelope_json
                      (if retryable then str_append reason "; retry_limit_exceeded" else reason))
                    d s s' w e)))
        ],
      )
