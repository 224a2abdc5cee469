-- ===== src/Server/Delivery/Conservation.antt =====
-- No operation on a delivery loses its message or makes another of it.
use mas_framework.Common.{
  ℕ, suc, ◌+◌, ◌≡◌, ◌≢◌, refl, ap, ◌∙◌, ltb, Bool, true, false, ◌&&◌, Option, none, some, List, [],
  ◌∷◌, ◌++◌, String, str_eq, str_eq_iff, arith, inl, inr, ◌⊎◌, Bool-cases, Option-cases,
}
use mas_framework.Common.Dict.{lookup}
use mas_framework.Common.Results.{Result, ok, err, Result-cases, ◌>>=◌}
use mas_framework.Core.SessionLease.{SessionLease}
use mas_framework.Server.Sessions.{InflightDelivery}
use mas_framework.Server.Delivery.{
  Error, redis_error, RawFields, Entry, Store, xadd, pending_for, xdel, ack_entry, find_entry,
  owns_pending, fenced, ack_and_delete, requeue_and_ack, dead_letter, commit_delivery,
}
use mas_framework.Server.Delivery.Service.{
  Conditions, Settings, External, Network, answered, unanswered, unsent, over, dlq_fields,
  write_dlq, settle_nack, ack_inflight, identity_fields,
}
use mas_framework.Server.Delivery.WellFormed.{
  Distinct, WellFormed, names, find_entry-append, Distinct-append, xdel-absent, pending_for-found,
}

abbrev pub has_envelope : String → RawFields → Bool
has_envelope t fields = elim (lookup "envelope" fields) [ none ↦ false | some u ↦ str_eq u t ]

abbrev pub one_if : Bool → ℕ
one_if true = 1
one_if false = 0

-- The entries with the envelope, and the records of the dead-letter stream with it.
abbrev pub held : String → List Entry → ℕ
held t [] = 0
held t (e ∷ es) = one_if (has_envelope t e.fields) + held t es

abbrev pub dead : String → List RawFields → ℕ
dead t [] = 0
dead t (r ∷ rs) = one_if (has_envelope t r) + dead t rs

-- The delivery has the envelope of its entry, if that is still there.
abbrev pub Sound : List Entry → InflightDelivery → Type 0
Sound es d = elim (find_entry d.stream_name d.entry_id es) [
  | none ↦ Unit {0}
  | some e ↦ lookup "envelope" e.fields ≡ some d.envelope_json
]

has_envelope-some :
    (t u : String) (fields : RawFields)
    → lookup "envelope" fields ≡ some u
    → has_envelope t fields ≡ str_eq u t
has_envelope-some t u fields h = ground arith

held-append :
    (t : String) (es : List Entry) (e : Entry)
    → held t (es ++ e ∷ []) ≡ held t es + one_if (has_envelope t e.fields)
held-append t [] e = omega arith
held-append t (x ∷ es) e = omega (arith, held-append t es e)

dead-append :
    (t : String) (rs : List RawFields) (r : RawFields)
    → dead t (rs ++ r ∷ []) ≡ dead t rs + one_if (has_envelope t r)
dead-append t [] e = omega arith
dead-append t (x ∷ es) e = omega (arith, dead-append t es e)

held-xdel :
    (t stream : String) (id : ℕ) (es : List Entry) (e : Entry)
    → Distinct es
    → find_entry stream id es ≡ some e
    → held t (xdel stream id es) + one_if (has_envelope t e.fields) ≡ held t es
unfolding find_entry xdel
held-xdel t stream id [] e d h = absurd (ground arith)
held-xdel t stream id (x ∷ es) e d h = elim (Bool-cases (names stream id x)) [
  | inl same ↦
      let q : x ≡ e = ground arith in
      let s : x.stream ≡ stream = (str_eq_iff x.stream stream).0 (ground arith) in
      let i : x.id ≡ id = ground arith in
      let gone : xdel stream id es ≡ es = rw (← s, ← i) (xdel-absent x.stream x.id es d.0) in
      rw (same, gone, ← q) (omega arith)
  | inr other ↦ rw (other) (omega (arith, held-xdel t stream id es e d.1 (ground arith)))
]

owns_pending-found :
    (s : Store) (current : Option String) (owner stream consumer : String) (id : ℕ)
    → WellFormed s
    → owns_pending s current owner stream id consumer ≡ ok true
    → (e : Entry) × (find_entry stream id s.entries ≡ some e)
unfolding owns_pending
owns_pending-found s current owner stream consumer id (below, distinct, present) h =
    elim (Option-cases (pending_for stream id s.pending)) [
      | inl q ↦ absurd (ground arith)
      | inr (c, q) ↦ elim (Option-cases (find_entry stream id s.entries)) [
        | inl none' ↦
            absurd
              (ground (arith, none', pending_for-found stream c id s.entries s.pending present q))
        | inr found ↦ found
      ]
    ]

-- A script leaves the store, or does what it does where its guards hold.
pub fenced-store :
    (s : Store) (guards : Result Error Bool) (done : Result Error Store)
    → ((fenced s guards done).1 ≡ s)
      ⊎ ((guards ≡ ok true) × ((s' : Store) × (done ≡ ok s') × ((fenced s guards done).1 ≡ s')))
fenced-store s (err e) done = inl refl
fenced-store s (ok false) done = inl refl
fenced-store s (ok true) (err e) = inl refl
fenced-store s (ok true) (ok s') = inr (refl, (s', refl, refl))

pub over-store :
    {A : Type 0} (net : Network) (s : Store) (r : Result Error A × Store)
    → ((over net s r).1 ≡ s) ⊎ ((over net s r).1 ≡ r.1)
over-store answered s r = inr refl
over-store unanswered s r = inr refl
over-store unsent s r = inl refl

-- Both counts together.
abbrev pub kept : String → Store → ℕ
kept t s = held t s.entries + dead t s.dlq

requeue-kept :
    (t envelope attempt stream : String) (id : ℕ) (s : Store) (e : Entry)
    → WellFormed s
    → find_entry stream id s.entries ≡ some e
    → lookup "envelope" e.fields ≡ some envelope
    → kept t
        (ack_entry stream id (xadd stream (("envelope", envelope) ∷ ("attempt", attempt) ∷ []) s))
      ≡ kept t s
unfolding ack_entry xadd lookup
requeue-kept t envelope attempt stream id s e (below, distinct, present) h env =
    let new : Entry = record {
      id = s.next;
      stream = stream;
      fields = ("envelope", envelope) ∷ ("attempt", attempt) ∷ [];
    } in
    let found : find_entry stream id (s.entries ++ new ∷ []) ≡ some e =
      ground (arith, find_entry-append stream id s.entries new) in
    let a =
      held-xdel t stream id (s.entries ++ new ∷ []) e (Distinct-append s.entries new distinct below)
        found in
    let b = held-append t s.entries new in
    let c : has_envelope t e.fields ≡ str_eq envelope t =
      has_envelope-some t envelope e.fields env in
    omega (arith, a, b, ap one_if c)

dlq_fields-envelope :
    (ext : External) (settings : Settings) (now : ℕ) (envelope reason : String)
    → lookup "envelope" (dlq_fields ext settings now envelope reason) ≡ some envelope
unfolding dlq_fields identity_fields lookup
dlq_fields-envelope ext settings now envelope reason =
    elim (Option-cases (ext.parse_envelope envelope)) [
      | inl q ↦ rw (q) refl
      | inr (m, q) ↦ rw (q) refl
    ]

pub dead_letter-store :
    (fields : RawFields) (s s' : Store)
    → dead_letter true fields s ≡ ok s'
    → s' ≡ record s { dlq = s.dlq ++ fields ∷ [] }
unfolding dead_letter
dead_letter-store fields s s' h = ground arith

commit-kept :
    (t envelope stream : String) (id : ℕ) (fields : RawFields) (s s' : Store) (e : Entry)
    → WellFormed s
    → find_entry stream id s.entries ≡ some e
    → lookup "envelope" e.fields ≡ some envelope
    → lookup "envelope" fields ≡ some envelope
    → (dead_letter true fields s >>= λ x. ok (ack_entry stream id x)) ≡ ok s'
    → kept t s' ≡ kept t s
unfolding ack_entry
commit-kept t envelope stream id fields s s' e (below, distinct, present) h env env' done =
    elim (Result-cases (dead_letter true fields s)) [
      | inr (x, q) ↦ absurd (ground arith)
      | inl (x, q) ↦
          let r : s' ≡ ack_entry stream id x = ground arith in
          let d = dead_letter-store fields s x q in
          let a = held-xdel t stream id s.entries e distinct h in
          let b = dead-append t s.dlq fields in
          let c = has_envelope-some t envelope e.fields env in
          let c' = has_envelope-some t envelope fields env' in
          rw (r, d) (omega (arith, a, b, ap one_if c, ap one_if c'))
    ]

Sound-some :
    (es : List Entry) (d : InflightDelivery) (e : Entry)
    → Sound es d
    → find_entry d.stream_name d.entry_id es ≡ some e
    → lookup "envelope" e.fields ≡ some d.envelope_json
Sound-some es d e sound h = ground arith

over-kept :
    {A : Type 0} (t : String) (net : Network) (s : Store) (r : Result Error A × Store)
    → kept t r.1 ≡ kept t s
    → kept t (over net s r).1 ≡ kept t s
over-kept t net s r h = elim (over-store net s r) [
  | inl same ↦ ap (kept t) same
  | inr ran ↦ ap (kept t) ran ∙ h
]

requeue_and_ack-kept :
    (t owner attempt : String) (s : Store) (current : Option String) (d : InflightDelivery)
    → WellFormed s
    → Sound s.entries d
    → kept t
        (requeue_and_ack s current owner d.stream_name d.entry_id d.consumer d.envelope_json
          attempt).1
      ≡ kept t s
unfolding requeue_and_ack
requeue_and_ack-kept t owner attempt s current d w sound =
    let guards = owns_pending s current owner d.stream_name d.entry_id d.consumer in
    let s' =
      ack_entry d.stream_name d.entry_id
        (xadd d.stream_name (("envelope", d.envelope_json) ∷ ("attempt", attempt) ∷ []) s) in
    elim (fenced-store s guards (ok s')) [
      | inl same ↦ ap (kept t) same
      | inr (owned, (x, done, ran)) ↦
          let (e, found) =
            owns_pending-found s current owner d.stream_name d.consumer d.entry_id w owned in
          let q : x ≡ s' = ground arith in
          ap (kept t) (ran ∙ q)
          ∙ requeue-kept t d.envelope_json attempt d.stream_name d.entry_id s e w found
              (Sound-some s.entries d e sound found)
    ]

commit_delivery-kept :
    (t owner : String) (fields : RawFields) (s : Store) (current : Option String)
    (d : InflightDelivery)
    → WellFormed s
    → Sound s.entries d
    → lookup "envelope" fields ≡ some d.envelope_json
    → kept t (commit_delivery s current owner d.stream_name d.entry_id d.consumer true fields).1
      ≡ kept t s
unfolding commit_delivery
commit_delivery-kept t owner fields s current d w sound env =
    elim (fenced-store s (owns_pending s current owner d.stream_name d.entry_id d.consumer)
      (dead_letter true fields s >>= λ x. ok (ack_entry d.stream_name d.entry_id x))) [
        | inl same ↦ ap (kept t) same
        | inr (owned, (x, done, ran)) ↦
            let (e, found) =
              owns_pending-found s current owner d.stream_name d.consumer d.entry_id w owned in
            ap (kept t) ran
            ∙ commit-kept t d.envelope_json d.stream_name d.entry_id fields s x e w found
                (Sound-some s.entries d e sound found) env done
      ]

module _ (ext : External) (settings : Settings) where
  write_dlq-kept :
      (s : Store) (env : Conditions) (d : InflightDelivery) (lease : SessionLease) (reason : String)
      (t : String)
      → settings.dlq_enabled ≡ true
      → WellFormed s
      → Sound s.entries d
      → kept t (write_dlq ext settings s env d lease reason).1 ≡ kept t s
  unfolding write_dlq dlq_fields
  write_dlq-kept s env d lease reason t on w sound =
      let fields = dlq_fields ext settings env.now d.envelope_json reason in
      over-kept t env.network s _ (
        rw (on) (
          commit_delivery-kept t lease.owner fields s env.owner d w sound
            (dlq_fields-envelope ext settings env.now d.envelope_json reason)))

  -- With the dead-letter stream enabled, in well-formed streams and for a delivery that has the
  -- envelope of its entry: a negative acknowledgement keeps, for every envelope, the number of
  -- entries and of dead letters with it together, whichever way it is settled, whoever owns the
  -- session, and whether or not the script is run or answered.
  pub settle_nack-kept :
      (s : Store) (env : Conditions) (d : InflightDelivery) (lease : SessionLease) (reason : String)
      (retryable : Bool) (t : String)
      → settings.dlq_enabled ≡ true
      → WellFormed s
      → Sound s.entries d
      → kept t (settle_nack ext settings s env d lease reason retryable).1 ≡ kept t s
  unfolding settle_nack
  settle_nack-kept s env d lease reason retryable t on w sound =
      elim (Bool-cases (retryable && ltb d.attempt settings.max_delivery_attempts)) [
        | inl again ↦ rw (again) (
            over-kept t env.network s _ (
              requeue_and_ack-kept t lease.owner (ext.show_int (suc d.attempt)) s env.owner d w
                sound))
        | inr last ↦ rw (last) (write_dlq-kept s env d lease _ t on w sound)
      ]

-- What comes of a script whose effect cannot fail.
fenced-cases :
    (s s' : Store) (guards : Result Error Bool)
    → ((guards ≡ ok true) × (fenced s guards (ok s') ≡ (ok true, s')))
      ⊎ (((fenced s guards (ok s')).1 ≡ s) × ((fenced s guards (ok s')).0 ≢ ok true))
fenced-cases s s' (err e) = inr (refl, λ h. absurd (ground arith))
fenced-cases s s' (ok false) = inr (refl, λ h. absurd (ground arith))
fenced-cases s s' (ok true) = inl (refl, refl)

-- The entry is gone, and the answer says so or is lost; or nothing changed.
abbrev pub Removes : InflightDelivery → String → Store → Result Error Bool × Store → Type 0
Removes d t s (r, s') =
    (s'.dlq ≡ s.dlq)
    × (((held t s'.entries + one_if (str_eq d.envelope_json t) ≡ held t s.entries)
          × ((r ≡ ok true) ⊎ (r ≡ err redis_error)))
        ⊎ ((s' ≡ s) × (r ≢ ok true)))

over-Removes :
    (d : InflightDelivery) (t : String) (net : Network) (s : Store) (x : Result Error Bool × Store)
    → Removes d t s x
    → Removes d t s (over net s x)
over-Removes d t answered s x h = h
over-Removes d t unanswered s (r, s') (dlq, inl (gone, said)) = (dlq, inl (gone, inr refl))
over-Removes d t unanswered s (r, s') (dlq, inr (same, silent)) =
    (dlq, inr (same, λ h. absurd (ground arith)))
over-Removes d t unsent s x h = (refl, inr (refl, λ h. absurd (ground arith)))

-- In well-formed streams, for a delivery that has the envelope of its entry, an acknowledgement
-- leaves the dead letters, and either takes away one entry with the envelope of the delivery and
-- none with another, its answer being success or lost, or changes nothing and does not answer with
-- success.
pub ack_inflight-Removes :
    (s : Store) (env : Conditions) (d : InflightDelivery) (lease : SessionLease) (t : String)
    → WellFormed s
    → Sound s.entries d
    → Removes d t s (ack_inflight s env d d.consumer lease)
unfolding ack_inflight ack_and_delete ack_entry
ack_inflight-Removes s env d lease t w sound =
    let guards = owns_pending s env.owner lease.owner d.stream_name d.entry_id d.consumer in
    let s' = ack_entry d.stream_name d.entry_id s in
    over-Removes d t env.network s (fenced s guards (ok s')) (elim (fenced-cases s s' guards) [
      | inl (owned, ran) ↦
          let (e, found) =
            owns_pending-found s env.owner lease.owner d.stream_name d.consumer d.entry_id w
              owned in
          let a = held-xdel t d.stream_name d.entry_id s.entries e w.1 found in
          let c =
            has_envelope-some t d.envelope_json e.fields (Sound-some s.entries d e sound found) in
          let gone : held t s'.entries + one_if (str_eq d.envelope_json t) ≡ held t s.entries =
            omega (arith, a, ap one_if c) in
          rw (ran) (refl, inl (gone, inl refl))
      | inr (same, silent) ↦ (ap (λ x. x.dlq) same, inr (same, silent))
    ])
