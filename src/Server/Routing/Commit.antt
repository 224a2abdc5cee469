-- ===== src/Server/Routing/Commit.antt =====
-- What `commit_reply` does to the keys on every branch.
use mas_framework.Common.{
  ℕ, ◌≡◌, refl, ◌∙◌, ◌⊎◌, inl, inr, Bool, true, not, ◌||◌, Option, none, some, List, [], ◌∷◌, ◌++◌,
  String, str_eq, arith, Bool-cases, Option-cases, leb,
}
use mas_framework.Common.Sets.{member}
use mas_framework.Common.Dict.{lookup, insert, remove}
use mas_framework.Common.Results.{Result, ok, err, Result-cases}
use mas_framework.Core.Protocol.{EnvelopeMessage, truthy}
use mas_framework.Core.Durability.{Settings, Reply, confirm}
use mas_framework.Core.Durability
use mas_framework.Server.Routing.{
  Error, invalid_reply_envelope, ReplyReceipt, CorrelationCommit, Pending, request, other_pending,
  Completed, receipt, not_receipt, other_completed, Keyspace, get_pending, get_receipt, matching,
  replay_script, commit_pending, commit_script, make_receipt, commit_reply, replay_reply, min,
  or_empty, kept, alive, instance_stream, confirmed,
}

-- What a commit of a reply does: nothing, acknowledging only the receipt that is there, or it
-- exchanges the pending request for the entry and the receipt.
abbrev pub Settled :
    String → List (String × String) → Keyspace → Result Error String → Keyspace → Type 0
Settled c fields k r k' =
    ((k' ≡ k)
      × ((id : String)
          → r ≡ ok id
          → (old : ReplyReceipt) × (d : ℕ) × (lookup c k.receipts ≡ some (receipt old d))
            × (id ≡ old.message_id)))
    ⊎ ((p : Pending) × (new : ReplyReceipt) × (d : ℕ) × (stream : String) × (lookup c k.pending
          ≡ some p)
        × (k' ≡ record k {
          entries = k.entries ++ (stream, fields) ∷ [];
          receipts = insert c (receipt new d) k.receipts;
          pending = remove c k.pending;
        })
        × ((id : String) → r ≡ ok id → id ≡ new.message_id))

kept-some : (now : ℕ) (o : Option Completed) (c : Completed) → kept now o ≡ some c → o ≡ some c
kept-some now none c h = absurd (ground arith)
kept-some now (some (receipt r d)) c h = ground arith
kept-some now (some not_receipt) c h = h
kept-some now (some other_completed) c h = h

alive-some : (now : ℕ) (o : Option Pending) (p : Pending) → alive now o ≡ some p → o ≡ some p
alive-some now none p h = absurd (ground arith)
alive-some now (some (request t none)) p h = h
alive-some now (some (request t (some d))) p h = ground arith
alive-some now (some other_pending) p h = h

pub get_receipt-some :
    (k : Keyspace) (now : ℕ) (c : String) (r : Completed)
    → get_receipt k now c ≡ some r
    → lookup c k.receipts ≡ some r
unfolding get_receipt
get_receipt-some k now c r h = kept-some now (lookup c k.receipts) r h

pub get_pending-some :
    (k : Keyspace) (now : ℕ) (c : String) (p : Pending)
    → get_pending k now c ≡ some p
    → lookup c k.pending ≡ some p
unfolding get_pending
get_pending-some k now c p h = alive-some now (lookup c k.pending) p h

-- The script's own result.
abbrev Script :
    String
    → String
    → List (String × String)
    → ReplyReceipt
    → Keyspace
    → Option String × Keyspace
    → Type 0
Script c stream fields new k (found, k') =
    ((k' ≡ k)
      × ((id : String)
          → found ≡ some id
          → (old : ReplyReceipt) × (d : ℕ) × (lookup c k.receipts ≡ some (receipt old d))
            × (id ≡ old.message_id)))
    ⊎ ((p : Pending) × (d : ℕ) × (lookup c k.pending ≡ some p)
        × (k' ≡ record k {
          entries = k.entries ++ (stream, fields) ∷ [];
          receipts = insert c (receipt new d) k.receipts;
          pending = remove c k.pending;
        })
        × (found ≡ some new.message_id))

nothing :
    (c stream : String) (fields : List (String × String)) (new : ReplyReceipt) (k : Keyspace)
    (x : Option String × Keyspace)
    → ◌≡◌ {A = Result Error (Option String × Keyspace)} (ok (none, k)) (ok x)
    → Script c stream fields new k x
nothing c stream fields new k (found, k') h = inl (ground arith, λ id e. absurd (ground arith))

commit_pending-Script :
    (k : Keyspace) (now : ℕ) (c stream : String) (fields : List (String × String))
    (new : ReplyReceipt) (expires_at d : ℕ) (p : Pending) (x : Option String × Keyspace)
    → lookup c k.pending ≡ some p
    → commit_pending k now c stream fields new expires_at d ≡ ok x
    → Script c stream fields new k x
unfolding commit_pending
commit_pending-Script k now c stream fields new expires_at d p (found, k') q h =
    elim (Bool-cases (leb (min d expires_at) now)) [
      | inl out ↦ nothing c stream fields new k (found, k') (ground arith)
      | inr in_time ↦ elim (Bool-cases (member stream k.foreign_streams)) [
        | inl f ↦ absurd (ground arith)
        | inr nf ↦ elim (Bool-cases (str_eq new.message_id "")) [
          | inl f ↦ absurd (ground arith)
          | inr some' ↦ inr (p, min d expires_at, q, ground arith, ground arith)
        ]
      ]
    ]

pub matching-some :
    (r : ReplyReceipt) (sender fingerprint : String) (found : Option String) (id : String)
    → matching r sender fingerprint ≡ ok found
    → found ≡ some id
    → id ≡ r.message_id
unfolding matching
matching-some r sender fingerprint found id h e = ground arith

commit_script-Script :
    (k : Keyspace) (now : ℕ) (c stream expected : String) (fields : List (String × String))
    (new : ReplyReceipt) (expires_at : ℕ) (x : Option String × Keyspace)
    → commit_script k now c stream expected fields new expires_at ≡ ok x
    → Script c stream fields new k x
unfolding commit_script
commit_script-Script k now c stream expected fields new expires_at x h =
    elim (Option-cases (get_receipt k now c)) [
      | inr (other_completed, e) ↦ absurd (ground arith)
      | inr (not_receipt, e) ↦ absurd (ground arith)
      | inr (receipt r d, e) ↦ elim (Result-cases (matching r new.sender_id new.fingerprint)) [
        | inl (found, m) ↦ inl (
          ground arith,
          λ id q. (
            r,
            d,
            get_receipt-some k now c (receipt r d) e,
            matching-some r new.sender_id new.fingerprint found id m (ground arith),
          ),
        )
        | inr (bad, m) ↦ absurd (ground arith)
      ]
      | inl e ↦ elim (Option-cases (get_pending k now c)) [
        | inl q ↦ nothing c stream fields new k x (ground arith)
        | inr (other_pending, q) ↦ absurd (ground arith)
        | inr (request text deadline, q) ↦ elim (Bool-cases (str_eq text expected)) [
          | inr other ↦ nothing c stream fields new k x (ground arith)
          | inl same ↦ elim (Option-cases deadline) [
            | inl n ↦ nothing c stream fields new k x (ground arith)
            | inr (d, n) ↦
                commit_pending-Script k now c stream fields new expires_at d (request text deadline)
                  x (get_pending-some k now c (request text deadline) q) (ground arith)
          ]
        ]
      ]
    ]

abbrev pub Outcome :
    EnvelopeMessage → List (String × String) → Keyspace → Result Error String × Keyspace → Type 0
Outcome m fields k (r, k') =
    ((k' ≡ k) × ((id : String) → r ≡ ok id → ⊥))
    ⊎ ((m.meta.is_reply ≡ true)
        × (truthy m.meta.correlation_id ≡ true)
        × Settled (or_empty m.meta.correlation_id) fields k r k')

refused :
    (m : EnvelopeMessage) (fields : List (String × String)) (k : Keyspace) (e : Error)
    → Outcome m fields k (err e, k)
refused m fields k e = inl (refl, λ id h. absurd (ground arith))

confirmed-ok :
    (a : Result Durability.Error (Unit {0})) (id other : String)
    → ◌≡◌ {A = Result Error String} (confirmed a (ok id)) (ok other)
    → other ≡ id
confirmed-ok a id other h = ground arith

Script-Settled :
    (c stream : String) (fields : List (String × String)) (new : ReplyReceipt) (k k' : Keyspace)
    (id : String) (a : Result Durability.Error (Unit {0}))
    → Script c stream fields new k (some id, k')
    → Settled c fields k (confirmed a (ok id)) k'
Script-Settled c stream fields new k k' id a (inl (same, receipt')) =
    let (old, d, e, q) = receipt' id refl in
    inl (same, λ other h. (old, d, e, confirmed-ok a id other h ∙ q))
Script-Settled c stream fields new k k' id a (inr (p, d, e, q, f)) =
    inr (p, new, d, stream, e, q, λ other h. ground (arith, confirmed-ok a id other h))

Script-none :
    (c stream : String) (fields : List (String × String)) (new : ReplyReceipt) (k k' : Keyspace)
    → Script c stream fields new k (none, k')
    → k' ≡ k
Script-none c stream fields new k k' (inl (same, receipt')) = same
Script-none c stream fields new k k' (inr (p, d, e, q, f)) = absurd (ground arith)

pub replay_reply-some :
    (settings : Settings) (k : Keyspace) (now : ℕ) (c sender fingerprint id : String)
    (answer : Result Durability.Error Reply)
    → replay_reply settings k now c sender fingerprint answer ≡ ok (some id)
    → (old : ReplyReceipt) × (d : ℕ) × (lookup c k.receipts ≡ some (receipt old d))
      × (id ≡ old.message_id)
unfolding replay_reply replay_script
replay_reply-some settings k now c sender fingerprint id answer h =
    elim (Option-cases (get_receipt k now c)) [
      | inl e ↦ absurd (ground arith)
      | inr (other_completed, e) ↦ absurd (ground arith)
      | inr (not_receipt, e) ↦ absurd (ground arith)
      | inr (receipt r d, e) ↦ elim (Result-cases (matching r sender fingerprint)) [
        | inr (bad, m) ↦ absurd (ground arith)
        | inl (none, m) ↦ absurd (ground arith)
        | inl (some x, m) ↦ (
          r,
          d,
          get_receipt-some k now c (receipt r d) e,
          ground (arith, matching-some r sender fingerprint (some x) x m refl),
        )
      ]
    ]

module _ (dump_json : EnvelopeMessage → String) (valid_fingerprint : String → Bool)
    (settings : Settings) where
  -- Where `commit_reply` changes the keys, the message is a reply with a correlation.
  pub commit_reply-Settled :
      (k : Keyspace) (now : ℕ) (m : EnvelopeMessage) (cc : CorrelationCommit)
      (answer : Result Durability.Error Reply)
      → Outcome m
          (("envelope", dump_json m) ∷ [])
          k
          (commit_reply dump_json valid_fingerprint settings k now m cc answer)
  unfolding commit_reply
  commit_reply-Settled k now m cc answer =
      let fields = ("envelope", dump_json m) ∷ [] in
      let c = or_empty m.meta.correlation_id in
      let stream = instance_stream m.target_id (or_empty m.meta.reply_to_instance_id) in
      elim (Bool-cases (
        not m.meta.is_reply
        || not (truthy m.meta.correlation_id)
        || not (truthy m.meta.reply_to_instance_id))) [
          | inl bad ↦ rw (bad) (refused m fields k invalid_reply_envelope)
          | inr good ↦
              elim (Result-cases
                (make_receipt valid_fingerprint m.sender_id cc.fingerprint m.message_id)) [
                  | inr (e, q) ↦ rw (good, q) (refused m fields k e)
                  | inl (new, q) ↦
                      elim (Result-cases
                        (commit_script k now c stream cc.expected_value fields new cc.expires_at)) [
                          | inr (e, h) ↦ rw (good, q, h) (refused m fields k e)
                          | inl ((none, k'), h) ↦
                              let s = Script-none c stream fields new k k' (
                                commit_script-Script k now c stream cc.expected_value fields new
                                  cc.expires_at (none, k') h) in
                              rw (good, q, h) (inl (s, λ id f. absurd (ground arith)))
                          | inl ((some id, k'), h) ↦
                              let s =
                                commit_script-Script k now c stream cc.expected_value fields new
                                  cc.expires_at (some id, k') h in
                              rw (good, q, h)
                                (inr (
                                  ground arith,
                                  ground arith,
                                  Script-Settled c stream fields new k k' id
                                      (confirm settings answer) s,
                                ))
                        ]
                ]
        ]
