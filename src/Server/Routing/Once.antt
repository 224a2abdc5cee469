-- ===== src/Server/Routing/Once.antt =====
-- A request is answered once, by whatever sequence of the operations.
use mathlib.Core.Path.{subst}
use mas_framework.Common.{
  ℕ, ◌+◌, ◌≤◌, ◌<◌, ◌≡◌, refl, ◌∙◌, inl, inr, Bool, true, false, Option, none, some, List, [], ◌∷◌,
  ◌++◌, String, str_eq, str_eq_iff, arith, Bool-cases, length, All, append_nil, append_assoc,
}
use mas_framework.Common.Dict.{lookup}
use mas_framework.Common.Results.{Result, Result-cases}
use mas_framework.Core.Protocol.{EnvelopeMessage, truthy}
use mas_framework.Core.Durability.{Settings}
use mas_framework.Server.Routing.Operations.{
  is_answer, replies, present, Operation, register, discard, send, reply, replay, registers1,
  registers, OneWay, reply_id, acknowledgement, step, acknowledges, run, acknowledged,
}
use mas_framework.Server.Routing.Commit.{Outcome, commit_reply-Settled, replay_reply-some}
use mas_framework.Server.Routing.{
  Error, Completed, receipt, not_receipt, other_completed, Keyspace, commit_reply, replay_reply,
  or_empty,
}
use mas_framework.Server.Routing.Invariant.{
  Told, Inv, Inv-less, Inv-receipt, Inv-entry, Inv-register, Inv-discard, Inv-exchange,
  Inv-exchange_other, truthy-some,
}
use mas_framework.Server.Routing.Appends.{route_message-keys}

module _ (dump_json : EnvelopeMessage → String) (reply_to : String → Option String)
    (reads : (m : EnvelopeMessage) → reply_to (dump_json m) ≡ reply_id m) (c : String) where
  is_answer-reply :
      (m : EnvelopeMessage) (stream : String)
      → m.meta.is_reply ≡ true
      → truthy m.meta.correlation_id ≡ true
      → is_answer reply_to c (stream, ("envelope", dump_json m) ∷ [])
        ≡ str_eq (or_empty m.meta.correlation_id) c
  unfolding lookup
  is_answer-reply m stream r t =
      let e = truthy-some m.meta.correlation_id t in
      let i : reply_to (dump_json m) ≡ some (or_empty m.meta.correlation_id) =
        ground (arith, reads m, r, t, e) in
      rw (i) refl

  is_answer-send :
      (m : EnvelopeMessage) (stream : String)
      → m.meta.is_reply ≡ false
      → is_answer reply_to c (stream, ("envelope", dump_json m) ∷ []) ≡ false
  unfolding lookup
  is_answer-send m stream r =
      let i : reply_to (dump_json m) ≡ none = ground (arith, reads m, r) in rw (i) refl

  -- A commit of a reply to the correlation d.
  Settled-Inv :
      (budget : ℕ) (k k' : Keyspace) (ids : List String) (m : EnvelopeMessage)
      (r : Result Error String)
      → Inv reply_to c budget k ids
      → Outcome m (("envelope", dump_json m) ∷ []) k (r, k')
      → Inv reply_to c budget k' (ids ++ acknowledgement c (or_empty m.meta.correlation_id) r)
  Settled-Inv budget k k' ids m r i (inl (same, none')) =
      let quiet : acknowledgement c (or_empty m.meta.correlation_id) r ≡ [] =
        elim (Result-cases r) [ inl (id, e) ↦ absurd (none' id e) | inr (e, q) ↦ rw (q) refl ] in
      rw (same, quiet, append_nil ids) i
  Settled-Inv budget k k' ids m r i (inr (is_reply, has_id, inl (same, old))) =
      let d = or_empty m.meta.correlation_id in
      elim (Result-cases r) [
        | inr (e, q) ↦ rw (same, q, append_nil ids) i
        | inl (id, q) ↦ elim (Bool-cases (str_eq d c)) [
          | inr other ↦ rw (same, q, other, append_nil ids) i
          | inl dc ↦
              let (rec, deadline, l, e) = old id q in
              let l' =
                subst (λ x. lookup x k.receipts ≡ some (receipt rec deadline))
                  ((str_eq_iff d c).0 dc) l in
              rw (same, q, dc) (Inv-receipt reply_to c budget k ids rec deadline id i l' e)
        ]
      ]
  Settled-Inv budget k k' ids m r i
        (inr (is_reply, has_id, inr (p, new, deadline, stream, l, changed, ack))) =
      let d = or_empty m.meta.correlation_id in
      let e : String × List (String × String) = (stream, ("envelope", dump_json m) ∷ []) in
      let a : is_answer reply_to c e ≡ str_eq d c = is_answer-reply m stream is_reply has_id in
      elim (Bool-cases (str_eq d c)) [
        | inr other ↦
            let i' =
              Inv-exchange_other reply_to c budget k ids d e new deadline i other (a ∙ other) in
            elim (Result-cases r) [
              | inr (bad, q) ↦ rw (changed, q, append_nil ids) i'
              | inl (id, q) ↦ rw (changed, q, other, append_nil ids) i'
            ]
        | inl dc ↦
            let q : d ≡ c = (str_eq_iff d c).0 dc in
            let l' = subst (λ x. lookup x k.pending ≡ some p) q l in
            let (quiet, loud) =
              Inv-exchange reply_to c budget k ids e new deadline p i l' (a ∙ dc) in
            elim (Result-cases r) [
              | inr (bad, f) ↦ rw (changed, f, append_nil ids, q) quiet
              | inl (id, f) ↦ rw (changed, f, dc, ack id f, q) loud
            ]
      ]

  step-Inv :
      (valid_fingerprint : String → Bool) (settings : Settings) (op : Operation) (budget : ℕ)
      (k : Keyspace) (ids : List String)
      → OneWay op
      → Inv reply_to c (registers1 c op + budget) k ids
      → Inv reply_to c budget
          (step dump_json valid_fingerprint settings op k)
          (ids ++ acknowledges dump_json valid_fingerprint settings c op k)
  step-Inv vf settings (register d text deadline) budget k ids w i =
      rw (append_nil ids) (Inv-register reply_to c budget k ids d text deadline i)
  step-Inv vf settings (discard d) budget k ids w i =
      rw (append_nil ids)
        (Inv-discard reply_to c budget k ids d (Inv-less reply_to c budget 0 k ids i))
  step-Inv vf settings (send m answers) budget k ids w i =
      let i' = Inv-less reply_to c budget 0 k ids i in
      elim (route_message-keys dump_json settings k m answers) [
        | inl same ↦ rw (append_nil ids, same) i'
        | inr (stream, more) ↦
            rw (append_nil ids, more)
              (Inv-entry reply_to c budget k ids (stream, ("envelope", dump_json m) ∷ []) i'
                (is_answer-send m stream w))
      ]
  step-Inv vf settings (reply now m commit answer) budget k ids w i =
      let (r, k') = commit_reply dump_json vf settings k now m commit answer in
      Settled-Inv budget k k' ids m r (Inv-less reply_to c budget 0 k ids i)
        (commit_reply-Settled dump_json vf settings k now m commit answer)
  step-Inv vf settings (replay now d sender fingerprint answer) budget k ids w i =
      let i' = Inv-less reply_to c budget 0 k ids i in
      elim (Result-cases (replay_reply settings k now d sender fingerprint answer)) [
        | inr (bad, q) ↦ rw (q, append_nil ids) i'
        | inl (none, q) ↦ rw (q, append_nil ids) i'
        | inl (some id, q) ↦ elim (Bool-cases (str_eq d c)) [
          | inr other ↦ rw (q, other, append_nil ids) i'
          | inl dc ↦
              let (rec, deadline, l, e) =
                replay_reply-some settings k now d sender fingerprint id answer q in
              let l' =
                subst (λ x. lookup x k.receipts ≡ some (receipt rec deadline))
                  ((str_eq_iff d c).0 dc) l in
              rw (q, dc) (Inv-receipt reply_to c budget k ids rec deadline id i' l' e)
        ]
      ]

  run-Inv :
      (valid_fingerprint : String → Bool) (settings : Settings) (ops : List Operation)
      (k : Keyspace) (ids : List String)
      → All OneWay ops
      → Inv reply_to c (registers c ops) k ids
      → Inv reply_to c 0
          (run dump_json valid_fingerprint settings ops k)
          (ids ++ acknowledged dump_json valid_fingerprint settings c ops k)
  run-Inv vf settings [] k ids w i = rw (append_nil ids) i
  run-Inv vf settings (op ∷ ops) k ids w i =
      let now = acknowledges dump_json vf settings c op k in
      let k' = step dump_json vf settings op k in
      subst (λ x. Inv reply_to c 0 (run dump_json vf settings ops k') x)
        (append_assoc ids now (acknowledged dump_json vf settings c ops k'))
        (run-Inv vf settings ops k' (ids ++ now) w.1
          (step-Inv vf settings op (registers c ops) k ids w.0 i))

  Told-agree :
      (found : Option Completed) (n : ℕ) (ids : List String)
      → Told found n ids
      → (0 < length ids → n ≡ 1) × ((id : String) × All (λ x. x ≡ id) ids)
  Told-agree none n ids (nil, z) = (λ h. absurd (ground (arith, nil)), ("", rw (nil) tt))
  Told-agree (some (receipt r d)) n ids (one, all) = (λ h. one, (r.message_id, all))
  Told-agree (some not_receipt) n ids t = absurd t
  Told-agree (some other_completed) n ids t = absurd t

  -- Whatever sequence of registrations, discards, sends, commits and replays of replies runs, at
  -- any times and with any answers to the confirmations: where a correlation has no receipt and no
  -- reply, and is pending or to be registered once at most, the streams end with one reply to it
  -- at most, and with exactly one if any was acknowledged, and every acknowledgement names the
  -- same message. The hypothesis on the JSON of a message is that the correlation it replies to
  -- can be read from it; the messages that are sent one way are no replies.
  pub reply_once :
      (valid_fingerprint : String → Bool) (settings : Settings) (ops : List Operation)
      (k : Keyspace)
      → All OneWay ops
      → lookup c k.receipts ≡ none
      → replies reply_to c k.entries ≡ 0
      → present c k + registers c ops ≤ 1
      → let n = replies reply_to c (run dump_json valid_fingerprint settings ops k).entries in
        let ids = acknowledged dump_json valid_fingerprint settings c ops k in
        (n ≤ 1) × (0 < length ids → n ≡ 1) × ((id : String) × All (λ x. x ≡ id) ids)
  reply_once vf settings ops k w fresh none_yet budget =
      let (le, told) =
        run-Inv vf settings ops k [] w
          (omega (arith, budget, none_yet), rw (fresh) (refl, none_yet)) in
      let (one, same) = Told-agree _ _ _ told in (omega (arith, le), one, same)
