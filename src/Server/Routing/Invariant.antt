-- ===== src/Server/Routing/Invariant.antt =====
-- The invariant of the keys of one request, and that it is kept by every change to them.
use mathlib.Core.Path.{subst}
use mas_framework.Common.{
  ℕ, ◌+◌, ◌≤◌, ◌≡◌, refl, true, false, Option, none, some, List, [], ◌∷◌, ◌++◌, String, str_eq,
  str_eq_iff, arith, is_some, All, All-append,
}
use mas_framework.Common.Dict.{lookup, insert, remove, lookup-insert, lookup-remove}
use mas_framework.Core.Protocol.{truthy}
use mas_framework.Server.Routing.Operations.{is_answer, one_if, replies, present}
use mas_framework.Server.Routing.{
  ReplyReceipt, Pending, request, Completed, receipt, not_receipt, other_completed, Keyspace,
  set_pending, delete_pending, or_empty,
}

-- What is known of the receipt of the correlation, the number of its replies and what was
-- acknowledged for it.
abbrev pub Told : Option Completed → ℕ → List String → Type 0
Told none n ids = (ids ≡ []) × (n ≡ 0)
Told (some (receipt r d)) n ids = (n ≡ 1) × All (λ id. id ≡ r.message_id) ids
Told (some _) n ids = ⊥

replies-append :
    (reply_to : String → Option String) (c : String) (es : List (String × List (String × String)))
    (e : String × List (String × String))
    → replies reply_to c (es ++ e ∷ []) ≡ replies reply_to c es + one_if (is_answer reply_to c e)
replies-append reply_to c [] e = omega arith
replies-append reply_to c (x ∷ es) e = omega (arith, replies-append reply_to c es e)

pub truthy-some : (o : Option String) → truthy o ≡ true → o ≡ some (or_empty o)
truthy-some none h = absurd (ground arith)
truthy-some (some t) h = refl

-- What a commit does to the keys.
abbrev pub exchange :
    Keyspace → String → String × List (String × String) → ReplyReceipt → ℕ → Keyspace
exchange k d e new deadline = record k {
  entries = k.entries ++ e ∷ [];
  receipts = insert d (receipt new deadline) k.receipts;
  pending = remove d k.pending;
}

-- The invariant of a correlation: a request that is pending, a reply and a registration to come
-- are one at most.
abbrev pub Inv : (String → Option String) → String → ℕ → Keyspace → List String → Type 0
Inv reply_to c budget k ids =
    (present c k + replies reply_to c k.entries + budget ≤ 1)
    × Told (lookup c k.receipts) (replies reply_to c k.entries) ids

module _ (reply_to : String → Option String) (c : String) where
  pub Inv-less :
      (budget more : ℕ) (k : Keyspace) (ids : List String)
      → Inv reply_to c (more + budget) k ids
      → Inv reply_to c budget k ids
  Inv-less budget more k ids (w, t) = (omega (arith, w), t)

  -- What is acknowledged from a receipt is what was.
  pub Inv-receipt :
      (budget : ℕ) (k : Keyspace) (ids : List String) (r : ReplyReceipt) (d : ℕ) (id : String)
      → Inv reply_to c budget k ids
      → lookup c k.receipts ≡ some (receipt r d)
      → id ≡ r.message_id
      → Inv reply_to c budget k (ids ++ id ∷ [])
  Inv-receipt budget k ids r d id (w, t) e q =
      let t' = subst (λ found. Told found (replies reply_to c k.entries) ids) e t in
      (w, rw (e) (t'.0, All-append (λ x. x ≡ r.message_id) ids (id ∷ []) t'.1 (q, tt)))

  Told-fresh : (found : Option Completed) (ids : List String) → Told found 0 ids → ids ≡ []
  Told-fresh none ids t = t.0
  Told-fresh (some (receipt r d)) ids t = absurd (ground arith)
  Told-fresh (some not_receipt) ids t = absurd t
  Told-fresh (some other_completed) ids t = absurd t

  -- An entry that is no reply to the correlation.
  pub Inv-entry :
      (budget : ℕ) (k : Keyspace) (ids : List String) (e : String × List (String × String))
      → Inv reply_to c budget k ids
      → is_answer reply_to c e ≡ false
      → Inv reply_to c budget (record k { entries = k.entries ++ e ∷ [] }) ids
  Inv-entry budget k ids e (w, t) f =
      let n : replies reply_to c (k.entries ++ e ∷ []) ≡ replies reply_to c k.entries =
        ground (arith, replies-append reply_to c k.entries e, f) in
      rw (n) (w, t)

  pub Inv-register :
      (budget : ℕ) (k : Keyspace) (ids : List String) (d text : String) (deadline : ℕ)
      → Inv reply_to c (one_if (str_eq d c) + budget) k ids
      → Inv reply_to c budget (set_pending k d text deadline) ids
  unfolding set_pending
  Inv-register budget k ids d text deadline (w, t) =
      (ground (arith, w, lookup-insert d c (request text (some deadline)) k.pending), t)

  pub Inv-discard :
      (budget : ℕ) (k : Keyspace) (ids : List String) (d : String)
      → Inv reply_to c budget k ids
      → Inv reply_to c budget (delete_pending k d) ids
  unfolding delete_pending
  Inv-discard budget k ids d (w, t) = (ground (arith, w, lookup-remove d c k.pending), t)

  -- The exchange of the pending request of the correlation.
  pub Inv-exchange :
      (budget : ℕ) (k : Keyspace) (ids : List String) (e : String × List (String × String))
      (new : ReplyReceipt) (deadline : ℕ) (p : Pending)
      → Inv reply_to c budget k ids
      → lookup c k.pending ≡ some p
      → is_answer reply_to c e ≡ true
      → Inv reply_to c budget (exchange k c e new deadline) ids
        × Inv reply_to c budget (exchange k c e new deadline) (ids ++ new.message_id ∷ [])
  Inv-exchange budget k ids e new deadline p (w, t) q f =
      let none_yet : replies reply_to c k.entries ≡ 0 = ground (arith, w, q) in
      let n : replies reply_to c (k.entries ++ e ∷ []) ≡ 1 =
        ground (arith, replies-append reply_to c k.entries e, f) in
      let ids_nil : ids ≡ [] =
        Told-fresh (lookup c k.receipts) ids
          (subst (λ x. Told (lookup c k.receipts) x ids) none_yet t) in
      let gone : lookup c (remove c k.pending) ≡ none =
        ground (arith, lookup-remove c c k.pending, str_eq_iff c c) in
      let here : lookup c (insert c (receipt new deadline) k.receipts)
          ≡ some (receipt new deadline) =
        ground (arith, lookup-insert c c (receipt new deadline) k.receipts, str_eq_iff c c) in
      let w' : one_if (is_some (lookup c (remove c k.pending)))
            + replies reply_to c (k.entries ++ e ∷ [])
            + budget
          ≤ 1 =
        ground (arith, w, q, gone, n) in
      ((w', rw (here, n, ids_nil) (refl, tt)), (w', rw (here, n, ids_nil) (refl, (refl, tt))))

  -- The exchange of the pending request of another.
  pub Inv-exchange_other :
      (budget : ℕ) (k : Keyspace) (ids : List String) (d : String)
      (e : String × List (String × String)) (new : ReplyReceipt) (deadline : ℕ)
      → Inv reply_to c budget k ids
      → str_eq d c ≡ false
      → is_answer reply_to c e ≡ false
      → Inv reply_to c budget (exchange k d e new deadline) ids
  Inv-exchange_other budget k ids d e new deadline (w, t) other f =
      let n : replies reply_to c (k.entries ++ e ∷ []) ≡ replies reply_to c k.entries =
        ground (arith, replies-append reply_to c k.entries e, f) in
      let l : lookup c (insert d (receipt new deadline) k.receipts) ≡ lookup c k.receipts =
        ground (arith, lookup-insert d c (receipt new deadline) k.receipts) in
      (ground (arith, w, n, lookup-remove d c k.pending), rw (l, n) t)
