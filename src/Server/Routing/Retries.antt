-- ===== src/Server/Routing/Retries.antt =====
-- A reply that was committed, but whose confirmation failed, is sent again.
use mas_framework.Common.{
  ℕ, ◌<◌, ◌≡◌, ◌≢◌, refl, sym, ap, ◌∙◌, inl, inr, Bool, true, false, not, ◌&&◌, ◌||◌, Option, none,
  some, List, [], ◌∷◌, String, str_eq, str_eq_iff, arith, Bool-cases, Option-cases, if◌then◌else◌,
  is_some,
}
use mas_framework.Common.Dict.{lookup, lookup-insert}
use mas_framework.Common.Results.{Result, ok, err, Result-cases}
use mas_framework.Core.Protocol.{EnvelopeMessage, truthy}
use mas_framework.Core.Durability.{Settings, Reply, confirm}
use mas_framework.Core.Durability
use mas_framework.Server.Routing.{
  Error, unknown_or_completed_correlation_id, ReplyReceipt, CorrelationCommit, request,
  other_pending, receipt, Keyspace, get_pending, get_receipt, matching, commit_pending,
  commit_script, make_receipt, commit_reply, min, or_empty, instance_stream, confirmed,
}

commit_pending-some :
    (k k' : Keyspace) (now : ℕ) (c stream id : String) (fields : List (String × String))
    (new : ReplyReceipt) (expires_at d : ℕ)
    → commit_pending k now c stream fields new expires_at d ≡ ok (some id, k')
    → (lookup c k'.receipts ≡ some (receipt new (min d expires_at)))
      × (now < min d expires_at)
      × (id ≡ new.message_id)
      × (str_eq new.message_id "" ≡ false)
unfolding commit_pending
commit_pending-some k k' now c stream id fields new expires_at d h =
    let here = lookup-insert c c (receipt new (min d expires_at)) k.receipts in
    ground (arith, here, str_eq_iff c c)

commit_script-some :
    (k k' : Keyspace) (now : ℕ) (c stream expected id : String) (fields : List (String × String))
    (new : ReplyReceipt) (expires_at : ℕ)
    → get_receipt k now c ≡ none
    → commit_script k now c stream expected fields new expires_at ≡ ok (some id, k')
    → (d : ℕ) × (lookup c k'.receipts ≡ some (receipt new d))
      × (now < d)
      × (id ≡ new.message_id)
      × (str_eq new.message_id "" ≡ false)
unfolding commit_script
commit_script-some k k' now c stream expected id fields new expires_at fresh h =
    elim (Option-cases (get_pending k now c)) [
      | inl q ↦ absurd (ground arith)
      | inr (other_pending, q) ↦ absurd (ground arith)
      | inr (request text deadline, q) ↦ elim (Bool-cases (str_eq text expected)) [
        | inr other ↦ absurd (ground arith)
        | inl same ↦ elim (Option-cases deadline) [
          | inl n ↦ absurd (ground arith)
          | inr (d, n) ↦
              let (l, lt, e, some') =
                commit_pending-some k k' now c stream id fields new expires_at d (ground arith) in
              (min d expires_at, l, lt, e, some')
        ]
      ]
    ]

-- A message that replies to the correlation.
abbrev pub RepliesTo : String → EnvelopeMessage → Type 0
RepliesTo c m =
    (m.meta.is_reply ≡ true)
    × (m.meta.correlation_id ≡ some c)
    × (str_eq c "" ≡ false)
    × (truthy m.meta.reply_to_instance_id ≡ true)

get_receipt-live :
    (k : Keyspace) (now d : ℕ) (c : String) (r : ReplyReceipt)
    → lookup c k.receipts ≡ some (receipt r d)
    → now < d
    → get_receipt k now c ≡ some (receipt r d)
unfolding get_receipt
get_receipt-live k now d c r l lt = ground arith

get_receipt-there :
    (k : Keyspace) (later d : ℕ) (c : String) (r : ReplyReceipt)
    → lookup c k.receipts ≡ some (receipt r d)
    → is_some (get_receipt k later c) ≡ true
    → get_receipt k later c ≡ some (receipt r d)
unfolding get_receipt
get_receipt-there k later d c r l h = ground arith

commit_script-again :
    (k : Keyspace) (now d : ℕ) (c stream expected : String) (fields : List (String × String))
    (old new : ReplyReceipt) (expires_at : ℕ)
    → get_receipt k now c ≡ some (receipt old d)
    → str_eq old.message_id "" ≡ false
    → commit_script k now c stream expected fields new expires_at
      ≡ ok (
          if str_eq old.sender_id new.sender_id && str_eq old.fingerprint new.fingerprint
          then (some old.message_id, k)
          else (none, k))
unfolding commit_script matching
commit_script-again k now d c stream expected fields old new expires_at l nonempty = ground arith

commit_script-err :
    (k : Keyspace) (now : ℕ) (c stream expected : String) (fields : List (String × String))
    (new : ReplyReceipt) (expires_at : ℕ) (e : Durability.Error)
    → commit_script k now c stream expected fields new expires_at ≢ err (Error.durability_error e)
unfolding commit_script commit_pending matching
commit_script-err k now c stream expected fields new expires_at e h = ground arith

make_receipt-ok :
    (valid_fingerprint : String → Bool) (sender fingerprint id : String) (r : ReplyReceipt)
    → make_receipt valid_fingerprint sender fingerprint id ≡ ok r
    → (r.sender_id ≡ sender) × (r.fingerprint ≡ fingerprint) × (r.message_id ≡ id)
unfolding make_receipt
make_receipt-ok vf sender fingerprint id r h = ground arith

module _ (dump_json : EnvelopeMessage → String) (valid_fingerprint : String → Bool)
    (settings : Settings) where
  abbrev answer_of :
      Keyspace
      → Result Durability.Error Reply
      → Result Error (Option String × Keyspace)
      → Result Error String × Keyspace
  answer_of k a (err e) = (err e, k)
  answer_of k a (ok (none, k')) = (err unknown_or_completed_correlation_id, k')
  answer_of k a (ok (some id, k')) = (confirmed (confirm settings a) (ok id), k')

  -- Where the envelope is a reply and its receipt is valid, `commit_reply` is its script.
  commit_reply-script :
      (k : Keyspace) (now : ℕ) (c : String) (m : EnvelopeMessage) (commit : CorrelationCommit)
      (a : Result Durability.Error Reply) (new : ReplyReceipt)
      → RepliesTo c m
      → make_receipt valid_fingerprint m.sender_id commit.fingerprint m.message_id ≡ ok new
      → commit_reply dump_json valid_fingerprint settings k now m commit a
        ≡ answer_of k a (
            commit_script k now c
              (instance_stream m.target_id (or_empty m.meta.reply_to_instance_id))
              commit.expected_value
              (("envelope", dump_json m) ∷ [])
              new
              commit.expires_at)
  unfolding commit_reply
  commit_reply-script k now c m commit a new (r, i, nonempty, t) q =
      let g : not m.meta.is_reply
            || not (truthy m.meta.correlation_id)
            || not (truthy m.meta.reply_to_instance_id)
          ≡ false =
        ground arith in
      let o : or_empty m.meta.correlation_id ≡ c = rw (i) refl in
      elim (Result-cases (
        commit_script k now c (instance_stream m.target_id (or_empty m.meta.reply_to_instance_id))
          commit.expected_value (("envelope", dump_json m) ∷ []) new commit.expires_at)) [
            | inr (e, h) ↦ rw (g, q, o, h) refl
            | inl ((none, k'), h) ↦ rw (g, q, o, h) refl
            | inl ((some id, k'), h) ↦ rw (g, q, o, h) refl
          ]

  answer_of-some :
      (k k' : Keyspace) (a : Result Durability.Error Reply) (id : String)
      (x : Result Error (Option String × Keyspace))
      → ((e : Durability.Error) → x ≢ err (Error.durability_error e))
      → answer_of k a x ≡ (confirmed (confirm settings a) (ok id), k')
      → (other : String) × (x ≡ ok (some other, k'))
        × (confirmed {B = String} (confirm settings a) (ok id)
            ≡ confirmed (confirm settings a) (ok other))
  answer_of-some k k' a id (err e) plain h = elim (Result-cases (confirm settings a)) [
    | inl (u, q) ↦ absurd (ground arith)
    | inr (f, q) ↦ absurd (plain f (ground arith))
  ]
  answer_of-some k k' a id (ok (none, k'')) plain h = elim (Result-cases (confirm settings a)) [
    | inl (u, q) ↦ absurd (ground arith)
    | inr (f, q) ↦ absurd (ground arith)
  ]
  answer_of-some k k' a id (ok (some other, k'')) plain h = (other, ground arith, ground arith)

  answer_of-if :
      (k : Keyspace) (a : Result Durability.Error Reply) (id : String) (b : Bool)
      → answer_of k a (ok (if b then (some id, k) else (none, k))) ≡ (
          if b
          then (confirmed (confirm settings a) (ok id), k)
          else (err unknown_or_completed_correlation_id, k))
  answer_of-if k a id true = refl
  answer_of-if k a id false = refl

  -- Where a reply was committed to a correlation that had no receipt, whether or not its
  -- confirmation succeeded, its receipt is there at once; and as long as it is there, a reply to
  -- the same correlation, with a valid receipt of its own, changes nothing: it answers with the
  -- first message if it has the sender and the fingerprint of the first, its own confirmation
  -- permitting, and is refused otherwise.
  pub commit_reply-retry :
      (k k' : Keyspace) (now later : ℕ) (c : String) (m m' : EnvelopeMessage)
      (commit again : CorrelationCommit) (a a' : Result Durability.Error Reply)
      (r r' : ReplyReceipt)
      → RepliesTo c m
      → RepliesTo c m'
      → get_receipt k now c ≡ none
      → make_receipt valid_fingerprint m.sender_id commit.fingerprint m.message_id ≡ ok r
      → make_receipt valid_fingerprint m'.sender_id again.fingerprint m'.message_id ≡ ok r'
      → commit_reply dump_json valid_fingerprint settings k now m commit a
        ≡ (confirmed (confirm settings a) (ok m.message_id), k')
      → is_some (get_receipt k' later c) ≡ true
      → (is_some (get_receipt k' now c) ≡ true)
        × (commit_reply dump_json valid_fingerprint settings k' later m' again a' ≡ (
            if str_eq m.sender_id m'.sender_id && str_eq commit.fingerprint again.fingerprint
            then (confirmed (confirm settings a') (ok m.message_id), k')
            else (err unknown_or_completed_correlation_id, k')))
  commit_reply-retry k k' now later c m m' commit again a a' r r' p p' fresh q q' h there =
      let stream = instance_stream m.target_id (or_empty m.meta.reply_to_instance_id) in
      let fields = ("envelope", dump_json m) ∷ [] in
      let (id, s, same) =
        answer_of-some k k' a m.message_id
          (commit_script k now c stream commit.expected_value fields r commit.expires_at)
          (commit_script-err k now c stream commit.expected_value fields r commit.expires_at)
          (sym (commit_reply-script k now c m commit a r p q) ∙ h) in
      let (d, l, lt, e, nonempty) =
        commit_script-some k k' now c stream commit.expected_value id fields r commit.expires_at
          fresh s in
      let at_once = get_receipt-live k' now d c r l lt in
      let found = get_receipt-there k' later d c r l there in
      let g =
        commit_script-again k' later d c
          (instance_stream m'.target_id (or_empty m'.meta.reply_to_instance_id))
          again.expected_value (("envelope", dump_json m') ∷ []) r r' again.expires_at found
          nonempty in
      let (s1, s2, s3) =
        make_receipt-ok valid_fingerprint m.sender_id commit.fingerprint m.message_id r q in
      let (t1, t2, t3) =
        make_receipt-ok valid_fingerprint m'.sender_id again.fingerprint m'.message_id r' q' in
      (
        ap is_some at_once,
        commit_reply-script k' later c m' again a' r' p' q'
            ∙ ap (answer_of k' a') g
            ∙ (rw (s1, s2, s3, t1, t2)
                (answer_of-if k' a' m.message_id (
                  str_eq m.sender_id m'.sender_id && str_eq commit.fingerprint again.fingerprint))),
      )
