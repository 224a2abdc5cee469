-- ===== src/Server/PeerValidation/Progress.antt =====
-- Every admitted request gets a result: a cycle never misses one, no event loses one, and the queue
-- is drained.
use mas_framework.Common.{
  ℕ, zero, suc, ◌≤◌, ◌<◌, ◌≡◌, refl, ap, ◌⊎◌, inl, inr, true, false, none, some, List, [], ◌∷◌,
  str_eq_iff, arith, length, All, Bool-cases, Option-cases,
}
use mas_framework.Common.Results.{ok, Result-cases}
use mas_framework.Server.PeerValidation.{
  Certificate, Verdict, Validation, Validator, finish, certificate_eq, verdict_of,
  validate_snapshot, outcome, deliver, split, next_batch, cycle,
}
use mas_framework.Server.PeerValidation.Bounds.{
  List-cases, deliver-Finished, checked, Event, run, kept,
}

-- The certificate has a verdict.
abbrev Known : List (Certificate × Verdict) → Validation → Type 0
Known results request =
    (verdict : Verdict) × (verdict_of request.certificate results ≡ some verdict)

certificate_eq_iff : (a b : Certificate) → certificate_eq a b ≡ true → a ≡ b
unfolding certificate_eq
certificate_eq_iff a b e = ground (arith, str_eq_iff a.leaf b.leaf, str_eq_iff a.chain b.chain)

certificate_eq_refl : (a : Certificate) → certificate_eq a a ≡ true
unfolding certificate_eq
certificate_eq_refl a = ground (arith, str_eq_iff a.leaf a.leaf, str_eq_iff a.chain a.chain)

still :
    (results : List (Certificate × Verdict)) (a c : Certificate) (asked verdict : Verdict)
    → verdict_of a results ≡ none
    → verdict_of c results ≡ some verdict
    → verdict_of c ((a, asked) ∷ results) ≡ some verdict
unfolding verdict_of
still results a c asked verdict new e = elim (Bool-cases (certificate_eq a c)) [
  | inl same ↦
      let q : a ≡ c = certificate_eq_iff a c same in
      let e' : verdict_of a results ≡ some verdict = rw q e in absurd (ground arith)
  | inr other ↦ rw other e
]

first_verdict :
    (results : List (Certificate × Verdict)) (a : Certificate) (asked : Verdict)
    → verdict_of a ((a, asked) ∷ results) ≡ some asked
unfolding verdict_of
first_verdict results a asked = rw (certificate_eq_refl a) refl

All-Known :
    (results results' : List (Certificate × Verdict)) (requests : List Validation)
    → results ≡ results'
    → All (Known results') requests
    → All (Known results) requests
All-Known results results' [] e known = tt
All-Known results results' (request ∷ rest) e (k, known) =
    (rw e k, All-Known results results' rest e known)

module _ (policy : ℕ → Certificate → Verdict) where
  snapshot-none :
      (results : List (Certificate × Verdict)) → validate_snapshot policy results [] ≡ results
  unfolding validate_snapshot
  snapshot-none results = refl

  -- A certificate with a verdict is not asked about again.
  snapshot-known :
      (results : List (Certificate × Verdict)) (request : Validation) (rest : List Validation)
      (verdict : Verdict)
      → verdict_of request.certificate results ≡ some verdict
      → validate_snapshot policy results (request ∷ rest) ≡ validate_snapshot policy results rest
  unfolding validate_snapshot
  snapshot-known results request rest verdict e = ground arith

  snapshot-new :
      (results : List (Certificate × Verdict)) (request : Validation) (rest : List Validation)
      → verdict_of request.certificate results ≡ none
      → validate_snapshot policy results (request ∷ rest)
        ≡ validate_snapshot policy
            ((request.certificate, policy (length results) request.certificate) ∷ results)
            rest
  unfolding validate_snapshot
  snapshot-new results request rest e = ground arith

  -- A certificate keeps the first verdict that it gets.
  verdict_of-validate_snapshot :
      (results : List (Certificate × Verdict)) (requests : List Validation) (c : Certificate)
      (verdict : Verdict)
      → verdict_of c results ≡ some verdict
      → verdict_of c (validate_snapshot policy results requests) ≡ some verdict
  verdict_of-validate_snapshot results [] c verdict e = rw (snapshot-none results) e
  verdict_of-validate_snapshot results (request ∷ rest) c verdict e =
      elim (Option-cases (verdict_of request.certificate results)) [
        | inl new ↦
            let asked = policy (length results) request.certificate in
            rw (snapshot-new results request rest new) (
              verdict_of-validate_snapshot ((request.certificate, asked) ∷ results) rest c verdict
                (still results request.certificate c asked verdict new e))
        | inr (known, found) ↦
            rw (snapshot-known results request rest known found)
              (verdict_of-validate_snapshot results rest c verdict e)
      ]

  -- Every request of a batch has a verdict after its snapshot.
  validate_snapshot-Known :
      (results : List (Certificate × Verdict)) (requests : List Validation)
      → All (Known (validate_snapshot policy results requests)) requests
  validate_snapshot-Known results [] = tt
  validate_snapshot-Known results (request ∷ rest) =
      elim (Option-cases (verdict_of request.certificate results)) [
        | inl new ↦
            let asked = policy (length results) request.certificate in
            let after = (request.certificate, asked) ∷ results in
            let q = snapshot-new results request rest new in
            (
              rw q (
                asked,
                verdict_of-validate_snapshot after rest request.certificate asked
                    (first_verdict results request.certificate asked),
              ),
              All-Known _ _ rest q (validate_snapshot-Known after rest),
            )
        | inr (known, found) ↦
            let q = snapshot-known results request rest known found in
            (
              rw q (
                known,
                verdict_of-validate_snapshot results rest request.certificate known found,
              ),
              All-Known _ _ rest q (validate_snapshot-Known results rest),
            )
      ]

-- Where every request has a verdict, no lookup fails.
deliver-ok :
    (v : Validator) (results : List (Certificate × Verdict)) (requests : List Validation)
    → All (Known results) requests
    → (v' : Validator) × (deliver v results requests ≡ ok v')
unfolding deliver
deliver-ok v results [] known = (v, refl)
deliver-ok v results (request ∷ rest) ((verdict, e), known) =
    let (v', f) = deliver-ok (finish v request (outcome verdict)) results rest known in
    (v', ground arith)

-- A turn of the worker never misses the result of a certificate, however the policy answers.
pub cycle-ok :
    (policy : ℕ → Certificate → Verdict) (v : Validator)
    → (v' : Validator) × (cycle policy v ≡ ok v')
unfolding cycle
cycle-ok policy v =
    let (v', e) =
      deliver-ok v (validate_snapshot policy [] v.batch) v.batch
        (validate_snapshot-Known policy [] v.batch) in
    (next_batch v', ground arith)

split-shorter :
    (n : ℕ) (x : Validation) (rest : List Validation)
    → 0 < n
    → length (split n (x ∷ rest)).1 ≤ length rest
unfolding split
split-shorter zero x rest h = absurd (omega arith)
split-shorter (suc n) x rest h = shorter n rest
  where
    shorter : (n : ℕ) (queue : List Validation) → length (split n queue).1 ≤ length queue
    shorter zero queue = omega arith
    shorter (suc n) [] = omega arith
    shorter (suc n) (y ∷ queue) = omega (arith, shorter n queue)

-- A turn ends the worker where nothing is queued, and makes the queue shorter otherwise.
Shrinks : Validator → Validator → Type 0
Shrinks v v' =
    ((length v.pending ≡ 0) × (v'.worker ≡ false) × (length v'.pending ≡ 0))
    ⊎ (length v'.pending < length v.pending)

next_batch-Shrinks :
    (v : Validator)
    → 0 < v.batch_size
    → ((next_batch v).batch_size ≡ v.batch_size) × Shrinks v (next_batch v)
unfolding next_batch Shrinks
next_batch-Shrinks v h = elim (List-cases v.pending) [
  | inl e ↦ rw e (refl, inl (refl, refl, refl))
  | inr (x, rest, e) ↦ rw e (refl, inr (omega (arith, split-shorter v.batch_size x rest h)))
]

cycle-Shrinks :
    (policy : ℕ → Certificate → Verdict) (v v' : Validator)
    → 0 < v.batch_size
    → cycle policy v ≡ ok v'
    → (v'.batch_size ≡ v.batch_size) × Shrinks v v'
unfolding cycle Shrinks
cycle-Shrinks policy v v' h e =
    let results = validate_snapshot policy [] v.batch in
    elim (Result-cases (deliver v results v.batch)) [
      | inr (x, f) ↦ absurd (ground arith)
      | inl (w, f) ↦
          let q : v' ≡ next_batch w = ground arith in
          let fin = deliver-Finished v w results v.batch f in
          let n = next_batch-Shrinks w (omega (arith, fin.same_batch_size, h)) in
          let p : length w.pending ≡ length v.pending = ap length fin.same_pending in
          rw q (omega (arith, n.0, fin.same_batch_size), ground (arith, n.1, p))
    ]

abbrev pub turns : List (ℕ → Certificate → Verdict) → List Event
turns [] = []
turns (policy ∷ more) = checked policy ∷ turns more

run-turn :
    (v v' : Validator) (policy : ℕ → Certificate → Verdict)
    (more : List (ℕ → Certificate → Verdict))
    → cycle policy v ≡ ok v'
    → run v (turns (policy ∷ more)) ≡ run v' (turns more)
unfolding run
run-turn v v' policy more e = ap (λ r. run (kept v r) (turns more)) e

run-stopped :
    (v : Validator) (policies : List (ℕ → Certificate → Verdict))
    → 0 < v.batch_size
    → v.worker ≡ false
    → length v.pending ≡ 0
    → (run v (turns policies)).worker ≡ false
unfolding run Shrinks
run-stopped v [] h stopped empty = stopped
run-stopped v (policy ∷ more) h stopped empty =
    let (v', e) = cycle-ok policy v in
    let (b, s) = cycle-Shrinks policy v v' h e in
    rw (run-turn v v' policy more e)
      (run-stopped v' more (omega (arith, b)) (ground (arith, s)) (ground (arith, s)))

-- With a positive batch size, the worker stops after as many turns as there are queued requests
-- and one more, if no others come.
pub run-drained :
    (v : Validator) (policies : List (ℕ → Certificate → Verdict))
    → 0 < v.batch_size
    → length v.pending < length policies
    → (run v (turns policies)).worker ≡ false
unfolding run Shrinks
run-drained v [] h fewer = absurd (omega arith)
run-drained v (policy ∷ more) h fewer =
    let (v', e) = cycle-ok policy v in
    let (b, s) = cycle-Shrinks policy v v' h e in
    elim s [
      | inl (empty, stopped, still_empty) ↦
          rw (run-turn v v' policy more e)
            (run-stopped v' more (omega (arith, b)) stopped still_empty)
      | inr shorter ↦
          rw (run-turn v v' policy more e) (run-drained v' more (omega (arith, b)) (omega arith))
    ]
