-- ===== src/Server/PeerValidation/Accounts.antt =====
-- No admitted request is lost: until its future is done it is queued or being validated.
use mas_framework.Common.{
  ℕ, zero, suc, ◌<◌, ◌≡◌, refl, ◌⊎◌, inl, inr, false, some, List, [], ◌∷◌, ◌++◌, String, arith,
  length, Option-cases,
}
use mathlib.Core.Path.{subst}
use mas_framework.Common.Results.{Result, ok, err, Result-cases}
use mas_framework.Server.PeerValidation.{
  Error, Certificate, Verdict, Outcome, was_cancelled, Validation, Validator, submit, cancel,
  outcome_of, settle, finish, finish_all, verdict_of, validate_snapshot, outcome, deliver, split,
  next_batch, cycle, abort,
}
use mas_framework.Server.PeerValidation.Bounds.{
  submit-ok, Event, submitted, abandoned, checked, failed, happen, kept, run, IsBounded,
  run-IsBounded, List-cases, deliver-Finished, submit-IsBounded,
}

abbrev pub Among : Validation → List Validation → Type 0
Among r [] = ⊥
Among r (x ∷ rest) = (r ≡ x) ⊎ Among r rest

-- The future of the request is done.
abbrev pub Done : Validator → Validation → Type 0
Done v r = (o : Outcome) × (outcome_of r.result v.futures ≡ some o)

abbrev pub Accounted : Validator → Validation → Type 0
Accounted v r = Done v r ⊎ Among r v.batch ⊎ Among r v.pending

settle-keeps :
    (r r' : ℕ) (o o' : Outcome) (futures : List (ℕ × Outcome))
    → outcome_of r futures ≡ some o
    → outcome_of r (settle r' o' futures) ≡ some o
unfolding settle outcome_of
settle-keeps r r' o o' futures e = elim (Option-cases (outcome_of r' futures)) [
  | inl new ↦ ground arith
  | inr (before, f) ↦ ground arith
]

settle-sets :
    (r : ℕ) (o : Outcome) (futures : List (ℕ × Outcome))
    → (o' : Outcome) × (outcome_of r (settle r o futures) ≡ some o')
unfolding settle outcome_of
settle-sets r o futures = elim (Option-cases (outcome_of r futures)) [
  | inl new ↦ (o, ground arith)
  | inr (before, f) ↦ (before, ground arith)
]

finish-Done : (v : Validator) (x r : Validation) (o : Outcome) → Done v r → Done (finish v x o) r
unfolding finish
finish-Done v x r o (o', e) = (o', settle-keeps r.result x.result o' o v.futures e)

finish_all-Done :
    (v : Validator) (xs : List Validation) (r : Validation) (o : Outcome)
    → Done v r ⊎ Among r xs
    → Done (finish_all v xs o) r
unfolding finish_all finish
finish_all-Done v [] r o (inl d) = d
finish_all-Done v [] r o (inr m) = elim m [ ]
finish_all-Done v (x ∷ xs) r o (inl d) =
    finish_all-Done (finish v x o) xs r o (inl (finish-Done v x r o d))
finish_all-Done v (x ∷ xs) r o (inr (inl e)) =
    finish_all-Done (finish v x o) xs r o (inl (rw e (settle-sets x.result o v.futures)))
finish_all-Done v (x ∷ xs) r o (inr (inr m)) = finish_all-Done (finish v x o) xs r o (inr m)

deliver-step :
    (v v' : Validator) (results : List (Certificate × Verdict)) (x : Validation)
    (xs : List Validation)
    → deliver v results (x ∷ xs) ≡ ok v'
    → (o : Outcome) × (deliver (finish v x o) results xs ≡ ok v')
unfolding deliver
deliver-step v v' results x xs e = elim (Option-cases (verdict_of x.certificate results)) [
  | inl missing ↦ absurd (ground arith)
  | inr (verdict, f) ↦ (outcome verdict, ground arith)
]

deliver-none :
    (v v' : Validator) (results : List (Certificate × Verdict))
    → deliver v results [] ≡ ok v'
    → v' ≡ v
unfolding deliver
deliver-none v v' results e = ground arith

deliver-Done :
    (v v' : Validator) (results : List (Certificate × Verdict)) (xs : List Validation)
    (r : Validation)
    → deliver v results xs ≡ ok v'
    → Done v r ⊎ Among r xs
    → Done v' r
unfolding finish finish_all
deliver-Done v v' results [] r e (inl d) = rw (deliver-none v v' results e) d
deliver-Done v v' results [] r e (inr m) = elim m [ ]
deliver-Done v v' results (x ∷ xs) r e d =
    let (o, f) = deliver-step v v' results x xs e in
    deliver-Done (finish v x o) v' results xs r f (next o d)
  where
    next : (o : Outcome) → Done v r ⊎ Among r (x ∷ xs) → Done (finish v x o) r ⊎ Among r xs
    next o (inl d) = inl (finish-Done v x r o d)
    next o (inr (inl q)) = inl (finish_all-Done v (x ∷ []) r o (inr (inl q)))
    next o (inr (inr m)) = inr m

split-Among :
    (n : ℕ) (r : Validation) (queue : List Validation)
    → Among r queue
    → Among r (split n queue).0 ⊎ Among r (split n queue).1
unfolding split
split-Among zero r queue m = inr m
split-Among (suc n) r (x ∷ rest) (inl e) = inl (inl e)
split-Among (suc n) r (x ∷ rest) (inr m) = elim (split-Among n r rest m) [
  | inl a ↦ inl (inr a)
  | inr b ↦ inr b
]
split-Among (suc n) r [] m = elim m [ ]

deliver-pending :
    (v v' : Validator) (results : List (Certificate × Verdict)) (xs : List Validation)
    → deliver v results xs ≡ ok v'
    → v'.pending ≡ v.pending
deliver-pending v v' results xs e = (deliver-Finished v v' results xs e).same_pending

next_batch-Accounted :
    (v : Validator) (r : Validation) → Done v r ⊎ Among r v.pending → Accounted (next_batch v) r
unfolding next_batch
next_batch-Accounted v r (inl d) = elim (List-cases v.pending) [
  | inl e ↦ rw e (inl d)
  | inr (x, rest, e) ↦ rw e (inl d)
]
next_batch-Accounted v r (inr m) = elim (List-cases v.pending) [
  | inl e ↦ absurd (subst (λ q. Among r q) e m)
  | inr (x, rest, e) ↦
      rw e (inr (split-Among v.batch_size r (x ∷ rest) (subst (λ q. Among r q) e m)))
]

Among-append :
    (r : Validation) (xs ys : List Validation) → Among r xs ⊎ Among r ys → Among r (xs ++ ys)
Among-append r [] ys (inr m) = m
Among-append r (x ∷ xs) ys (inl (inl e)) = inl e
Among-append r (x ∷ xs) ys (inl (inr m)) = inr (Among-append r xs ys (inl m))
Among-append r (x ∷ xs) ys (inr m) = inr (Among-append r xs ys (inr m))
Among-append r [] ys (inl m) = elim m [ ]

cycle-Accounted :
    (policy : ℕ → Certificate → Verdict) (v v' : Validator) (r : Validation)
    → cycle policy v ≡ ok v'
    → Accounted v r
    → Accounted v' r
unfolding cycle
cycle-Accounted policy v v' r e a =
    let results = validate_snapshot policy [] v.batch in
    elim (Result-cases (deliver v results v.batch)) [
      | inr (x, f) ↦ absurd (ground arith)
      | inl (w, f) ↦
          let q : v' ≡ next_batch w = ground arith in
          let same : w.pending ≡ v.pending = deliver-pending v w results v.batch f in
          rw q (
            next_batch-Accounted w r (elim a [
              | inl d ↦ inl (deliver-Done v w results v.batch r f (inl d))
              | inr (inl b) ↦ inl (deliver-Done v w results v.batch r f (inr b))
              | inr (inr p) ↦ inr (rw same p)
            ]))
    ]

abort-Accounted :
    (v : Validator) (o : Outcome) (r : Validation) → Accounted v r → Accounted (abort v o) r
unfolding abort
abort-Accounted v o r (inl d) = inl (
    finish_all-Done (finish_all v v.batch o) v.pending r o
      (inl (finish_all-Done v v.batch r o (inl d))))
abort-Accounted v o r (inr (inl b)) = inl (
    finish_all-Done (finish_all v v.batch o) v.pending r o
      (inl (finish_all-Done v v.batch r o (inr b))))
abort-Accounted v o r (inr (inr p)) =
    inl (finish_all-Done (finish_all v v.batch o) v.pending r o (inr p))

cancel-Accounted :
    (v : Validator) (result : ℕ) (r : Validation) → Accounted v r → Accounted (cancel v result) r
unfolding cancel
cancel-Accounted v result r (inl (o, e)) =
    inl (o, settle-keeps r.result result o was_cancelled v.futures e)
cancel-Accounted v result r (inr m) = inr m

happen-Accounted :
    (v v' : Validator) (event : Event) (r : Validation)
    → happen v event ≡ ok v'
    → Accounted v r
    → Accounted v' r
happen-Accounted v v' (submitted leaf chain result) r e a =
    let (q, room, bytes) = submit-ok v v' leaf chain result e in
    rw q (elim a [
      | inl d ↦ inl d
      | inr (inl b) ↦ inr (inl b)
      | inr (inr p) ↦ inr (inr (Among-append r v.pending _ (inl p)))
    ])
happen-Accounted v v' (abandoned result) r e a =
    let q : v' ≡ cancel v result = ground arith in rw q (cancel-Accounted v result r a)
happen-Accounted v v' (checked policy) r e a = cycle-Accounted policy v v' r e a
happen-Accounted v v' (failed o) r e a =
    let q : v' ≡ abort v o = ground arith in rw q (abort-Accounted v o r a)

kept-Accounted :
    (v : Validator) (result : Result Error Validator) (r : Validation)
    → Accounted v r
    → ((v' : Validator) → result ≡ ok v' → Accounted v' r)
    → Accounted (kept v result) r
kept-Accounted v (ok v') r a next = next v' refl
kept-Accounted v (err e) r a next = a

run-Accounted :
    (v : Validator) (events : List Event) (r : Validation)
    → Accounted v r
    → Accounted (run v events) r
unfolding run
run-Accounted v [] r a = a
run-Accounted v (event ∷ more) r a =
    run-Accounted (kept v (happen v event)) more r
      (kept-Accounted v (happen v event) r a (λ v' e. happen-Accounted v v' event r e a))

Among-length : (r : Validation) (xs : List Validation) → Among r xs → 0 < length xs
Among-length r [] m = elim m [ ]
Among-length r (x ∷ rest) m = omega arith

-- After a well-formed validator admits a request, whatever happens, its future is done by the time
-- that the worker has stopped.
pub run-Done :
    (v v' : Validator) (leaf chain : String) (result : ℕ) (events : List Event)
    → IsBounded v
    → submit v leaf chain result ≡ ok v'
    → (run v' events).worker ≡ false
    → Done
        (run v' events)
        (record { certificate = record { leaf = leaf; chain = chain }; result = result })
run-Done v v' leaf chain result events valid e stopped =
    let r : Validation = record {
      certificate = record { leaf = leaf; chain = chain };
      result = result;
    } in
    let (q, room, bytes) = submit-ok v v' leaf chain result e in
    let queued : Accounted v' r =
      rw q (inr (inr (Among-append r v.pending (r ∷ []) (inr (inl refl))))) in
    let after = run-IsBounded v' events (submit-IsBounded v v' leaf chain result valid e) in
    elim (run-Accounted v' events r queued) [
      | inl d ↦ d
      | inr (inl b) ↦ absurd (
          omega
            (arith, after.counted, after.at_rest stopped, Among-length r (run v' events).batch b))
      | inr (inr p) ↦ absurd (
          omega
            (arith, after.counted, after.at_rest stopped, Among-length r (run v' events).pending p))
    ]
