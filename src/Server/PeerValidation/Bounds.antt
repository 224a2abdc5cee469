-- ===== src/Server/PeerValidation/Bounds.antt =====
-- The counters of the validator count what is queued and being validated, and stay within its
-- limits.
use Prim.Native.String.{count}
use mas_framework.Common.{
  ℕ, zero, suc, ◌+◌, ◌-◌, ◌≤◌, ◌≡◌, refl, ap, inl, inr, true, false, List, [], ◌∷◌, ◌++◌, String,
  arith, length, length-append, Option-cases, ◌<◌, ◌⊎◌,
}
use mas_framework.Common.Results.{Result, ok, err, Result-cases}
use mas_framework.Server.PeerValidation.{
  Error, Certificate, Verdict, Outcome, Validation, Validator, make_validator, size_of, submit,
  cancel, finish, finish_all, verdict_of, validate_snapshot, outcome, deliver, split, next_batch,
  cycle, abort,
}

pub total : List Validation → ℕ
total [] = 0
total (request ∷ rest) = size_of request + total rest

pub record IsBounded (v : Validator) : Type 0 where
  pub counted : v.active ≡ length v.batch + length v.pending
  pub sized : v.pending_bytes ≡ total v.batch + total v.pending
  pub in_capacity : v.active ≤ v.capacity
  pub in_bytes : v.pending_bytes ≤ v.max_pending_bytes
  pub at_rest : v.worker ≡ false → v.active ≡ 0

total-append : (xs ys : List Validation) → total (xs ++ ys) ≡ total xs + total ys
unfolding total
total-append [] ys = omega arith
total-append (x ∷ xs) ys = ground (arith, total-append xs ys)

-- What finishing requests leaves of a validator.
pub record Finished (v v' : Validator) (requests : List Validation) : Type 0 where
  pub fewer : v'.active ≡ v.active - length requests
  pub smaller : v'.pending_bytes ≡ v.pending_bytes - total requests
  pub same_pending : v'.pending ≡ v.pending
  pub same_batch : v'.batch ≡ v.batch
  pub same_worker : v'.worker ≡ v.worker
  pub same_capacity : v'.capacity ≡ v.capacity
  pub same_limit : v'.max_pending_bytes ≡ v.max_pending_bytes
  pub same_batch_size : v'.batch_size ≡ v.batch_size

Finished-finish :
    (v v' : Validator) (request : Validation) (rest : List Validation) (o : Outcome)
    → Finished (finish v request o) v' rest
    → Finished v v' (request ∷ rest)
unfolding finish total
Finished-finish v v' request rest o f = record {
  fewer = omega (arith, f.fewer);
  smaller = omega (arith, f.smaller);
  same_pending = f.same_pending;
  same_batch = f.same_batch;
  same_worker = f.same_worker;
  same_capacity = f.same_capacity;
  same_limit = f.same_limit;
  same_batch_size = f.same_batch_size;
}

finish_all-Finished :
    (v : Validator) (requests : List Validation) (o : Outcome)
    → Finished v (finish_all v requests o) requests
unfolding finish_all total
finish_all-Finished v [] o = record {
  fewer = omega arith;
  smaller = omega arith;
  same_pending = refl;
  same_batch = refl;
  same_worker = refl;
  same_capacity = refl;
  same_limit = refl;
  same_batch_size = refl;
}
finish_all-Finished v (request ∷ rest) o =
    Finished-finish v _ request rest o (finish_all-Finished (finish v request o) rest o)

pub deliver-Finished :
    (v v' : Validator) (results : List (Certificate × Verdict)) (requests : List Validation)
    → deliver v results requests ≡ ok v'
    → Finished v v' requests
unfolding deliver total
deliver-Finished v v' results [] e = record {
  fewer = ground arith;
  smaller = ground arith;
  same_pending = ground arith;
  same_batch = ground arith;
  same_worker = ground arith;
  same_capacity = ground arith;
  same_limit = ground arith;
  same_batch_size = ground arith;
}
deliver-Finished v v' results (request ∷ rest) e =
    elim (Option-cases (verdict_of request.certificate results)) [
      | inl missing ↦ absurd (ground arith)
      | inr (verdict, found) ↦
          Finished-finish v v' request rest (outcome verdict)
            (deliver-Finished (finish v request (outcome verdict)) v' results rest (ground arith))
    ]

pub split-counts :
    (n : ℕ) (queue : List Validation)
    → (length (split n queue).0 + length (split n queue).1 ≡ length queue)
      × (total (split n queue).0 + total (split n queue).1 ≡ total queue)
unfolding split total
split-counts zero queue = (omega arith, omega arith)
split-counts (suc n) [] = (omega arith, omega arith)
split-counts (suc n) (request ∷ rest) =
    let s = split-counts n rest in (omega (arith, s.0), omega (arith, s.1))

-- An admitted request is put at the end of the queue, within both limits.
pub submit-ok :
    (v v' : Validator) (leaf chain : String) (result : ℕ)
    → submit v leaf chain result ≡ ok v'
    → (v' ≡ record v {
      pending =
          v.pending
          ++ record { certificate = record { leaf = leaf; chain = chain }; result = result } ∷ [];
      active = v.active + 1;
      pending_bytes = v.pending_bytes + (count leaf + count chain);
      worker = true;
    })
      × (v.active < v.capacity)
      × (v.pending_bytes + (count leaf + count chain) ≤ v.max_pending_bytes)
unfolding submit
submit-ok v v' leaf chain result e = ground arith

pub submit-IsBounded :
    (v v' : Validator) (leaf chain : String) (result : ℕ)
    → IsBounded v
    → submit v leaf chain result ≡ ok v'
    → IsBounded v'
unfolding total
submit-IsBounded v v' leaf chain result valid e =
    let (q, room, bytes) = submit-ok v v' leaf chain result e in
    let new : Validation = record {
      certificate = record { leaf = leaf; chain = chain };
      result = result;
    } in
    rw q (record {
      counted = omega (arith, valid.counted, length-append v.pending (new ∷ []));
      sized = omega (arith, valid.sized, total-append v.pending (new ∷ []));
      in_capacity = omega arith;
      in_bytes = bytes;
      at_rest = λ f. absurd (ground arith);
    })

pub List-cases :
    (xs : List Validation)
    → (xs ≡ []) ⊎ ((x : Validation) × (rest : List Validation) × (xs ≡ x ∷ rest))
List-cases [] = inl refl
List-cases (x ∷ rest) = inr (x, rest, refl)

next_batch-IsBounded :
    (v : Validator) → IsBounded (record v { batch = [] }) → IsBounded (next_batch v)
unfolding next_batch total
next_batch-IsBounded v valid = elim (List-cases v.pending) [
  | inl e ↦ rw e (record {
    counted = ground (arith, valid.counted);
    sized = ground (arith, valid.sized);
    in_capacity = valid.in_capacity;
    in_bytes = valid.in_bytes;
    at_rest = λ f. ground (arith, valid.counted);
  })
  | inr (request, rest, e) ↦
      let s = split-counts v.batch_size (request ∷ rest) in
      let t : total v.pending ≡ total (request ∷ rest) = ap total e in
      let bytes : v.pending_bytes
          ≡ total (split v.batch_size (request ∷ rest)).0
            + total (split v.batch_size (request ∷ rest)).1 =
        omega (arith, valid.sized, s.1, t) in
      rw e (record {
        counted = ground (arith, valid.counted, s.0);
        sized = bytes;
        in_capacity = valid.in_capacity;
        in_bytes = valid.in_bytes;
        at_rest = valid.at_rest;
      })
]

-- After its batch is finished, what is left of a validator is its queue.
Finished-IsBounded :
    (v v' : Validator) → IsBounded v → Finished v v' v.batch → IsBounded (record v' { batch = [] })
unfolding total
Finished-IsBounded v v' valid f = record {
  counted = rw f.same_pending (omega (arith, f.fewer, valid.counted));
  sized = rw f.same_pending (omega (arith, f.smaller, valid.sized));
  in_capacity = omega (arith, f.fewer, f.same_capacity, valid.in_capacity);
  in_bytes = omega (arith, f.smaller, f.same_limit, valid.in_bytes);
  at_rest = λ w. ground (arith, f.fewer, f.same_worker, valid.at_rest);
}

pub cycle-IsBounded :
    (policy : ℕ → Certificate → Verdict) (v v' : Validator)
    → IsBounded v
    → cycle policy v ≡ ok v'
    → IsBounded v'
unfolding cycle
cycle-IsBounded policy v v' valid e =
    elim (Result-cases (deliver v (validate_snapshot policy [] v.batch) v.batch)) [
      | inr (x, f) ↦ absurd (ground arith)
      | inl (w, f) ↦
          let q : v' ≡ next_batch w = ground arith in
          rw q (
            next_batch-IsBounded w (
              Finished-IsBounded v w valid
                (deliver-Finished v w (validate_snapshot policy [] v.batch) v.batch f)))
    ]

pub abort-IsBounded : (v : Validator) (o : Outcome) → IsBounded v → IsBounded (abort v o)
unfolding abort total
abort-IsBounded v o valid =
    let w = finish_all v v.batch o in
    let f = finish_all-Finished v v.batch o in
    let g = finish_all-Finished w v.pending o in
    record {
      counted = omega (arith, f.fewer, g.fewer, valid.counted);
      sized = omega (arith, f.smaller, g.smaller, valid.sized);
      in_capacity =
          omega (arith, f.fewer, g.fewer, f.same_capacity, g.same_capacity, valid.in_capacity);
      in_bytes = omega (arith, f.smaller, g.smaller, f.same_limit, g.same_limit, valid.in_bytes);
      at_rest = λ r. omega (arith, f.fewer, g.fewer, valid.counted);
    }

pub cancel-IsBounded : (v : Validator) (result : ℕ) → IsBounded v → IsBounded (cancel v result)
unfolding cancel
cancel-IsBounded v result valid = record {
  counted = valid.counted;
  sized = valid.sized;
  in_capacity = valid.in_capacity;
  in_bytes = valid.in_bytes;
  at_rest = valid.at_rest;
}

-- What callers and the worker do, one after the other.
pub data Event : Type 0 where
  submitted : String → String → ℕ → Event
  abandoned : ℕ → Event
  checked : (ℕ → Certificate → Verdict) → Event
  failed : Outcome → Event

-- A refused request leaves the validator as it was.
abbrev pub happen : Validator → Event → Result Error Validator
happen v (submitted leaf chain result) = submit v leaf chain result
happen v (abandoned result) = ok (cancel v result)
happen v (checked policy) = cycle policy v
happen v (failed o) = ok (abort v o)

abbrev pub kept : Validator → Result Error Validator → Validator
kept v (ok v') = v'
kept v (err e) = v

unfoldable pub run : Validator → List Event → Validator
run v [] = v
run v (event ∷ more) = run (kept v (happen v event)) more

happen-IsBounded :
    (v v' : Validator) (event : Event) → IsBounded v → happen v event ≡ ok v' → IsBounded v'
happen-IsBounded v v' (submitted leaf chain result) valid e =
    submit-IsBounded v v' leaf chain result valid e
happen-IsBounded v v' (abandoned result) valid e =
    let q : v' ≡ cancel v result = ground arith in rw q (cancel-IsBounded v result valid)
happen-IsBounded v v' (checked policy) valid e = cycle-IsBounded policy v v' valid e
happen-IsBounded v v' (failed o) valid e =
    let q : v' ≡ abort v o = ground arith in rw q (abort-IsBounded v o valid)

kept-IsBounded :
    (v : Validator) (r : Result Error Validator)
    → IsBounded v
    → ((v' : Validator) → r ≡ ok v' → IsBounded v')
    → IsBounded (kept v r)
kept-IsBounded v (ok v') valid next = next v' refl
kept-IsBounded v (err e) valid next = valid

-- Whatever happens to a well-formed validator, its counters count exactly what is queued and being
-- validated, and stay within the capacity and the limit of bytes, and nothing is queued or being
-- validated where the worker has stopped.
pub run-IsBounded : (v : Validator) (events : List Event) → IsBounded v → IsBounded (run v events)
unfolding run
run-IsBounded v [] valid = valid
run-IsBounded v (event ∷ more) valid =
    run-IsBounded (kept v (happen v event)) more
      (kept-IsBounded v (happen v event) valid (λ v' e. happen-IsBounded v v' event valid e))

pub make_validator-IsBounded :
    (capacity batch_size max_pending_bytes : ℕ) (v : Validator)
    → make_validator capacity batch_size max_pending_bytes ≡ ok v
    → IsBounded v
unfolding make_validator total
make_validator-IsBounded capacity batch_size max_pending_bytes v e = record {
  counted = ground arith;
  sized = ground arith;
  in_capacity = ground arith;
  in_bytes = ground arith;
  at_rest = λ r. ground arith;
}
