-- ===== src/Server/PeerValidation.antt =====
-- packages/mas-server/src/mas_server/peer_validation.py: the bounded queue of certificate checks and
-- the worker that drains it in batches. Bytes are texts, one character for each byte.
pub mod Bounds
pub mod Progress
pub mod Accounts
mod Examples
use Prim.Native.String.{count}
use mas_framework.Common.{
  ℕ, zero, suc, ◌+◌, ◌-◌, ◌==◌, ltb, leb, Bool, true, false, not, ◌&&◌, ◌||◌, Option, none, some,
  List, [], ◌∷◌, ◌++◌, String, str_eq, if◌then◌else◌, length,
}
use mas_framework.Common.Results.{Result, ok, err, ◌>>=◌, ◌>>◌, ensure}

pub data Error : Type 0 where
  limits_not_positive certificate_exceeds_bound capacity_exceeded key_error : Error

pub record Certificate : Type 0 where
  pub leaf : String
  pub chain : String

-- What the policy answers: nothing, or the exception that it raises.
pub data Verdict : Type 0 where
  accepted : Verdict
  rejected : String → Verdict

-- How a caller's future ends.
pub data Outcome : Type 0 where
  passed was_cancelled : Outcome
  raised : String → Outcome

pub record Validation : Type 0 where
  pub certificate : Certificate
  pub result : ℕ

-- `batch` is the snapshot that the worker validates in its thread; `futures` has the outcome of
-- each future that is done.
pub record Validator : Type 0 where
  pub capacity : ℕ
  pub batch_size : ℕ
  pub max_pending_bytes : ℕ
  pub pending : List Validation
  pub active : ℕ
  pub pending_bytes : ℕ
  pub worker : Bool
  pub batch : List Validation
  pub futures : List (ℕ × Outcome)

abbrev min : ℕ → ℕ → ℕ
min a b = if leb a b then a else b

-- __init__
pub make_validator : ℕ → ℕ → ℕ → Result Error Validator
make_validator capacity batch_size max_pending_bytes = do
  ensure (not (leb (min (min capacity batch_size) max_pending_bytes) 0)) limits_not_positive
  ok (record {
    capacity = capacity;
    batch_size = min batch_size capacity;
    max_pending_bytes = max_pending_bytes;
    pending = [];
    active = 0;
    pending_bytes = 0;
    worker = false;
    batch = [];
    futures = [];
  })

abbrev pub size_of : Validation → ℕ
size_of request = count request.certificate.leaf + count request.certificate.chain

-- `validate` until it awaits its future, which is named `result`.
pub submit : Validator → String → String → ℕ → Result Error Validator
submit v leaf chain result =
    let size = count leaf + count chain in
    if ltb 65536 (count leaf) || ltb 1048576 (count chain)
    then err certificate_exceeds_bound
    else if leb v.capacity v.active || ltb v.max_pending_bytes (v.pending_bytes + size)
    then err capacity_exceeded
    else ok (record v {
      pending =
          v.pending
          ++ record { certificate = record { leaf = leaf; chain = chain }; result = result } ∷ [];
      active = v.active + 1;
      pending_bytes = v.pending_bytes + size;
      worker = true;
    })

pub outcome_of : ℕ → List (ℕ × Outcome) → Option Outcome
outcome_of result [] = none
outcome_of result ((other, o) ∷ rest) =
    let later = outcome_of result rest in if other == result then some o else later

-- Setting a future that is done changes nothing: it is looked at first.
pub settle : ℕ → Outcome → List (ℕ × Outcome) → List (ℕ × Outcome)
settle result o futures = elim (outcome_of result futures) [
  | none ↦ (result, o) ∷ futures
  | some before ↦ futures
]

-- A caller that stops waiting cancels its own future only.
pub cancel : Validator → ℕ → Validator
cancel v result = record v { futures = settle result was_cancelled v.futures }

pub finish : Validator → Validation → Outcome → Validator
finish v request o = record v {
  active = v.active - 1;
  pending_bytes = v.pending_bytes - size_of request;
  futures = settle request.result o v.futures;
}

pub finish_all : Validator → List Validation → Outcome → Validator
finish_all v [] o = v
finish_all v (request ∷ rest) o = finish_all (finish v request o) rest o

pub certificate_eq : Certificate → Certificate → Bool
certificate_eq a b = str_eq a.leaf b.leaf && str_eq a.chain b.chain

pub verdict_of : Certificate → List (Certificate × Verdict) → Option Verdict
verdict_of c [] = none
verdict_of c ((other, verdict) ∷ rest) =
    let later = verdict_of c rest in if certificate_eq other c then some verdict else later

-- validate_snapshot: the policy may answer each of its calls differently.
pub validate_snapshot :
    (ℕ → Certificate → Verdict)
    → List (Certificate × Verdict)
    → List Validation
    → List (Certificate × Verdict)
validate_snapshot policy results [] = results
validate_snapshot policy results (request ∷ rest) =
    let c = request.certificate in
    let once = validate_snapshot policy results rest in
    let asked = validate_snapshot policy ((c, policy (length results) c) ∷ results) rest in
    elim (verdict_of c results) [ none ↦ asked | some verdict ↦ once ]

abbrev pub outcome : Verdict → Outcome
outcome accepted = passed
outcome (rejected error) = raised error

-- The requests of a batch get the results of their certificates; a missing one is a KeyError.
pub deliver : Validator → List (Certificate × Verdict) → List Validation → Result Error Validator
deliver v results [] = ok v
deliver v results (request ∷ rest) = elim (verdict_of request.certificate results) [
  | none ↦ err key_error
  | some verdict ↦ deliver (finish v request (outcome verdict)) results rest
]

-- The first requests of a queue, at most as many as given, and the others.
pub split : ℕ → List Validation → List Validation × List Validation
split zero queue = ([], queue)
split (suc n) [] = ([], [])
split (suc n) (request ∷ rest) = let (first, others) = split n rest in (request ∷ first, others)

-- The head of the loop of `_run`: the next snapshot, or the end of the worker.
pub next_batch : Validator → Validator
next_batch v = elim v.pending [
  | [] ↦ record v { batch = []; worker = false }
  | request ∷ rest ↦
      let (first, others) = split v.batch_size (request ∷ rest) in
      record v { batch = first; pending = others }
]

-- The thread returns, and the worker goes on.
pub cycle : (ℕ → Certificate → Verdict) → Validator → Result Error Validator
cycle policy v = do v' ← deliver v (validate_snapshot policy [] v.batch) v.batch; ok (next_batch v')

-- The thread fails or the worker is cancelled: every accepted request ends the same way.
pub abort : Validator → Outcome → Validator
abort v o =
    let v' = finish_all (finish_all v v.batch o) v.pending o in
    record v' { batch = []; pending = []; worker = false }
