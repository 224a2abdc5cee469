-- ===== src/Server/PeerValidation/Examples.antt =====
-- The theorems on peer validation at a concrete validator, and tests of its definitions.
use mas_framework.Common.{ℕ, ◌≡◌, refl, true, false, List, [], ◌∷◌, arith}
use mas_framework.Common.Results.{ok, err}
use mas_framework.Server.PeerValidation.{
  capacity_exceeded, Certificate, Verdict, rejected, raised, Validation, Validator, make_validator,
  submit, settle, outcome_of, finish, certificate_eq, verdict_of, validate_snapshot, deliver, split,
  next_batch, cycle,
}
use mas_framework.Server.PeerValidation.Bounds.{
  make_validator-IsBounded, IsBounded, run-IsBounded, Event, submitted, abandoned, checked, run,
}
use mas_framework.Server.PeerValidation.Progress.{run-drained, turns}
use mas_framework.Server.PeerValidation.Accounts.{Done, run-Done}

abbrev validation : ℕ → Validation
validation n = record { certificate = record { leaf = "leaf"; chain = "" }; result = n }

abbrev idle : Validator
idle = record {
  capacity = 2;
  batch_size = 1;
  max_pending_bytes = 10;
  pending = [];
  active = 0;
  pending_bytes = 0;
  worker = false;
  batch = [];
  futures = [];
}

abbrev one_queued : Validator
one_queued = record {
  capacity = 2;
  batch_size = 1;
  max_pending_bytes = 10;
  pending = validation 0 ∷ [];
  active = 1;
  pending_bytes = 4;
  worker = true;
  batch = [];
  futures = [];
}

abbrev refuse : ℕ → Certificate → Verdict
refuse n c = rejected "revoked"

made : make_validator 2 5 10 ≡ ok (record idle { batch_size = 2 })
unfolding make_validator
made = refl

queued : submit idle "leaf" "" 0 ≡ ok one_queued
unfolding submit
queued = refl

full : submit (record one_queued { active = 2 }) "leaf" "" 1 ≡ err capacity_exceeded
unfolding submit
full = refl

-- Two requests for one certificate ask the policy once.
one_question :
    validate_snapshot refuse [] (validation 0 ∷ validation 1 ∷ [])
    ≡ ((validation 0).certificate, rejected "revoked") ∷ []
unfolding validate_snapshot verdict_of certificate_eq
one_question = refl

idle-IsBounded : IsBounded idle
unfolding make_validator
idle-IsBounded = make_validator-IsBounded 2 1 10 idle refl

abbrev rejections : List Event
rejections = checked refuse ∷ checked refuse ∷ []

run-IsBounded_example : IsBounded (run idle (submitted "leaf" "" 0 ∷ abandoned 0 ∷ rejections))
run-IsBounded_example =
    run-IsBounded idle (submitted "leaf" "" 0 ∷ abandoned 0 ∷ rejections) idle-IsBounded

run-drained_example : (run one_queued (turns (refuse ∷ refuse ∷ []))).worker ≡ false
run-drained_example = run-drained one_queued (refuse ∷ refuse ∷ []) (omega arith) (omega arith)

run-Done_example : Done (run one_queued rejections) (validation 0)
unfolding submit run cycle deliver validate_snapshot verdict_of certificate_eq next_batch split
    finish settle outcome_of
run-Done_example = run-Done idle one_queued "leaf" "" 0 rejections idle-IsBounded refl refl

first_outcome : (run one_queued rejections).futures ≡ (0, raised "revoked") ∷ []
unfolding run cycle deliver validate_snapshot verdict_of certificate_eq next_batch split finish
    settle outcome_of
first_outcome = refl
