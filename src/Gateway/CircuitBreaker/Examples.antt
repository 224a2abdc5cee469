-- ===== src/Gateway/CircuitBreaker/Examples.antt =====
-- The circuit's theorems at concrete inputs, and tests of its definitions.
use mas_framework.Common.{ℕ, ◌<◌, ◌≡◌, refl, true, false, some, [], ◌∷◌, arith}
use mas_framework.Gateway.CircuitBreaker.{
  open_, half_open, Config, IsConfig, CircuitStatus, check, success, failure, default_status,
  transition, run,
}
use mas_framework.Gateway.CircuitBreaker.Invariant.{IsValid, run-IsValid}
use mas_framework.Gateway.CircuitBreaker.Admission.{OpenSince, run-OpenSince}
use mas_framework.Gateway.CircuitBreaker.Thresholds.{FailedAt, OpenedAt, failures, run-failures}

abbrev pub defaults : Config
defaults = record { failure_threshold = 3; success_threshold = 2; timeout = 60; window = 300 }

defaults-IsConfig : IsConfig defaults
defaults-IsConfig = omega arith

abbrev pub opened : CircuitStatus
opened = record {
  state = open_;
  failure_count = 3;
  success_count = 0;
  last_failure_time = some 100;
  opened_at = some 100;
  allowed = false;
}

opened-IsValid : IsValid defaults opened
opened-IsValid = record { admits = refl; fits = (refl, refl) }

abbrev probing : CircuitStatus
probing = record opened { state = half_open; allowed = true }

-- Three failures open the circuit, and a check after the timeout lets a probe through.
three_failures : run defaults default_status (failures (10 ∷ 20 ∷ 100 ∷ [])) ≡ opened
unfolding run transition
three_failures = refl

probe_after_timeout : (transition defaults 160 check opened).0 ≡ probing
unfolding transition
probe_after_timeout = refl

run-IsValid_example :
    IsValid defaults (run defaults default_status ((5, failure) ∷ (9, success) ∷ (30, check) ∷ []))
run-IsValid_example =
    run-IsValid defaults ((5, failure) ∷ (9, success) ∷ (30, check) ∷ []) defaults-IsConfig

run-OpenSince_example :
    OpenSince 100 (run defaults opened ((110, success) ∷ (120, failure) ∷ []))
    × ((transition defaults 159 check
          (run defaults opened ((110, success) ∷ (120, failure) ∷ []))).0.allowed
        ≡ false)
run-OpenSince_example =
    run-OpenSince defaults 100 159 ((110, success) ∷ (120, failure) ∷ []) check opened
      defaults-IsConfig opened-IsValid (refl, refl) (omega arith) (omega arith)

run-failures_example :
    (2 < 3 → FailedAt 2 20 (run defaults default_status (failures (10 ∷ 20 ∷ []))))
    × (◌≡◌ {A = ℕ} 2 3 → OpenedAt 3 20 (run defaults default_status (failures (10 ∷ 20 ∷ []))))
run-failures_example = run-failures defaults 10 (20 ∷ []) defaults-IsConfig (omega arith)
