-- ===== src/Gateway/CircuitBreaker/Invariant.antt =====
-- The well-formed statuses of a circuit, and that the rules keep them.
use mas_framework.Common.{ℕ, ◌<◌, ◌≡◌, refl, ◌⊎◌, true, not, List, [], ◌∷◌, arith, is_some}
use mas_framework.Gateway.CircuitBreaker.{
  CircuitState, closed, open_, half_open, Config, IsConfig, CircuitStatus, Event, check, success,
  failure, is_open, default_status, transition, run,
}

abbrev CountsFit : Config → CircuitStatus → CircuitState → Type 0
CountsFit c s closed =
    (s.failure_count < c.failure_threshold)
    × (s.success_count ≡ 0)
    × ((s.failure_count ≡ 0) ⊎ (is_some s.last_failure_time ≡ true))
CountsFit c s open_ = (is_some s.opened_at ≡ true) × (s.success_count ≡ 0)
CountsFit c s half_open = (is_some s.opened_at ≡ true) × (s.success_count < c.success_threshold)

-- A circuit denies exactly while it is open; an open or half-open circuit knows when it opened;
-- a closed circuit is below its failure threshold, a half-open one below its success threshold.
pub record IsValid (c : Config) (s : CircuitStatus) : Type 0 where
  pub admits : s.allowed ≡ not (is_open s.state)
  pub fits : CountsFit c s s.state

pub default_status-IsValid : (c : Config) → IsConfig c → IsValid c default_status
default_status-IsValid c k = record { admits = refl; fits = ground arith }

module _ (c : Config) (now : ℕ) (s : CircuitStatus) (k : IsConfig c) (v : IsValid c s) where
  checked-IsValid : (e : Event) → IsValid c (transition c now e s).0
  unfolding transition
  checked-IsValid e = ground arith

  recorded_check-IsValid : IsValid c (transition c now check s).1
  unfolding transition
  recorded_check-IsValid = ground arith

  recorded_success-IsValid : IsValid c (transition c now success s).1
  unfolding transition
  recorded_success-IsValid = ground arith

  recorded_failure-IsValid : IsValid c (transition c now failure s).1
  unfolding transition
  recorded_failure-IsValid = ground arith

-- Both the observed and the recorded status of every event are well-formed again.
pub transition-IsValid :
    (c : Config) (now : ℕ) (e : Event) (s : CircuitStatus)
    → IsConfig c
    → IsValid c s
    → IsValid c (transition c now e s).0 × IsValid c (transition c now e s).1
transition-IsValid c now check s k v =
    (checked-IsValid c now s k v check, recorded_check-IsValid c now s k v)
transition-IsValid c now success s k v =
    (checked-IsValid c now s k v success, recorded_success-IsValid c now s k v)
transition-IsValid c now failure s k v =
    (checked-IsValid c now s k v failure, recorded_failure-IsValid c now s k v)

run_from-IsValid :
    (c : Config) (s : CircuitStatus) (es : List (ℕ × Event))
    → IsConfig c
    → IsValid c s
    → IsValid c (run c s es)
unfolding run
run_from-IsValid c s [] k v = v
run_from-IsValid c s ((now, e) ∷ rest) k v =
    run_from-IsValid c (transition c now e s).1 rest k (transition-IsValid c now e s k v).1

-- Whatever events a new circuit records, at whatever clock readings, its status is well-formed.
pub run-IsValid :
    (c : Config) (es : List (ℕ × Event)) → IsConfig c → IsValid c (run c default_status es)
run-IsValid c es k = run_from-IsValid c default_status es k (default_status-IsValid c k)
