-- ===== src/Gateway/CircuitBreaker.antt =====
-- packages/mas-gateway/src/mas_gateway/circuit_breaker.py: the circuit of one target, as the rules
-- that `_transition` applies to a validated snapshot. Times are whole ticks of a fixed unit, and
-- `now` is the reading of the module's clock.
pub mod Admission
pub mod Invariant
pub mod Thresholds
pub mod Equality
pub mod Storage
mod Examples
use mas_framework.Common.{
  ℕ, ◌+◌, ◌≤◌, ◌<◌, ◌==◌, ltb, leb, Bool, true, false, not, ◌&&◌, ◌||◌, Option, none, some, opt_eq,
  List, [], ◌∷◌, if◌then◌else◌,
}

pub data CircuitState : Type 0 where
  closed open_ half_open : CircuitState

pub record Config : Type 0 where
  pub failure_threshold : ℕ
  pub success_threshold : ℕ
  pub timeout : ℕ
  pub window : ℕ

-- The bounds that pydantic enforces on the configuration.
pub record IsConfig (c : Config) : Type 0 where
  pub some_failures : 1 ≤ c.failure_threshold
  pub some_successes : 1 ≤ c.success_threshold
  pub some_timeout : 0 < c.timeout
  pub some_window : 0 < c.window

pub record CircuitStatus : Type 0 where
  pub state : CircuitState
  pub failure_count : ℕ
  pub success_count : ℕ
  pub last_failure_time : Option ℕ
  pub opened_at : Option ℕ
  pub allowed : Bool

pub data Event : Type 0 where
  check success failure : Event

abbrev pub is_open : CircuitState → Bool
is_open open_ = true
is_open _ = false

abbrev pub is_half_open : CircuitState → Bool
is_half_open half_open = true
is_half_open _ = false

abbrev pub is_closed : CircuitState → Bool
is_closed closed = true
is_closed _ = false

abbrev pub default_status : CircuitStatus
default_status = record {
  state = closed;
  failure_count = 0;
  success_count = 0;
  last_failure_time = none;
  opened_at = none;
  allowed = true;
}

-- opened_at is not None and now - opened_at >= timeout
pub timed_out : Config → ℕ → Option ℕ → Bool
timed_out c now none = false
timed_out c now (some t) = leb (t + c.timeout) now

-- last_failure_time is None or now - last_failure_time > window
pub window_passed : Config → ℕ → Option ℕ → Bool
window_passed c now none = true
window_passed c now (some t) = ltb (t + c.window) now

pub observe : Config → ℕ → CircuitStatus → CircuitStatus
unfolding timed_out
observe c now s =
    if is_open s.state && timed_out c now s.opened_at
    then record s { state = half_open; success_count = 0; allowed = true }
    else s

pub close : CircuitStatus → CircuitStatus
close s = record s {
  state = closed;
  failure_count = 0;
  success_count = 0;
  last_failure_time = none;
  opened_at = none;
}

pub probe_success : Config → CircuitStatus → CircuitStatus
unfolding close
probe_success c s =
    let counted = record s { success_count = s.success_count + 1 } in
    if leb c.success_threshold counted.success_count then close counted else counted

pub on_success : Config → CircuitStatus → CircuitStatus
unfolding probe_success
on_success c s =
    if is_half_open s.state
    then probe_success c s
    else if s.failure_count == 0
    then s
    else record s { failure_count = 0; last_failure_time = none }

pub on_failure : Config → ℕ → CircuitStatus → CircuitStatus
unfolding window_passed
on_failure c now s =
    let kept = (if window_passed c now s.last_failure_time then 0 else s.failure_count) in
    let counted = record s { failure_count = kept + 1; last_failure_time = some now } in
    if is_half_open s.state || (is_closed s.state && leb c.failure_threshold (kept + 1))
    then record counted { state = open_; opened_at = some now; success_count = 0 }
    else counted

pub on_event : Config → ℕ → Event → CircuitStatus → CircuitStatus
unfolding on_success on_failure
on_event c now check s = s
on_event c now success s = if s.allowed then on_success c s else s
on_event c now failure s = on_failure c now s

pub admit : CircuitStatus → CircuitStatus
admit s = record s { allowed = not (is_open s.state) }

-- The pair of the observed and the recorded status.
pub transition : Config → ℕ → Event → CircuitStatus → CircuitStatus × CircuitStatus
unfolding observe on_event admit
transition c now e s = let checked = observe c now s in (checked, admit (on_event c now e checked))

pub state_eq : CircuitState → CircuitState → Bool
state_eq closed closed = true
state_eq open_ open_ = true
state_eq half_open half_open = true
state_eq _ _ = false

abbrev bool_eq : Bool → Bool → Bool
bool_eq true b = b
bool_eq false b = not b

-- The equality of pydantic models, field by field.
pub status_eq : CircuitStatus → CircuitStatus → Bool
unfolding state_eq
status_eq s t =
    state_eq s.state t.state
    && s.failure_count == t.failure_count
    && s.success_count == t.success_count
    && opt_eq s.last_failure_time t.last_failure_time
    && opt_eq s.opened_at t.opened_at
    && bool_eq s.allowed t.allowed

-- The status that a sequence of events records, each with its clock reading.
pub run : Config → CircuitStatus → List (ℕ × Event) → CircuitStatus
run c s [] = s
run c s ((now, e) ∷ rest) = run c (transition c now e s).1 rest
