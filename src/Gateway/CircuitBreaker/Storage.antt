-- ===== src/Gateway/CircuitBreaker/Storage.antt =====
-- The circuit of one target as circuit_breaker.py keeps it in Redis: the hash at `circuit:<target>`
-- with its expiry, its validation, and the optimistic transaction that applies an event.
pub mod RoundTrip
pub mod Retry
pub mod Refinement
pub mod Expiry
mod Examples
use mas_framework.Common.{
  ℕ, ◌+◌, ◌-◌, ◌*◌, ◌/◌, ltb, leb, Bool, true, false, not, ◌≡◌, ◌≢◌, Option, none, some, List, [],
  ◌∷◌, String, str_eq, if◌then◌else◌,
}
use mas_framework.Common.Dict.{Dict, lookup, insert}
use mas_framework.Common.Results.{Result, ok, err, ◌>>=◌}
use mas_framework.Gateway.CircuitBreaker.{
  CircuitState, closed, open_, half_open, Config, CircuitStatus, Event, check, success, failure,
  is_open, transition, status_eq,
}

pub data Error : Type 0 where
  invalid_circuit : Error

-- Python's `str` on counts and clock readings, and pydantic's validation of the stored texts as
-- nonnegative integers, finite times and Booleans. A printed number is read back.
pub record Codec : Type 0 where
  pub print_count : ℕ → String
  pub parse_count : String → Option ℕ
  pub print_time : ℕ → String
  pub parse_time : String → Option ℕ
  pub parse_bool : String → Option Bool
  pub parse-print_count : (n : ℕ) → parse_count (print_count n) ≡ some n
  pub parse-print_time : (n : ℕ) → parse_time (print_time n) ≡ some n
  pub print_time-ne_empty : (n : ℕ) → str_eq (print_time n) "" ≡ false

pub state_name : CircuitState → String
state_name closed = "closed"
state_name open_ = "open"
state_name half_open = "half_open"

pub parse_state : String → Option CircuitState
parse_state name =
    if str_eq name "closed"
    then some closed
    else if str_eq name "open"
    then some open_
    else if str_eq name "half_open"
    then some half_open
    else none

abbrev checked_value {ℓ} : {A : Type ℓ} → Option A → Result Error A
checked_value none = err invalid_circuit
checked_value (some a) = ok a

-- A field that is absent takes its default.
field_or {ℓ} : {A : Type ℓ} → A → (String → Option A) → Option String → Result Error A
field_or default parse none = ok default
field_or default parse (some text) = checked_value (parse text)

-- The empty text stands for no time.
optional_time : (String → Option ℕ) → Option String → Result Error (Option ℕ)
optional_time parse none = ok none
optional_time parse (some text) =
    if str_eq text ""
    then ok none
    else checked_value (elim (parse text) [ none ↦ none | some t ↦ some (some t) ])

-- What Redis holds at a circuit's key at one moment: the hash, and how long it still lives. A
-- missing key reads as the empty hash.
pub record Stored : Type 0 where
  pub hash : Dict String
  pub ttl : Option ℕ

abbrev pub missing : Stored
missing = record { hash = []; ttl = none }

-- What Redis holds after a time in which nobody writes the key.
pub elapse : ℕ → Stored → Stored
elapse time base = elim base.ttl [
  | none ↦ base
  | some left ↦ if leb left time then missing else record base { ttl = some (left - time) }
]

-- HSET of several fields.
pub hset : Dict String → Dict String → Dict String
hset hash [] = hash
hset hash ((field, value) ∷ rest) = hset (insert field value hash) rest

abbrev max_of : ℕ → ℕ → ℕ
max_of a b = if ltb a b then b else a

module _ (codec : Codec) where
  open codec use {print_count, parse_count, print_time, parse_time, parse_bool}

  print_optional : Option ℕ → String
  print_optional none = ""
  print_optional (some t) = print_time t

  pub status_from_data : Dict String → Result Error CircuitStatus
  unfolding parse_state field_or optional_time
  status_from_data raw = do
    state ← field_or closed parse_state (lookup "state" raw)
    failures ← field_or 0 parse_count (lookup "failure_count" raw)
    successes ← field_or 0 parse_count (lookup "success_count" raw)
    last ← optional_time parse_time (lookup "last_failure_time" raw)
    opened ← optional_time parse_time (lookup "opened_at" raw)
    _ ← field_or true parse_bool (lookup "allowed" raw)
    ok (record {
      state = state;
      failure_count = failures;
      success_count = successes;
      last_failure_time = last;
      opened_at = opened;
      allowed = not (is_open state);
    })

  pub mapping : CircuitStatus → Dict String
  unfolding state_name print_optional
  mapping s =
      ("state", state_name s.state)
      ∷ ("failure_count", print_count s.failure_count)
      ∷ ("success_count", print_count s.success_count)
      ∷ ("last_failure_time", print_optional s.last_failure_time)
      ∷ ("opened_at", print_optional s.opened_at)
      ∷ []

  module _ (c : Config) (second : ℕ) where
    -- math.ceil(max(window_seconds, timeout_seconds * 2)), with `second` ticks to the second
    pub expiry : ℕ
    expiry = (max_of c.window (c.timeout * 2) + (second - 1)) / second

    pub persist : Stored → CircuitStatus → Stored
    persist base s = record { hash = hset base.hash (mapping s); ttl = some (expiry * second) }

    -- One reading of the hash: both statuses, and whether nothing has to be written.
    pub attempt : ℕ → Event → Stored → Result Error (CircuitStatus × CircuitStatus × Bool)
    unfolding status_from_data
    attempt now e base = do
      original ← status_from_data base.hash
      let (checked, recorded) = transition c now e original
      ok (checked, recorded, status_eq recorded original)

    -- The optimistic transaction. Each entry of the list is a round that another client disturbs:
    -- the clock reading, and what that client leaves at the key before EXEC, which then raises
    -- WatchError. `last` is the reading of the round that nobody disturbs.
    pub watch_loop :
        Event
        → List (ℕ × Stored)
        → ℕ
        → Stored
        → Result Error (CircuitStatus × CircuitStatus × Stored)
    watch_loop e [] last base = do
      (checked, recorded, same) ← attempt last e base
      ok (checked, recorded, if same then base else persist base recorded)
    watch_loop e ((now, other) ∷ rounds) last base =
        let again = watch_loop e rounds last other in
        do
          (checked, recorded, same) ← attempt now e base
          if same then ok (checked, recorded, other) else again

    -- `seen` is the first, unwatched reading and `current` the key when it is first watched.
    pub apply_event :
        Event
        → ℕ
        → Stored
        → Stored
        → List (ℕ × Stored)
        → ℕ
        → Result Error (CircuitStatus × CircuitStatus × Stored)
    apply_event e now seen current rounds last = do
      (checked, recorded, same) ← attempt now e seen
      if same then ok (checked, recorded, current) else watch_loop e rounds last current

    -- `resolve_check`: decide by the queued reading, or check again where it would be changed.
    pub resolve_check :
        ℕ
        → Stored
        → ℕ
        → Stored
        → Stored
        → List (ℕ × Stored)
        → ℕ
        → Result Error (CircuitStatus × Stored)
    resolve_check now queued again seen current rounds last = do
      (checked, recorded, same) ← attempt now check queued
      if same then ok (checked, seen) else do
        (result, _, stored) ← apply_event check again seen current rounds last
        ok (result, stored)

pub reset_circuit : Stored → Stored
reset_circuit s = missing
