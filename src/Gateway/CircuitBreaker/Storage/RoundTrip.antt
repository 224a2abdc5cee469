-- ===== src/Gateway/CircuitBreaker/Storage/RoundTrip.antt =====
-- What `_apply_event` writes is what `_status_from_data` reads back.
use mas_framework.Common.{
  ℕ, ◌≡◌, refl, not, none, some, Option, String, arith, str_eq, if◌then◌else◌,
}
use mas_framework.Common.Dict.{Dict, lookup, lookup-insert}
use mas_framework.Common.Results.{ok}
use mas_framework.Gateway.CircuitBreaker.{
  CircuitState, closed, open_, half_open, Config, CircuitStatus, is_open,
}
use mas_framework.Gateway.CircuitBreaker.Storage.{
  Codec, Stored, status_from_data, mapping, hset, persist, parse_state, state_name, print_optional,
  optional_time,
}

parse_state-state_name : (st : CircuitState) → parse_state (state_name st) ≡ some st
unfolding parse_state state_name
parse_state-state_name closed = refl
parse_state-state_name open_ = refl
parse_state-state_name half_open = refl

module _ (codec : Codec) where
  -- The five fields that a write sets, whatever the hash held before.
  lookup-hset :
      (raw : Dict String) (s : CircuitStatus) (name : String)
      → lookup name (hset raw (mapping codec s)) ≡ (
          if str_eq "opened_at" name
          then some (print_optional codec s.opened_at)
          else if str_eq "last_failure_time" name
          then some (print_optional codec s.last_failure_time)
          else if str_eq "success_count" name
          then some (codec.print_count s.success_count)
          else if str_eq "failure_count" name
          then some (codec.print_count s.failure_count)
          else if str_eq "state" name
          then some (state_name s.state)
          else lookup name raw)
  unfolding hset mapping
  lookup-hset raw s name = simp lookup-insert

  optional_time-print_optional :
      (o : Option ℕ) → optional_time codec.parse_time (some (print_optional codec o)) ≡ ok o
  unfolding optional_time print_optional
  optional_time-print_optional none = refl
  optional_time-print_optional (some t) =
      rw (codec.print_time-ne_empty t) (rw (codec.parse-print_time t))

  pub status_from_data-mapping :
      (raw : Dict String) (s : CircuitStatus)
      → s.allowed ≡ not (is_open s.state)
      → lookup "allowed" raw ≡ none
      → status_from_data codec (hset raw (mapping codec s)) ≡ ok s
  status_from_data-mapping raw s h a =
      unfold status_from_data in
      ground (
        arith,
        h,
        a,
        lookup-hset raw s "state",
        lookup-hset raw s "failure_count",
        lookup-hset raw s "success_count",
        lookup-hset raw s "last_failure_time",
        lookup-hset raw s "opened_at",
        lookup-hset raw s "allowed",
        parse_state-state_name s.state,
        codec.parse-print_count s.failure_count,
        codec.parse-print_count s.success_count,
        optional_time-print_optional s.last_failure_time,
        optional_time-print_optional s.opened_at,
      )

  -- The stored circuit stands for the status.
  pub record Holds (base : Stored) (s : CircuitStatus) : Type 0 where
    pub reads : status_from_data codec base.hash ≡ ok s
    pub derives : s.allowed ≡ not (is_open s.state)
    pub plain : lookup "allowed" base.hash ≡ none

  -- A status whose admission is derived from its state is read back from the hash that a write
  -- leaves, whatever fields but `allowed` the hash had before.
  pub persist-Holds :
      (c : Config) (second : ℕ) (base : Stored) (s : CircuitStatus)
      → s.allowed ≡ not (is_open s.state)
      → lookup "allowed" base.hash ≡ none
      → Holds (persist codec c second base s) s
  unfolding persist
  persist-Holds c second base s h a = record {
    reads = status_from_data-mapping base.hash s h a;
    derives = h;
    plain = ground (arith, a, lookup-hset base.hash s "allowed");
  }
