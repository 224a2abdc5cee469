-- ===== src/Gateway/CircuitBreaker/Storage/Examples.antt =====
-- The theorems on the stored circuit at concrete keys, and tests of its definitions.
use mas_framework.Common.{
  ◌+◌, ◌*◌, ◌≤◌, ◌<◌, ◌≡◌, none, refl, ◌⊎◌, true, false, some, [], ◌∷◌, arith,
}
use mas_framework.Common.Tally.{tally, parse_tally, parse-tally, tally-ne_empty}
use mas_framework.Common.Results.{ok, ◌>>=◌}
use mas_framework.Common.Dict.{lookup, insert}
use mas_framework.Gateway.CircuitBreaker.{
  open_, Config, CircuitStatus, check, failure, default_status, transition, status_eq,
}
use mas_framework.Gateway.CircuitBreaker.Admission.{OpenSince}
use mas_framework.Gateway.CircuitBreaker.Examples.{defaults, opened}
use mas_framework.Gateway.CircuitBreaker.Storage.{
  Codec, Stored, missing, persist, status_from_data, watch_loop, apply_event, resolve_check,
  attempt, expiry, elapse, hset, mapping, parse_state, state_name, field_or, optional_time,
  print_optional,
}
use mas_framework.Gateway.CircuitBreaker.Storage.RoundTrip.{Holds, persist-Holds}
use mas_framework.Gateway.CircuitBreaker.Storage.Expiry.{serve-OpenSince}
use mas_framework.Gateway.CircuitBreaker.Storage.Retry.{Observed, Committed, watch_loop-result}
use mas_framework.Gateway.CircuitBreaker.Storage.Refinement.{
  missing-Holds, status_of, kept, recorded_at, run_kept, life, serve, serve-run_kept,
  resolve_check-eq-apply_event,
}

abbrev tallies : Codec
tallies = record {
  print_count = tally;
  parse_count = parse_tally;
  print_time = tally;
  parse_time = parse_tally;
  parse_bool = λ text. some true;
  parse-print_count = parse-tally;
  parse-print_time = parse-tally;
  print_time-ne_empty = tally-ne_empty;
}

persist-Holds_example : Holds tallies (persist tallies defaults 1 missing opened) opened
unfolding lookup
persist-Holds_example = persist-Holds tallies defaults 1 missing opened refl refl

empty_key : Holds tallies missing default_status
empty_key = missing-Holds tallies defaults 1

watch_loop-result_example :
    (r : CircuitStatus × CircuitStatus × Stored) × (watch_loop tallies defaults 1 failure
        ((5, missing) ∷ [])
        6
        missing
      ≡ ok r)
    × (Observed tallies defaults failure missing ((5, missing) ∷ []) r
        ⊎ Committed tallies defaults 1 failure 6 missing ((5, missing) ∷ []) r)
watch_loop-result_example =
    watch_loop-result tallies defaults 1 failure ((5, missing) ∷ []) 6 missing
      ((default_status, empty_key.reads), (default_status, empty_key.reads))

-- A failure that nothing follows is forgotten after five minutes.
forgotten : run_kept defaults 300 none ((5, failure) ∷ (310, check) ∷ []) ≡ none
unfolding run_kept recorded_at kept transition status_eq
forgotten = refl

serve-run_kept_example :
    (defaults.window ≤ life tallies defaults 1)
    × (defaults.timeout * 2 ≤ life tallies defaults 1)
    × ((life tallies defaults 1 < defaults.window + 1)
        ⊎ (life tallies defaults 1 < defaults.timeout * 2 + 1))
    × ((after : Stored) × (serve tallies defaults 1 0 missing ((5, failure) ∷ (400, check) ∷ []) 400
          ≡ ok after)
        × (status_from_data tallies after.hash
            ≡ ok (
                status_of (
                  kept (life tallies defaults 1) 400 (
                    run_kept defaults
                      (life tallies defaults 1)
                      none
                      ((5, failure) ∷ (400, check) ∷ []))))))
serve-run_kept_example =
    serve-run_kept tallies defaults 1 0 400 ((5, failure) ∷ (400, check) ∷ []) (omega arith)
      (omega arith)

abbrev one_failure : Config
one_failure = record { failure_threshold = 1; success_threshold = 2; timeout = 60; window = 30 }

abbrev opened_at_100 : CircuitStatus
opened_at_100 = record {
  state = open_;
  failure_count = 1;
  success_count = 0;
  last_failure_time = some 100;
  opened_at = some 100;
  allowed = false;
}

-- The key of the circuit 50 ticks after the failure that opened it.
abbrev open_key : Stored
open_key = record (persist tallies one_failure 1 missing opened_at_100) { ttl = some 70 }

serve-OpenSince_example :
    (after : Stored) × (s' : CircuitStatus) × (serve tallies one_failure 1 150 open_key
        ((155, failure) ∷ [])
        159
      ≡ ok after)
    × (status_from_data tallies after.hash ≡ ok s')
    × OpenSince 100 s'
    × ((transition one_failure 159 check s').0.allowed ≡ false)
unfolding serve apply_event watch_loop attempt persist expiry elapse transition status_from_data
    status_eq hset mapping insert lookup parse_state state_name field_or optional_time
    print_optional
serve-OpenSince_example =
    serve-OpenSince tallies one_failure 1 90 150 159 100 ((100, failure) ∷ []) ((155, failure) ∷ [])
      open_key opened_at_100 (omega arith) (omega arith) (omega arith) refl refl (refl, refl)
      (omega arith) (omega arith) (omega arith)

resolve_check-eq-apply_event_example :
    resolve_check tallies defaults 1 7 missing 7 missing missing [] 7 ≡ (do
      (checked, _, after) ← apply_event tallies defaults 1 check 7 missing missing [] 7
      ok (checked, after))
resolve_check-eq-apply_event_example = resolve_check-eq-apply_event tallies defaults 1 7 missing
