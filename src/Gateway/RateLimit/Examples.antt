-- ===== src/Gateway/RateLimit/Examples.antt =====
-- The rate limit's theorems at concrete inputs, and tests of the script.
use mas_framework.Common.{◌-◌, ◌<◌, ◌≡◌, refl, true, some, [], ◌∷◌, arith}
use mas_framework.Common.Tally.{tally, parse_tally, parse-tally}
use mas_framework.Common.Dict.{lookup}
use mas_framework.Common.Results.{ok}
use mas_framework.Gateway.RateLimit.{
  Zset, Codec, Agent, RateLimitResult, new_agent, missing, holds, minute, check_rate_limit,
  get_current_usage, decide, limits_of, entries, prune, zadd, without, reset_of, least, refill,
  evict, count, hash_of,
}
use mas_framework.Gateway.RateLimit.Quota.{check_rate_limit-quota, min_of}
use mas_framework.Gateway.RateLimit.History.{admissions, Bounded, admissions-Bounded}

abbrev tallies : Codec
tallies = record {
  print_limit = tally;
  tonumber = parse_tally;
  parse_limit = parse_tally;
  tonumber-print = parse-tally;
  parse-print = parse-tally;
}

-- One request was admitted at 10; the limits are two a minute and three an hour.
abbrev used_once : Agent
used_once = record {
  minute_key = holds ((10, "a") ∷ []) (some 70);
  hour_key = holds ((10, "a") ∷ []) (some 3610);
  limits_key = missing;
}

abbrev first_answer : RateLimitResult
first_answer = record { allowed = true; limit = 2; remaining = 1; reset_time = 70; window = minute }

first_request : check_rate_limit 1 tallies 2 3 new_agent 10 "a" ≡ ok (first_answer, used_once)
unfolding check_rate_limit limits_of hash_of lookup decide entries prune zadd without reset_of least
    count
first_request = refl

check_rate_limit-quota_example :
    (get_current_usage 1 tallies 2 3 used_once 10 ≡ ok (1, 1))
    × (first_answer.remaining ≡ min_of (2 - 1) (3 - 1))
    × (true ≡ true → first_answer.remaining < 2)
unfolding limits_of hash_of lookup get_current_usage prune entries
check_rate_limit-quota_example =
    check_rate_limit-quota 1 tallies 2 3 new_agent used_once 10 "a" 2 3 0 0 first_answer
      (omega arith) (refl, refl, refl) refl tt tt refl first_request

abbrev requests : Zset
requests = (10, "a") ∷ (10, "b") ∷ (20, "c") ∷ (70, "d") ∷ []

admissions-Bounded_example :
    (all : Zset) × (admissions 1 tallies 2 3 new_agent [] requests ≡ ok all)
    × Bounded 60 2 all
    × Bounded 3600 3 all
unfolding limits_of hash_of lookup
admissions-Bounded_example =
    admissions-Bounded 1 tallies 2 3 2 3 missing requests refl refl (omega arith)
      (tt, ((refl, tt), ((refl, (refl, tt)), ((refl, (refl, (refl, tt))), tt))))

-- The request at 20 is denied, and the one at 70 finds the minute free again.
admitted_requests :
    admissions 1 tallies 2 3 new_agent [] requests ≡ ok ((70, "d") ∷ (10, "b") ∷ (10, "a") ∷ [])
unfolding admissions check_rate_limit limits_of hash_of lookup decide entries prune zadd without
    reset_of least count evict refill
admitted_requests = refl
