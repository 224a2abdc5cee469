-- ===== src/Gateway/RateLimit.antt =====
-- packages/mas-gateway/src/mas_gateway/rate_limit.py: the sliding windows of one agent, with the Lua
-- script that admits a request. Times are whole ticks, `second` of them to the second; brokers and
-- Redis read one clock.
pub mod Script
pub mod Windows
pub mod Quota
pub mod History
pub mod Limits
mod Examples
use mas_framework.Common.{
  ℕ, ◌+◌, ◌-◌, ◌*◌, ltb, leb, Bool, true, false, not, ◌&&◌, ◌||◌, ◌≡◌, Option, none, some, List, [],
  ◌∷◌, String, str_eq, if◌then◌else◌, length,
}
use mas_framework.Common.Dict.{Dict, lookup, insert}
use mas_framework.Common.Int.{ℤ, pos, negsuc}
use mas_framework.Common.Results.{Result, ok, err, ◌>>=◌, ◌>>◌, ensure, or_fail}

-- The entries of a sorted set: a score and a member.
abbrev pub Zset : Type 0
Zset = List (ℕ × String)

-- A Redis key of the expected type, with the time at which it expires if it does, or of another
-- type.
pub data Slot (A : Type 0) : Type 0 where
  missing foreign : Slot A
  holds : A → Option ℕ → Slot A

pub data Window : Type 0 where
  minute hour : Window

pub data Error : Type 0 where
  invalid_storage_type invalid_limits : Error

pub record RateLimitResult : Type 0 where
  pub allowed : Bool
  pub limit : ℕ
  pub remaining : ℕ
  pub reset_time : ℕ
  pub window : Window

-- The three keys of an agent.
pub record Agent : Type 0 where
  pub minute_key : Slot Zset
  pub hour_key : Slot Zset
  pub limits_key : Slot (Dict String)

abbrev pub new_agent : Agent
new_agent = record { minute_key = missing; hour_key = missing; limits_key = missing }

abbrev pub is_foreign : {A : Type 0} → Slot A → Bool
is_foreign foreign = true
is_foreign _ = false

-- What a command finds at a key: an expired or missing key reads as the empty sorted set.
pub entries : ℕ → Slot Zset → Zset
entries now (holds z none) = z
entries now (holds z (some deadline)) = if leb deadline now then [] else z
entries now _ = []

-- ZREMRANGEBYSCORE key -inf (now - window)
pub prune : ℕ → ℕ → Zset → Zset
prune window now [] = []
prune window now ((score, member) ∷ z) =
    let rest = prune window now z in
    if ltb now (score + window) then (score, member) ∷ rest else rest

-- What a sorted set holds besides a member.
pub without : String → Zset → Zset
without member [] = []
without member ((score, other) ∷ z) =
    let rest = without member z in if str_eq other member then rest else (score, other) ∷ rest

-- ZADD: a member that is there already gets the new score.
pub zadd : ℕ → String → Zset → Zset
zadd score member z = (score, member) ∷ without member z

-- The least score: that of the first entry by ZRANGE key 0 0.
pub least : ℕ → Zset → ℕ
least a [] = a
least a ((score, member) ∷ z) = least (if ltb score a then score else a) z

pub reset_of : ℕ → ℕ → Zset → ℕ
reset_of now window [] = now + window
reset_of now window ((score, member) ∷ z) = least score z + window

pub hash_of : Slot (Dict String) → Dict String
hash_of (holds h deadline) = h
hash_of _ = []

-- `tonumber` of a stored limit, where that is a nonnegative integer.
abbrev limit_or : (String → Option ℕ) → ℕ → Option String → Option ℕ
limit_or tonumber default none = some default
limit_or tonumber default (some text) = tonumber text

-- A limit that the caller gives is not negative.
abbrev pub fits : Option ℤ → Bool
fits (some (negsuc n)) = false
fits _ = true

abbrev pub no_field : Option ℤ → Bool
no_field none = true
no_field (some n) = false

-- A key after its entries were removed or added: an empty sorted set is no key.
pub refill : Slot Zset → Zset → Slot Zset
refill slot [] = missing
refill (holds old deadline) (e ∷ z) = holds (e ∷ z) deadline
refill _ z = missing

-- How limits are printed and read: Lua's `tonumber` and pydantic, where they find a nonnegative
-- integer, and Python's `str`. Both read back what `str` prints.
pub record Codec : Type 0 where
  pub print_limit : ℕ → String
  pub tonumber : String → Option ℕ
  pub parse_limit : String → Option ℕ
  pub tonumber-print : (n : ℕ) → tonumber (print_limit n) ≡ some n
  pub parse-print : (n : ℕ) → parse_limit (print_limit n) ≡ some n

module _ (second : ℕ) (codec : Codec) (default_minute default_hour : ℕ) where
  open codec use {print_limit, tonumber, parse_limit}

  pub limits_of : Agent → Option (ℕ × ℕ)
  unfolding hash_of
  limits_of a =
      elim (limit_or tonumber default_minute (lookup "per_minute" (hash_of a.limits_key))) [
        | none ↦ none
        | some per_minute ↦
            elim (limit_or tonumber default_hour (lookup "per_hour" (hash_of a.limits_key))) [
              | none ↦ none
              | some per_hour ↦ some (per_minute, per_hour)
            ]
      ]

  abbrev pub denied : Agent → ℕ → ℕ → Window → RateLimitResult × Agent
  denied a limit reset window = (
    record { allowed = false; limit = limit; remaining = 0; reset_time = reset; window = window },
    a,
  )

  -- The keys after ZREMRANGEBYSCORE.
  pub evict : Agent → Zset → Zset → Agent
  evict a in_minute in_hour = record a {
    minute_key = refill a.minute_key in_minute;
    hour_key = refill a.hour_key in_hour;
  }

  -- The keys after ZADD and EXPIRE.
  pub count : Agent → ℕ → Zset → Zset → Agent
  count a now new_minute new_hour = record a {
    minute_key = holds new_minute (some (now + 60 * second));
    hour_key = holds new_hour (some (now + 3600 * second));
  }

  -- The script below its checks, with what is left in both windows.
  pub decide : Agent → ℕ → String → ℕ → ℕ → Zset → Zset → RateLimitResult × Agent
  decide a now id per_minute per_hour in_minute in_hour =
      let pruned = evict a in_minute in_hour in
      let new_minute = zadd now id in_minute in
      let new_hour = zadd now id in_hour in
      let counted = count a now new_minute new_hour in
      let minute_left = per_minute - length in_minute - 1 in
      let hour_left = per_hour - length in_hour - 1 in
      if leb per_minute (length in_minute)
      then denied pruned per_minute (reset_of now (60 * second) in_minute) minute
      else if leb per_hour (length in_hour)
      then denied pruned per_hour (reset_of now (3600 * second) in_hour) hour
      else if ltb hour_left minute_left
      then (
        record {
          allowed = true;
          limit = per_hour;
          remaining = hour_left;
          reset_time = reset_of now (3600 * second) new_hour;
          window = hour;
        },
        counted,
      )
      else (
        record {
          allowed = true;
          limit = per_minute;
          remaining = minute_left;
          reset_time = reset_of now (60 * second) new_minute;
          window = minute;
        },
        counted,
      )

  pub check_rate_limit : Agent → ℕ → String → Result Error (RateLimitResult × Agent)
  check_rate_limit a now id =
      if is_foreign a.minute_key || is_foreign a.hour_key || is_foreign a.limits_key
      then err invalid_storage_type
      else elim (limits_of a) [
        | none ↦ err invalid_limits
        | some (per_minute, per_hour) ↦ ok (
            decide a now id per_minute per_hour (prune (60 * second) now (entries now a.minute_key))
              (prune (3600 * second) now (entries now a.hour_key)))
      ]

  -- The field that a given limit sets.
  pub put_limit : String → Option ℤ → Dict String → Dict String
  put_limit field (some (pos n)) h = insert field (print_limit n) h
  put_limit field _ h = h

  pub set_limits : Agent → Option ℤ → Option ℤ → Result Error Agent
  unfolding put_limit
  set_limits a per_minute per_hour = do
    ensure (fits per_minute && fits per_hour) invalid_limits
    if no_field per_minute && no_field per_hour then ok a else do
      ensure (not (is_foreign a.limits_key)) invalid_storage_type
      ok (record a {
        limits_key =
            holds
              (put_limit "per_hour" per_hour
                (put_limit "per_minute" per_minute (hash_of a.limits_key)))
              none;
      })

  pub get_limits : Agent → Result Error (ℕ × ℕ)
  get_limits a = do
    ensure (not (is_foreign a.limits_key)) invalid_storage_type
    per_minute ←
        or_fail (limit_or parse_limit default_minute (lookup "per_minute" (hash_of a.limits_key)))
          invalid_limits
    per_hour ←
        or_fail (limit_or parse_limit default_hour (lookup "per_hour" (hash_of a.limits_key)))
          invalid_limits
    ok (per_minute, per_hour)

  -- ZCOUNT key (now - window +inf, which removes nothing.
  pub get_current_usage : Agent → ℕ → Result Error (ℕ × ℕ)
  get_current_usage a now = do
    ensure (not (is_foreign a.minute_key || is_foreign a.hour_key)) invalid_storage_type
    ok (
      length (prune (60 * second) now (entries now a.minute_key)),
      length (prune (3600 * second) now (entries now a.hour_key)),
    )

pub reset_limits : Agent → Agent
reset_limits a = record a { minute_key = missing; hour_key = missing }
