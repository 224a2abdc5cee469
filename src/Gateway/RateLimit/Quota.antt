-- ===== src/Gateway/RateLimit/Quota.antt =====
-- The quota that an answer reports, against the usage before and after it.
use native.Mathlib.Nat.{le_refl}
use mas_framework.Common.{
  ℕ, ◌+◌, ◌-◌, ◌*◌, ◌<◌, ◌≡◌, true, some, String, arith, ltb, length, if◌then◌else◌,
}
use mas_framework.Common.Results.{ok}
use mas_framework.Gateway.RateLimit.{
  Zset, Slot, holds, RateLimitResult, Agent, entries, prune, zadd, Codec, limits_of, evict, count,
  decide, check_rate_limit, get_current_usage,
}
use mas_framework.Gateway.RateLimit.Script.{
  NotIn, without_of_NotIn, prune_idem, check_lem, HasTypes,
}
use mas_framework.Gateway.RateLimit.Windows.{entries-refill, refill-types}

length-zadd :
    (w now : ℕ) (id : String) (z : Zset)
    → 0 < w
    → NotIn id (prune w now z)
    → length (prune w now (zadd now id (prune w now z))) ≡ 1 + length (prune w now z)
unfolding prune zadd
length-zadd w now id z h f =
    ground (arith, without_of_NotIn id (prune w now z) f, prune_idem w now z)

abbrev pub min_of : ℕ → ℕ → ℕ
min_of a b = if ltb b a then b else a

-- What an admission leaves of the window, and what a denial leaves.
length-counted :
    (w now : ℕ) (id : String) (slot : Slot Zset)
    → 0 < w
    → NotIn id (prune w now (entries now slot))
    → length (
        prune w now
          (entries now (holds (zadd now id (prune w now (entries now slot))) (some (now + w)))))
      ≡ 1 + length (prune w now (entries now slot))
unfolding entries
length-counted w now id slot h f = ground (arith, length-zadd w now id (entries now slot) h f)

module _ (second : ℕ) (codec : Codec) (default_minute default_hour : ℕ) where
  -- An admission uses one more place in both windows, and reports what is then left in the window
  -- that has less; a denial changes no usage and reports that nothing is left.
  pub check_rate_limit-quota :
      (a after : Agent) (now : ℕ) (id : String) (pm ph um uh : ℕ) (r : RateLimitResult)
      → 0 < second
      → HasTypes second codec default_minute default_hour a
      → limits_of second codec default_minute default_hour a ≡ some (pm, ph)
      → NotIn id (prune (60 * second) now (entries now a.minute_key))
      → NotIn id (prune (3600 * second) now (entries now a.hour_key))
      → get_current_usage second codec default_minute default_hour a now ≡ ok (um, uh)
      → check_rate_limit second codec default_minute default_hour a now id ≡ ok (r, after)
      → get_current_usage second codec default_minute default_hour after now
          ≡ ok (if r.allowed then (um + 1, uh + 1) else (um, uh))
        × (r.remaining ≡ (if r.allowed then min_of (pm - (um + 1)) (ph - (uh + 1)) else 0))
        × (r.allowed ≡ true → r.remaining < r.limit)
  unfolding get_current_usage decide evict count
  check_rate_limit-quota a after now id pm ph um uh r s t l fm fh u e = ground (
    arith,
    t.0,
    t.1,
    u,
    e,
    check_lem second codec default_minute default_hour a now id pm ph t l,
    length-counted (60 * second) now id a.minute_key (omega arith) fm,
    length-counted (3600 * second) now id a.hour_key (omega arith) fh,
    entries-refill (60 * second) now now a.minute_key (le_refl now),
    entries-refill (3600 * second) now now a.hour_key (le_refl now),
    refill-types a.minute_key (prune (60 * second) now (entries now a.minute_key)),
    refill-types a.hour_key (prune (3600 * second) now (entries now a.hour_key)),
  )
