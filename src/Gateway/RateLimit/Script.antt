-- ===== src/Gateway/RateLimit/Script.antt =====
-- Whom the script admits, and what it answers.
use mas_framework.Common.{
  ℕ, ◌*◌, ◌<◌, ◌≡◌, refl, ◌↔◌, true, false, some, String, str_eq, [], ◌∷◌, arith, length,
}
use mas_framework.Common.Results.{ok}
use mas_framework.Gateway.RateLimit.{
  Zset, RateLimitResult, Agent, is_foreign, entries, prune, without, Codec, limits_of, decide,
  check_rate_limit, get_current_usage,
}

-- No member of the sorted set is the text.
abbrev pub NotIn : String → Zset → Type 0
NotIn id [] = Unit {0}
NotIn id ((score, member) ∷ z) = (str_eq member id ≡ false) × NotIn id z

pub without_of_NotIn : (id : String) (z : Zset) → NotIn id z → without id z ≡ z
unfolding without
without_of_NotIn id [] h = refl
without_of_NotIn id ((score, member) ∷ z) h = ground (arith, without_of_NotIn id z h.1)

pub prune-NotIn :
    (window now : ℕ) (id : String) (z : Zset) → NotIn id z → NotIn id (prune window now z)
unfolding prune
prune-NotIn window now id [] h = tt
prune-NotIn window now id ((score, member) ∷ z) h = ground (arith, prune-NotIn window now id z h.1)

pub prune_idem :
    (window now : ℕ) (z : Zset) → prune window now (prune window now z) ≡ prune window now z
unfolding prune
prune_idem window now [] = refl
prune_idem window now ((score, member) ∷ z) = ground (arith, prune_idem window now z)

module _ (second : ℕ) (codec : Codec) (default_minute default_hour : ℕ) where
  abbrev usage : Agent → ℕ → ℕ × ℕ
  usage a now = (
    length (prune (60 * second) now (entries now a.minute_key)),
    length (prune (3600 * second) now (entries now a.hour_key)),
  )

  -- All three keys have the types that the script expects.
  abbrev pub HasTypes : Agent → Type 0
  HasTypes a =
      (is_foreign a.minute_key ≡ false)
      × (is_foreign a.hour_key ≡ false)
      × (is_foreign a.limits_key ≡ false)

  pub check_lem :
      (a : Agent) (now : ℕ) (id : String) (pm ph : ℕ)
      → HasTypes a
      → limits_of second codec default_minute default_hour a ≡ some (pm, ph)
      → check_rate_limit second codec default_minute default_hour a now id
        ≡ ok (
            decide second codec default_minute default_hour a now id pm ph
              (prune (60 * second) now (entries now a.minute_key))
              (prune (3600 * second) now (entries now a.hour_key)))
  unfolding check_rate_limit
  check_lem a now id pm ph t h = rw (t.0, t.1, t.2, h)

  -- Where the keys have their types and the limits can be read, the script answers, and it admits
  -- the request exactly when the current usage is below both limits.
  pub check_rate_limit-admits :
      (a : Agent) (now : ℕ) (id : String) (pm ph um uh : ℕ)
      → HasTypes a
      → limits_of second codec default_minute default_hour a ≡ some (pm, ph)
      → get_current_usage second codec default_minute default_hour a now ≡ ok (um, uh)
      → (r : RateLimitResult) × (after : Agent) × (check_rate_limit second codec default_minute
            default_hour a now id
          ≡ ok (r, after))
        × ((r.allowed ≡ true) ↔ ((um < pm) × (uh < ph)))
  unfolding get_current_usage decide
  check_rate_limit-admits a now id pm ph um uh t h u =
      let d =
        decide second codec default_minute default_hour a now id pm ph
          (prune (60 * second) now (entries now a.minute_key))
          (prune (3600 * second) now (entries now a.hour_key)) in
      (d.0, d.1, check_lem a now id pm ph t h, (λ q. ground arith, λ q. ground arith))
