-- ===== src/Gateway/RateLimit/Limits.antt =====
-- Custom limits: what is written is read back, by the module and by the script.
use mas_framework.Common.{
  ℕ, ◌≡◌, refl, ◌⊎◌, true, false, ◌&&◌, Option, none, some, String, arith, if◌then◌else◌,
}
use mas_framework.Common.Int.{ℤ, pos, negsuc}
use mas_framework.Common.Dict.{Dict, lookup, lookup-insert}
use mas_framework.Common.Results.{ok, err}
use mas_framework.Gateway.RateLimit.{
  holds, invalid_limits, Agent, Codec, limits_of, hash_of, set_limits, get_limits, put_limit,
  no_field, fits,
}

module _ (second : ℕ) (codec : Codec) (default_minute default_hour : ℕ) where
  abbrev pub given : Option ℤ → ℕ → ℕ
  given (some (pos n)) old = n
  given _ old = old

  abbrev text_of : Option ℤ → Option String → Option String
  text_of (some (pos n)) old = some (codec.print_limit n)
  text_of _ old = old

  abbrev updated : Option ℤ → Option ℤ → Dict String → Dict String
  updated per_minute per_hour raw =
      put_limit second codec default_minute default_hour "per_hour" per_hour
        (put_limit second codec default_minute default_hour "per_minute" per_minute raw)

  lookup-updated :
      (x y : Option ℤ) (raw : Dict String)
      → (lookup "per_minute" (updated x y raw) ≡ text_of x (lookup "per_minute" raw))
        × (lookup "per_hour" (updated x y raw) ≡ text_of y (lookup "per_hour" raw))
  unfolding put_limit
  lookup-updated none none raw = (refl, refl)
  lookup-updated none (some (pos n)) raw = (simp lookup-insert, simp lookup-insert)
  lookup-updated none (some (negsuc n)) raw = (refl, refl)
  lookup-updated (some (pos k)) none raw = (simp lookup-insert, simp lookup-insert)
  lookup-updated (some (pos k)) (some (pos n)) raw = (simp lookup-insert, simp lookup-insert)
  lookup-updated (some (pos k)) (some (negsuc n)) raw = (simp lookup-insert, simp lookup-insert)
  lookup-updated (some (negsuc k)) none raw = (refl, refl)
  lookup-updated (some (negsuc k)) (some (pos n)) raw = (simp lookup-insert, simp lookup-insert)
  lookup-updated (some (negsuc k)) (some (negsuc n)) raw = (refl, refl)

  abbrev pub Reads : Agent → ℕ → ℕ → Type 0
  Reads a m h =
      (get_limits second codec default_minute default_hour a ≡ ok (m, h))
      × (limits_of second codec default_minute default_hour a ≡ some (m, h))

  after_update : Agent → Option ℤ → Option ℤ → Agent
  after_update a x y =
      if no_field x && no_field y
      then a
      else record a { limits_key = holds (updated x y (hash_of a.limits_key)) none }

  Reads-update :
      (a : Agent) (x y : Option ℤ) (m h : ℕ)
      → Reads a m h
      → fits x ≡ true
      → fits y ≡ true
      → Reads (after_update a x y) (given x m) (given y h)
  unfolding get_limits limits_of after_update hash_of
  Reads-update a none none m h r p q = r
  Reads-update a none (some (pos n)) m h r p q = ground (
    arith,
    lookup-updated none (some (pos n)) (hash_of a.limits_key),
    codec.tonumber-print n,
    codec.parse-print n,
  )
  Reads-update a none (some (negsuc n)) m h r p q = cc
  Reads-update a (some (pos k)) none m h r p q = ground (
    arith,
    lookup-updated (some (pos k)) none (hash_of a.limits_key),
    codec.tonumber-print k,
    codec.parse-print k,
  )
  Reads-update a (some (pos k)) (some (pos n)) m h r p q = ground (
    arith,
    lookup-updated (some (pos k)) (some (pos n)) (hash_of a.limits_key),
    codec.tonumber-print k,
    codec.parse-print k,
    codec.tonumber-print n,
    codec.parse-print n,
  )
  Reads-update a (some (pos k)) (some (negsuc n)) m h r p q = cc
  Reads-update a (some (negsuc k)) y m h r p q = cc

  -- An update of the limits by nonnegative values succeeds, sets exactly the limits that it gives,
  -- as the module reads them and as the script reads them, and leaves the counters alone.
  pub set_limits-get_limits :
      (a : Agent) (x y : Option ℤ) (m h : ℕ)
      → Reads a m h
      → fits x ≡ true
      → fits y ≡ true
      → (after : Agent) × (set_limits second codec default_minute default_hour a x y ≡ ok after)
        × Reads after (given x m) (given y h)
        × (after.minute_key ≡ a.minute_key)
        × (after.hour_key ≡ a.hour_key)
  set_limits-get_limits a x y m h r p q = (
    after_update a x y,
    unfold set_limits get_limits after_update in ground (arith, r.0),
    Reads-update a x y m h r p q,
    unfold after_update in ground arith,
    unfold after_update in ground arith,
  )

  -- An update that gives a negative value fails, whatever is stored.
  pub set_limits-invalid :
      (a : Agent) (x y : Option ℤ)
      → (fits x ≡ false) ⊎ (fits y ≡ false)
      → set_limits second codec default_minute default_hour a x y ≡ err invalid_limits
  unfolding set_limits
  set_limits-invalid a x y h = ground arith
