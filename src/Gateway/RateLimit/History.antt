-- ===== src/Gateway/RateLimit/History.antt =====
-- Any sequence of requests of one agent: no window ever holds more admissions than its limit.
use mas_framework.Common.{
  ℕ, ◌*◌, ◌≤◌, ◌<◌, ◌≡◌, refl, ap, ◌⊎◌, inl, inr, true, false, some, String, [], ◌∷◌, arith, length,
  if◌then◌else◌,
}
use mas_framework.Common.Dict.{Dict}
use mas_framework.Common.Results.{Result, ok, ◌>>=◌}
use mas_framework.Gateway.RateLimit.{
  Zset, Slot, Error, RateLimitResult, Agent, new_agent, is_foreign, entries, prune, zadd, Codec,
  limits_of, evict, count, decide, check_rate_limit,
}
use mas_framework.Gateway.RateLimit.Script.{NotIn, check_lem, HasTypes}
use mas_framework.Gateway.RateLimit.Windows.{
  UpTo, UpTo-mono, Tracks, Tracks-refill, Tracks-zadd, refill-types,
}

-- The clock does not run backwards from `last` over the requests.
abbrev pub Rising : ℕ → Zset → Type 0
Rising last [] = Unit
Rising last ((now, id) ∷ calls) = (last ≤ now) × Rising now calls

-- No request has the identity of an earlier one.
abbrev pub Fresh : Zset → Zset → Type 0
Fresh seen [] = Unit
Fresh seen ((now, id) ∷ calls) = NotIn id seen × Fresh ((now, id) ∷ seen) calls

-- At the time of each admission, newest first, at most `limit` admissions lie in the window.
abbrev pub Bounded : ℕ → ℕ → Zset → Type 0
Bounded window limit [] = Unit
Bounded window limit ((now, id) ∷ earlier) =
    (length (prune window now ((now, id) ∷ earlier)) ≤ limit) × Bounded window limit earlier

counted :
    (w now limit : ℕ) (id : String) (z admitted : Zset)
    → z ≡ prune w now admitted
    → length z < limit
    → length (prune w now ((now, id) ∷ admitted)) ≤ limit
unfolding prune
counted w now limit id z admitted e h = ground (arith, ap length e)

module _ (second : ℕ) (codec : Codec) (default_minute default_hour : ℕ) where
  -- The admissions that requests add to a history, newest first.
  unfoldable pub admissions : Agent → Zset → Zset → Result Error Zset
  admissions a admitted [] = ok admitted
  admissions a admitted ((now, id) ∷ calls) = do
    (r, after) ← check_rate_limit second codec default_minute default_hour a now id
    admissions after (if r.allowed then (now, id) ∷ admitted else admitted) calls

  module _ (pm ph : ℕ) where
    record Inv (last : ℕ) (a : Agent) (admitted : Zset) : Type 0 where
      in_minute : Tracks (60 * second) last a.minute_key admitted
      in_hour : Tracks (3600 * second) last a.hour_key admitted
      past : UpTo last admitted
      minutes : Bounded (60 * second) pm admitted
      hours : Bounded (3600 * second) ph admitted
      types : HasTypes second codec default_minute default_hour a
      limits : limits_of second codec default_minute default_hour a ≡ some (pm, ph)

    abbrev minute_of : Agent → ℕ → Zset
    minute_of a now = prune (60 * second) now (entries now a.minute_key)

    abbrev hour_of : Agent → ℕ → Zset
    hour_of a now = prune (3600 * second) now (entries now a.hour_key)

    abbrev decision : Agent → ℕ → String → RateLimitResult × Agent
    decision a now id =
        decide second codec default_minute default_hour a now id pm ph (minute_of a now)
          (hour_of a now)

    abbrev Denied : Agent → ℕ → RateLimitResult × Agent → Type 0
    Denied a now (r, after) =
        (r.allowed ≡ false)
        × (after
            ≡ evict second codec default_minute default_hour a (minute_of a now) (hour_of a now))

    abbrev Admitted : Agent → ℕ → String → RateLimitResult × Agent → Type 0
    Admitted a now id (r, after) =
        (r.allowed ≡ true)
        × (after
            ≡ count second codec default_minute default_hour a now (zadd now id (minute_of a now))
                (zadd now id (hour_of a now)))
        × (length (minute_of a now) < pm)
        × (length (hour_of a now) < ph)

    decision_cases :
        (a : Agent) (now : ℕ) (id : String)
        → Denied a now (decision a now id) ⊎ Admitted a now id (decision a now id)
    unfolding decide
    decision_cases a now id = ground arith

    evict-Inv :
        (last now : ℕ) (a : Agent) (admitted : Zset)
        → last ≤ now
        → Inv last a admitted
        → Inv now
            (evict second codec default_minute default_hour a (minute_of a now) (hour_of a now))
            admitted
    unfolding evict limits_of
    evict-Inv last now a admitted h v = record {
      in_minute = Tracks-refill (60 * second) last now a.minute_key admitted h v.in_minute;
      in_hour = Tracks-refill (3600 * second) last now a.hour_key admitted h v.in_hour;
      past = UpTo-mono last now admitted h v.past;
      minutes = v.minutes;
      hours = v.hours;
      types = (refill-types a.minute_key _, refill-types a.hour_key _, v.types.2);
      limits = v.limits;
    }

    count-Inv :
        (last now : ℕ) (id : String) (a : Agent) (admitted : Zset)
        → last ≤ now
        → NotIn id admitted
        → length (minute_of a now) < pm
        → length (hour_of a now) < ph
        → Inv last a admitted
        → Inv now
            (count second codec default_minute default_hour a now
              (zadd now id (minute_of a now))
              (zadd now id (hour_of a now)))
            ((now, id) ∷ admitted)
    unfolding count limits_of
    count-Inv last now id a admitted h f m k v = record {
      in_minute =
          Tracks-zadd (60 * second) last now id a.minute_key admitted h v.past f v.in_minute;
      in_hour = Tracks-zadd (3600 * second) last now id a.hour_key admitted h v.past f v.in_hour;
      past = (omega arith, UpTo-mono last now admitted h v.past);
      minutes = (
        counted (60 * second) now pm id (minute_of a now) admitted (v.in_minute now h) m,
        v.minutes,
      );
      hours =
          (counted (3600 * second) now ph id (hour_of a now) admitted (v.in_hour now h) k, v.hours);
      types = (refl, refl, v.types.2);
      limits = v.limits;
    }

    answer :
        {last : ℕ} {a : Agent} {admitted : Zset} (now : ℕ) (id : String)
        → Inv last a admitted
        → check_rate_limit second codec default_minute default_hour a now id
          ≡ ok (decision a now id)
    answer {a = a} now id v =
        check_lem second codec default_minute default_hour a now id pm ph v.types v.limits

    admissions-Inv :
        (last : ℕ) (a : Agent) (admitted seen calls : Zset)
        → Inv last a admitted
        → ((id : String) → NotIn id seen → NotIn id admitted)
        → Rising last calls
        → Fresh seen calls
        → (all : Zset) × (admissions a admitted calls ≡ ok all)
          × Bounded (60 * second) pm all
          × Bounded (3600 * second) ph all
    unfolding admissions
    admissions-Inv last a admitted seen [] v f r d = (admitted, refl, v.minutes, v.hours)
    admissions-Inv last a admitted seen ((now, id) ∷ calls) v f r d =
        elim (decision_cases a now id) [
          | inl (n, e) ↦
              let (all, q, bm, bh) =
                admissions-Inv now
                  (evict second codec default_minute default_hour a (minute_of a now)
                    (hour_of a now))
                  admitted ((now, id) ∷ seen) calls (evict-Inv last now a admitted r.0 v)
                  (λ x g. f x g.1) r.1 d.1 in
              (all, ground (arith, answer now id v, q), bm, bh)
          | inr (y, e, m, k) ↦
              let (all, q, bm, bh) =
                admissions-Inv now
                  (count second codec default_minute default_hour a now
                    (zadd now id (minute_of a now)) (zadd now id (hour_of a now)))
                  ((now, id) ∷ admitted) ((now, id) ∷ seen) calls
                  (count-Inv last now id a admitted r.0 (f id d.0) m k v) (λ x g. (g.0, f x g.1))
                  r.1 d.1 in
              (all, ground (arith, answer now id v, q), bm, bh)
        ]

    -- Whatever requests an agent makes, with fresh identities and a clock that does not run
    -- backwards, the script answers each; and when it admits a request, at most the agent's
    -- per-minute limit have been admitted in the last minute, that request included, and at most
    -- its per-hour limit in the last hour.
    pub admissions-Bounded :
        (limits : Slot (Dict String)) (calls : Zset)
        → is_foreign limits ≡ false
        → limits_of second codec default_minute default_hour
            (record new_agent { limits_key = limits })
          ≡ some (pm, ph)
        → Rising 0 calls
        → Fresh [] calls
        → (all : Zset) × (admissions (record new_agent { limits_key = limits }) [] calls ≡ ok all)
          × Bounded (60 * second) pm all
          × Bounded (3600 * second) ph all
    admissions-Bounded limits calls k l r d =
        admissions-Inv 0 (record new_agent { limits_key = limits }) [] [] calls
          (record {
            in_minute = λ n h. unfold entries in refl;
            in_hour = λ n h. unfold entries in refl;
            past = tt;
            minutes = tt;
            hours = tt;
            types = (refl, refl, k);
            limits = l;
          })
          (λ id h. tt) r d
