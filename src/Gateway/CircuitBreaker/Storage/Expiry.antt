-- ===== src/Gateway/CircuitBreaker/Storage/Expiry.antt =====
-- The expiry of a circuit's key against the timeout of an open circuit.
use mas_framework.Common.{
  ℕ, ◌+◌, ◌*◌, ◌≤◌, ◌<◌, ◌≡◌, refl, inl, inr, false, none, some, List, [], ◌∷◌, arith, Bool-cases,
  leb,
}
use mas_framework.Common.Results.{ok}
use mas_framework.Gateway.CircuitBreaker.{
  Config, IsConfig, CircuitStatus, Event, check, success, failure, transition, status_eq,
}
use mas_framework.Gateway.CircuitBreaker.Invariant.{
  IsValid, transition-IsValid, default_status-IsValid,
}
use mas_framework.Gateway.CircuitBreaker.Admission.{
  OpenSince, Before, transition-denied, still_open,
}
use mas_framework.Gateway.CircuitBreaker.Storage.{Codec, Stored, missing, status_from_data, expiry}
use mas_framework.Gateway.CircuitBreaker.Storage.Refinement.{
  Circuit, status_of, kept, recorded_at, run_kept, InOrder, life, serve, Stands, serve-Stands,
  Stands-Holds,
}

-- The circuit is valid at a time, and was recorded after it opened and not later than the time.
abbrev Sound : Config → ℕ → Circuit → Type 0
Sound c now none = Unit
Sound c now (some (s, written)) =
    IsValid c s × (written ≤ now) × ((t : ℕ) → OpenSince t s → t ≤ written)

Sound-IsValid :
    (c : Config) (now : ℕ) (m : Circuit) → IsConfig c → Sound c now m → IsValid c (status_of m)
Sound-IsValid c now none k h = default_status-IsValid c k
Sound-IsValid c now (some (s, written)) k h = h.0

Sound-opened :
    (c : Config) (now t : ℕ) (m : Circuit) → Sound c now m → OpenSince t (status_of m) → t ≤ now
Sound-opened c now t none h o = absurd (ground arith)
Sound-opened c now t (some (s, written)) h o = omega (arith, h.1, h.2 t o)

kept-Sound :
    (c : Config) (life before now : ℕ) (m : Circuit)
    → before ≤ now
    → Sound c before m
    → Sound c now (kept life now m)
unfolding kept
kept-Sound c life before now none l h = tt
kept-Sound c life before now (some (s, written)) l (v, w, o) =
    elim (Bool-cases (leb (written + life) now)) [
      | inl over ↦ rw (over) tt
      | inr alive ↦ rw (alive) (v, omega arith, o)
    ]

opened_by :
    (c : Config) (now t : ℕ) (e : Event) (s : CircuitStatus)
    → ((u : ℕ) → OpenSince u s → u ≤ now)
    → OpenSince t (transition c now e s).1
    → t ≤ now
unfolding transition
opened_by c now t check s o h = ground (arith, o t)
opened_by c now t success s o h = ground (arith, o t)
opened_by c now t failure s o h = ground (arith, o t)

recorded_at-Sound :
    (c : Config) (life before now : ℕ) (e : Event) (m : Circuit)
    → IsConfig c
    → before ≤ now
    → Sound c before m
    → Sound c now (recorded_at c life now e m)
unfolding recorded_at
recorded_at-Sound c life before now e m k l h =
    let alive = kept life now m in
    let sound : Sound c now alive = kept-Sound c life before now m l h in
    let s = status_of alive in
    elim (Bool-cases (status_eq (transition c now e s).1 s)) [
      | inl same ↦ rw (same) sound
      | inr new ↦ rw (new) (
        (transition-IsValid c now e s k (Sound-IsValid c now alive k sound)).1,
        omega arith,
        λ t. opened_by c now t e s (λ u. Sound-opened c now u alive sound),
      )
    ]

run_kept-Sound :
    (c : Config) (life before last : ℕ) (m : Circuit) (es : List (ℕ × Event))
    → IsConfig c
    → InOrder before es last
    → Sound c before m
    → Sound c last (kept life last (run_kept c life m es))
unfolding run_kept
run_kept-Sound c life before last m [] k order h = kept-Sound c life before last m order h
run_kept-Sound c life before last m ((now, e) ∷ rest) k (l, order) h =
    run_kept-Sound c life now last (recorded_at c life now e m) rest k order
      (recorded_at-Sound c life before now e m k l h)

-- While its timeout has not passed, an open circuit is not forgotten.
open-kept :
    (c : Config) (life before now t : ℕ) (m : Circuit)
    → c.timeout * 2 ≤ life
    → Sound c before m
    → OpenSince t (status_of m)
    → now < t + c.timeout
    → before ≤ now
    → kept life now m ≡ m
unfolding kept
open-kept c life before now t none long h o soon l = refl
open-kept c life before now t (some (s, written)) long (v, w, opened) o soon l =
    let since : t ≤ written = opened t o in ground arith

recorded_at-OpenSince :
    (c : Config) (life before now t : ℕ) (e : Event) (m : Circuit)
    → IsConfig c
    → c.timeout * 2 ≤ life
    → before ≤ now
    → Sound c before m
    → OpenSince t (status_of m)
    → now < t + c.timeout
    → OpenSince t (status_of (recorded_at c life now e m))
unfolding recorded_at
recorded_at-OpenSince c life before now t e m k long l h o soon =
    let same_circuit = open-kept c life before now t m long h o soon l in
    let v = Sound-IsValid c before m k h in
    elim (Bool-cases (status_eq (transition c now e (status_of m)).1 (status_of m))) [
      | inl same ↦ rw (same_circuit, same) o
      | inr new ↦ rw (same_circuit, new) (still_open c now t e (status_of m) v o soon)
    ]

run_kept-OpenSince :
    (c : Config) (life before now t : ℕ) (m : Circuit) (es : List (ℕ × Event))
    → IsConfig c
    → c.timeout * 2 ≤ life
    → InOrder before es now
    → Before (t + c.timeout) es
    → now < t + c.timeout
    → Sound c before m
    → OpenSince t (status_of m)
    → OpenSince t (status_of (kept life now (run_kept c life m es)))
unfolding run_kept
run_kept-OpenSince c life before now t m [] k long order b soon h o =
    rw (open-kept c life before now t m long h o soon order) o
run_kept-OpenSince c life before now t m ((n, e) ∷ rest) k long (l, order) (b, later) soon h o =
    run_kept-OpenSince c life n now t (recorded_at c life n e m) rest k long order later soon
      (recorded_at-Sound c life before n e m k l h)
      (recorded_at-OpenSince c life before n t e m k long l h o b)

module _ (codec : Codec) (c : Config) (second : ℕ) where
  life-long : 0 < second → c.timeout * 2 ≤ life codec c second
  unfolding expiry
  life-long positive = ground arith

  -- Where a second is at least one tick and the configuration is within its bounds: whatever
  -- events were applied in the order of their times to a key that did not exist, if the key is
  -- then read as open since `t`, it is still so after any further events, in order, before the
  -- timeout has passed since `t`, and a check is denied then: the expiry of the key does not
  -- shorten the timeout.
  pub serve-OpenSince :
      (before last now t : ℕ) (es later : List (ℕ × Event)) (mid : Stored) (s : CircuitStatus)
      → 0 < second
      → IsConfig c
      → InOrder before es last
      → serve codec c second before missing es last ≡ ok mid
      → status_from_data codec mid.hash ≡ ok s
      → OpenSince t s
      → InOrder last later now
      → Before (t + c.timeout) later
      → now < t + c.timeout
      → (after : Stored) × (s' : CircuitStatus) × (serve codec c second last mid later now
          ≡ ok after)
        × (status_from_data codec after.hash ≡ ok s')
        × OpenSince t s'
        × ((transition c now check s').0.allowed ≡ false)
  serve-OpenSince before last now t es later mid s positive k order served read open_then order'
        soon at =
      let m = kept (life codec c second) last (run_kept c (life codec c second) none es) in
      let (mid', q, stands) = serve-Stands codec c second before last missing none es order refl in
      let same : mid ≡ mid' = ground (arith, served, q) in
      let held : Stands codec c second last mid m = rw (same) stands in
      let sound = run_kept-Sound c (life codec c second) before last none es k order tt in
      let same_status : s ≡ status_of m =
        (let r = (Stands-Holds codec c second last mid m held).reads in ground (arith, read, r)) in
      let o : OpenSince t (status_of m) = rw (← same_status) open_then in
      let m' = kept (life codec c second) now (run_kept c (life codec c second) m later) in
      let (after, p, held') = serve-Stands codec c second last now mid m later order' held in
      let sound' = run_kept-Sound c (life codec c second) last now m later k order' sound in
      let o' =
        run_kept-OpenSince c (life codec c second) last now t m later k (life-long positive) order'
          soon at sound o in
      (
        after,
        status_of m',
        p,
        (Stands-Holds codec c second now after m' held').reads,
        o',
        (transition-denied c now check (status_of m') (Sound-IsValid c now m' k sound')).1
            (t, o', at),
      )
