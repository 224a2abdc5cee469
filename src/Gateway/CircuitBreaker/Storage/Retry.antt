-- ===== src/Gateway/CircuitBreaker/Storage/Retry.antt =====
-- The optimistic transaction under interference: no update of another client is lost.
use mas_framework.Common.{
  ℕ, ◌≡◌, refl, sym, ap, ◌∙◌, ◌⊎◌, inl, inr, true, List, [], ◌∷◌, Bool-cases,
}
use mas_framework.Common.Results.{ok}
use mas_framework.Gateway.CircuitBreaker.{Config, CircuitStatus, Event, transition, status_eq}
use mas_framework.Gateway.CircuitBreaker.Equality.{status_eq_iff}
use mas_framework.Gateway.CircuitBreaker.Storage.{
  Codec, Stored, status_from_data, persist, attempt, watch_loop,
}

-- The stored value is the one that the transaction first watches, or one that a client left.
abbrev pub Among : Stored → Stored → List (ℕ × Stored) → Type 0
Among x base [] = x ≡ base
Among x base ((now, other) ∷ rounds) = (x ≡ base) ⊎ Among x other rounds

-- What the key holds when the last client has disturbed the transaction.
abbrev pub latest : Stored → List (ℕ × Stored) → Stored
latest base [] = base
latest base ((now, other) ∷ rounds) = latest other rounds

module _ (codec : Codec) where
  abbrev pub Readable : Stored → Type 0
  Readable base = (s : CircuitStatus) × (status_from_data codec base.hash ≡ ok s)

  abbrev pub AllReadable : Stored → List (ℕ × Stored) → Type 0
  AllReadable base [] = Readable base
  AllReadable base ((now, other) ∷ rounds) = Readable base × AllReadable other rounds

  -- The event changed nothing in a status that the key held at some reading, and wrote nothing.
  abbrev pub Observed :
      Config → Event → Stored → List (ℕ × Stored) → CircuitStatus × CircuitStatus × Stored → Type 0
  Observed c e base rounds (checked, recorded, after) =
      (read : Stored) × (now : ℕ) × Among read base rounds
      × Among after base rounds
      × (status_from_data codec read.hash ≡ ok recorded)
      × (transition c now e recorded ≡ (checked, recorded))

  -- The event was applied to the latest status, and its outcome written over the latest hash.
  abbrev pub Committed :
      Config
      → ℕ
      → Event
      → ℕ
      → Stored
      → List (ℕ × Stored)
      → CircuitStatus × CircuitStatus × Stored
      → Type 0
  Committed c second e last base rounds (checked, recorded, after) =
      (s : CircuitStatus) × (status_from_data codec (latest base rounds).hash ≡ ok s)
      × (transition c last e s ≡ (checked, recorded))
      × (after ≡ persist codec c second (latest base rounds) recorded)

  pub attempt_lem :
      (c : Config) (second now : ℕ) (e : Event) (base : Stored) (s : CircuitStatus)
      → status_from_data codec base.hash ≡ ok s
      → attempt codec c second now e base
        ≡ ok (
          (transition c now e s).0,
          (transition c now e s).1,
          status_eq (transition c now e s).1 s,
        )
  unfolding attempt
  attempt_lem c second now e base s h = rw h

  unchanged :
      (c : Config) (now : ℕ) (e : Event) (base : Stored) (s : CircuitStatus)
      → status_from_data codec base.hash ≡ ok s
      → status_eq (transition c now e s).1 s ≡ true
      → (status_from_data codec base.hash ≡ ok (transition c now e s).1)
        × (transition c now e (transition c now e s).1 ≡ transition c now e s)
  unchanged c now e base s h same =
      let eq : (transition c now e s).1 ≡ s = (status_eq_iff (transition c now e s).1 s).0 same in
      (h ∙ ap ok (sym eq), ap (transition c now e) eq)

  later :
      (c : Config) (e : Event) (now : ℕ) (base other : Stored) (rounds : List (ℕ × Stored))
      (r : CircuitStatus × CircuitStatus × Stored)
      → Observed c e other rounds r
      → Observed c e base ((now, other) ∷ rounds) r
  later c e now base other rounds r (read, n, m, k, h, t) = (read, n, inr m, inr k, h, t)

  Among-refl : (base : Stored) (rounds : List (ℕ × Stored)) → Among base base rounds
  Among-refl base [] = refl
  Among-refl base (_ ∷ rounds) = inl refl

  -- However many clients disturb it, as long as what they leave can be read, the transaction ends
  -- with a result, and either has observed that there is nothing to record and left the key alone,
  -- or has applied the event to the latest status and recorded that.
  pub watch_loop-result :
      (c : Config) (second : ℕ) (e : Event) (rounds : List (ℕ × Stored)) (last : ℕ) (base : Stored)
      → AllReadable base rounds
      → (r : CircuitStatus × CircuitStatus × Stored) × (watch_loop codec c second e rounds last base
          ≡ ok r)
        × (Observed c e base rounds r ⊎ Committed c second e last base rounds r)
  unfolding watch_loop
  watch_loop-result c second e [] last base (s, h) =
      elim (Bool-cases (status_eq (transition c last e s).1 s)) [
        | inl same ↦ (
          (tr.0, tr.1, base),
          rw (attempt_lem c second last e base s h, same),
          inl (
            base,
            last,
            refl,
            refl,
            (unchanged c last e base s h same).0,
            (unchanged c last e base s h same).1,
          ),
        )
        | inr new ↦ (
          (tr.0, tr.1, persist codec c second base tr.1),
          rw (attempt_lem c second last e base s h, new),
          inr (s, h, refl, refl),
        )
      ]
    where
      tr : CircuitStatus × CircuitStatus
      tr = transition c last e s
  watch_loop-result c second e ((now, other) ∷ rounds) last base ((s, h), rest) =
      let (r, q, o) = watch_loop-result c second e rounds last other rest in
      elim (Bool-cases (status_eq (transition c now e s).1 s)) [
        | inl same ↦ (
          (tr.0, tr.1, other),
          rw (attempt_lem c second now e base s h, same),
          inl (
            base,
            now,
            inl refl,
            inr (Among-refl other rounds),
            (unchanged c now e base s h same).0,
            (unchanged c now e base s h same).1,
          ),
        )
        | inr new ↦ (
          r,
          rw (attempt_lem c second now e base s h, new, q),
          elim o [ inl seen ↦ inl (later c e now base other rounds r seen) | inr done ↦ inr done ],
        )
      ]
    where
      tr : CircuitStatus × CircuitStatus
      tr = transition c now e s
