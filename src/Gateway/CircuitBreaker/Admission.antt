-- ===== src/Gateway/CircuitBreaker/Admission.antt =====
-- Whom the circuit admits: the timeout of an open circuit, and repeated checks.
use mas_framework.Common.{
  ℕ, ◌+◌, ◌<◌, ◌≡◌, ◌↔◌, inl, inr, false, some, List, [], ◌∷◌, arith, All, Option-cases,
}
use mas_framework.Gateway.CircuitBreaker.{
  open_, Config, IsConfig, CircuitStatus, Event, check, success, failure, transition, run,
}
use mas_framework.Gateway.CircuitBreaker.Invariant.{IsValid, transition-IsValid}

-- The circuit has been open since `t`.
abbrev pub OpenSince : ℕ → CircuitStatus → Type 0
OpenSince t s = (s.state ≡ open_) × (s.opened_at ≡ some t)

-- An event is denied admission exactly when the circuit is open and its timeout has not passed.
pub transition-denied :
    (c : Config) (now : ℕ) (e : Event) (s : CircuitStatus)
    → IsValid c s
    → ((transition c now e s).0.allowed ≡ false) ↔ ((t : ℕ) × OpenSince t s × (now < t + c.timeout))
unfolding transition
transition-denied c now e s v = (denied, λ h. ground arith)
  where
    denied :
        (transition c now e s).0.allowed ≡ false → (t : ℕ) × OpenSince t s × (now < t + c.timeout)
    denied h = elim (Option-cases s.opened_at) [
      | inl q ↦ absurd (ground arith)
      | inr (t, q) ↦ (t, ground arith, ground arith)
    ]

pub still_open :
    (c : Config) (now t : ℕ) (e : Event) (s : CircuitStatus)
    → IsValid c s
    → OpenSince t s
    → now < t + c.timeout
    → OpenSince t (transition c now e s).1
unfolding transition
still_open c now t check s v o h = ground arith
still_open c now t success s v o h = ground arith
still_open c now t failure s v o h = ground arith

-- Every reading of the clock comes before the time.
abbrev pub Before : ℕ → List (ℕ × Event) → Type 0
Before limit = All (λ (now, e). now < limit)

-- While its timeout has not passed, an open circuit stays open since the same time, whatever
-- events are recorded, and denies the event that follows them.
pub run-OpenSince :
    (c : Config) (t now : ℕ) (es : List (ℕ × Event)) (e : Event) (s : CircuitStatus)
    → IsConfig c
    → IsValid c s
    → OpenSince t s
    → Before (t + c.timeout) es
    → now < t + c.timeout
    → OpenSince t (run c s es) × ((transition c now e (run c s es)).0.allowed ≡ false)
unfolding run
run-OpenSince c t now [] e s k v o b h = (o, (transition-denied c now e s v).1 (t, o, h))
run-OpenSince c t now ((n, d) ∷ rest) e s k v o b h =
    run-OpenSince c t now rest e (transition c n d s).1 k (transition-IsValid c n d s k v).1
      (still_open c n t d s v o b.0) b.1 h

-- A check after a check at the same time observes and records what the first one recorded.
pub transition_idem :
    (c : Config) (now : ℕ) (s : CircuitStatus)
    → IsConfig c
    → let r = (transition c now check s).1 in transition c now check r ≡ (r, r)
unfolding transition
transition_idem c now s k = ground arith
