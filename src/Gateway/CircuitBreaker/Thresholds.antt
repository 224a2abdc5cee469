-- ===== src/Gateway/CircuitBreaker/Thresholds.antt =====
-- How many failures open a circuit, and how many successes close it again.
use mas_framework.Common.{
  ℕ, ◌+◌, ◌≤◌, ◌<◌, ◌≡◌, true, false, some, List, [], ◌∷◌, map, length, arith,
}
use mas_framework.Gateway.CircuitBreaker.{
  closed, open_, half_open, Config, IsConfig, CircuitStatus, Event, success, failure, transition,
  run, default_status,
}

abbrev pub failures : List ℕ → List (ℕ × Event)
failures = map (λ now. (now, failure))

abbrev pub successes : List ℕ → List (ℕ × Event)
successes = map (λ now. (now, success))

-- Each time is at most the window after the one before it.
abbrev pub Dense : ℕ → ℕ → List ℕ → Type 0
Dense window last [] = Unit
Dense window last (t ∷ ts) = (t ≤ last + window) × Dense window t ts

abbrev pub final : ℕ → List ℕ → ℕ
final t [] = t
final t (u ∷ us) = final u us

-- The circuit is closed after `n` counted failures, the last of them at `t`.
abbrev pub FailedAt : ℕ → ℕ → CircuitStatus → Type 0
FailedAt n t s = (s.state ≡ closed) × (s.failure_count ≡ n) × (s.last_failure_time ≡ some t)

failure_below :
    (c : Config) (n t now : ℕ) (s : CircuitStatus)
    → FailedAt n t s
    → now ≤ t + c.window
    → n + 1 < c.failure_threshold
    → FailedAt (n + 1) now (transition c now failure s).1
unfolding transition
failure_below c n t now s f w h = ground arith

failure_reaches :
    (c : Config) (n t now : ℕ) (s : CircuitStatus)
    → FailedAt n t s
    → now ≤ t + c.window
    → n + 1 ≡ c.failure_threshold
    → let r = (transition c now failure s).1 in
      (r.state ≡ open_) × (r.opened_at ≡ some now) × (r.failure_count ≡ n + 1) × (r.allowed ≡ false)
unfolding transition
failure_reaches c n t now s f w h = ground arith

run_below :
    (c : Config) (n t : ℕ) (ts : List ℕ) (s : CircuitStatus)
    → FailedAt n t s
    → Dense c.window t ts
    → n + length ts < c.failure_threshold
    → FailedAt (n + length ts) (final t ts) (run c s (failures ts))
unfolding run
run_below c n t [] s f d h = ground arith
run_below c n t (u ∷ us) s f d h =
    ground
      (arith, failure_below c n t u s f d.0, run_below c (n + 1) u us (transition c u failure s).1)

-- The circuit opened at the last of `n` counted failures.
abbrev pub OpenedAt : ℕ → ℕ → CircuitStatus → Type 0
OpenedAt n t s =
    (s.state ≡ open_) × (s.opened_at ≡ some t) × (s.failure_count ≡ n) × (s.allowed ≡ false)

run_reaches :
    (c : Config) (n t : ℕ) (ts : List ℕ) (s : CircuitStatus)
    → FailedAt n t s
    → n < c.failure_threshold
    → Dense c.window t ts
    → n + length ts ≡ c.failure_threshold
    → OpenedAt c.failure_threshold (final t ts) (run c s (failures ts))
unfolding run
run_reaches c n t [] s f l d h = absurd (omega arith)
run_reaches c n t (u ∷ []) s f l d h = ground (arith, failure_reaches c n t u s f d.0)
run_reaches c n t (u ∷ v ∷ us) s f l d h =
    run_reaches c (n + 1) u (v ∷ us) (transition c u failure s).1
      (failure_below c n t u s f d.0 (omega arith)) (omega arith) d.1 (omega arith)

-- A new circuit whose failures each come within the window of the one before counts them all: it
-- is still closed while they are fewer than the threshold, and the failure that reaches the
-- threshold opens it.
pub run-failures :
    (c : Config) (t : ℕ) (ts : List ℕ)
    → IsConfig c
    → Dense c.window t ts
    → let r = run c default_status (failures (t ∷ ts)) in
      (1 + length ts < c.failure_threshold → FailedAt (1 + length ts) (final t ts) r)
      × (1 + length ts ≡ c.failure_threshold → OpenedAt c.failure_threshold (final t ts) r)
unfolding run transition
run-failures c t ts k d = (
  λ h. run_below c 1 t ts (transition c t failure default_status).1 (ground arith) d h,
  opens ts d,
)
  where
    opens :
        (us : List ℕ)
        → Dense c.window t us
        → 1 + length us ≡ c.failure_threshold
        → OpenedAt c.failure_threshold (final t us) (run c default_status (failures (t ∷ us)))
    opens [] e h = ground arith
    opens (u ∷ us) e h =
        run_reaches c 1 t (u ∷ us) (transition c t failure default_status).1 (ground arith)
          (omega arith) e h

-- Each time is more than the window after the one before it.
abbrev pub Spaced : ℕ → ℕ → List ℕ → Type 0
Spaced window last [] = Unit
Spaced window last (t ∷ ts) = (last + window < t) × Spaced window t ts

run_sparse :
    (c : Config) (t : ℕ) (ts : List ℕ) (s : CircuitStatus)
    → 1 < c.failure_threshold
    → FailedAt 1 t s
    → Spaced c.window t ts
    → FailedAt 1 (final t ts) (run c s (failures ts))
unfolding run transition
run_sparse c t [] s h f d = f
run_sparse c t (u ∷ us) s h f d =
    run_sparse c u us (transition c u failure s).1 h (ground arith) d.1

-- Failures that are each more than the window apart never open a new circuit whose threshold is
-- above one: only the last of them is counted.
pub run-sparse_failures :
    (c : Config) (t : ℕ) (ts : List ℕ)
    → 1 < c.failure_threshold
    → Spaced c.window t ts
    → FailedAt 1 (final t ts) (run c default_status (failures (t ∷ ts)))
unfolding run transition
run-sparse_failures c t ts h d =
    run_sparse c t ts (transition c t failure default_status).1 h (ground arith) d

-- The circuit admits probes, `n` of which have succeeded.
abbrev pub Probing : ℕ → CircuitStatus → Type 0
Probing n s = (s.state ≡ half_open) × (s.success_count ≡ n) × (s.allowed ≡ true)

probe_below :
    (c : Config) (n now : ℕ) (s : CircuitStatus)
    → Probing n s
    → n + 1 < c.success_threshold
    → Probing (n + 1) (transition c now success s).1
unfolding transition
probe_below c n now s p h = ground arith

probe_reaches :
    (c : Config) (n now : ℕ) (s : CircuitStatus)
    → Probing n s
    → n + 1 ≡ c.success_threshold
    → (transition c now success s).1 ≡ default_status
unfolding transition
probe_reaches c n now s p h = ground arith

-- A half-open circuit counts the deliveries that succeed, and is reset to the status of a new
-- circuit by the one that reaches the success threshold.
pub run-successes :
    (c : Config) (n : ℕ) (ts : List ℕ) (s : CircuitStatus)
    → Probing n s
    → n < c.success_threshold
    → let r = run c s (successes ts) in
      (n + length ts < c.success_threshold → Probing (n + length ts) r)
      × (n + length ts ≡ c.success_threshold → r ≡ default_status)
unfolding run
run-successes c n [] s p l = (λ h. ground arith, λ h. absurd (omega arith))
run-successes c n (t ∷ []) s p l =
    (λ h. ground (arith, probe_below c n t s p), λ h. probe_reaches c n t s p (omega arith))
run-successes c n (t ∷ u ∷ us) s p l = (
  λ h. ground (
    arith,
    (run-successes c (n + 1) (u ∷ us) (transition c t success s).1
        (probe_below c n t s p (omega arith)) (omega arith)).0,
  ),
  λ h.
      (run-successes c (n + 1) (u ∷ us) (transition c t success s).1
          (probe_below c n t s p (omega arith)) (omega arith)).1
        (omega arith),
)

-- A failed probe opens a half-open circuit again, from the time of the failure.
pub transition-probe_failure :
    (c : Config) (n now : ℕ) (s : CircuitStatus)
    → Probing n s
    → let r = (transition c now failure s).1 in
      (r.state ≡ open_) × (r.opened_at ≡ some now) × (r.success_count ≡ 0) × (r.allowed ≡ false)
unfolding transition
transition-probe_failure c n now s p = ground arith
