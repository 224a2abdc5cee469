-- ===== src/Gateway/CircuitBreaker/Equality.antt =====
-- The equality test of statuses decides equality.
use mas_framework.Common.{◌≡◌, ◌↔◌, true, arith}
use mas_framework.Gateway.CircuitBreaker.{CircuitState, CircuitStatus, state_eq, status_eq}

state_eq_iff : (a b : CircuitState) → (state_eq a b ≡ true) ↔ (a ≡ b)
unfolding state_eq
state_eq_iff a b = (λ h. ground arith, λ h. ground arith)

pub status_eq_iff : (s t : CircuitStatus) → (status_eq s t ≡ true) ↔ (s ≡ t)
unfolding status_eq
status_eq_iff s t = (λ h. ground (arith), λ h. ground arith)
