-- ===== src/Core/Durability/Confirmation.antt =====
-- A write counts as durable exactly where enough acknowledgements were counted.
use mas_framework.Common.{
  ℕ, ◌≤◌, ◌<◌, ◌≡◌, refl, inl, inr, ◌↔◌, ◌⊎◌, true, false, List, [], ◌∷◌, ◌++◌, arith,
}
use mas_framework.Common.Int.{ℤ, pos, negsuc}
use mas_framework.Common.Results.{Result, ok, err, Result-cases}
use mas_framework.Core.Durability.{
  Settings, Error, Reply, integer, integers, other, enabled, at_least, validate_confirmation,
  confirm, split_last, confirmed_responses, execute, complete, configured_durability_unconfirmed,
}

abbrev pub Covers : ℤ → ℕ → Type 0
Covers (pos n) k = k ≤ n
Covers (negsuc n) k = ⊥

-- The reply counts the acknowledgements that the settings ask for.
abbrev pub Acknowledges : Settings → Reply → Type 0
Acknowledges s (integer n) = (s.wait_for_aof ≡ false) × Covers n s.replica_count
Acknowledges s (integers (local ∷ n ∷ [])) =
    (s.wait_for_aof ≡ true) × Covers local 1 × Covers n s.replica_count
Acknowledges s _ = ⊥

at_least_iff : (n : ℤ) (k : ℕ) → (at_least n k ≡ true) ↔ Covers n k
unfolding at_least
at_least_iff (pos n) k = (λ h. ground arith, λ h. ground arith)
at_least_iff (negsuc n) k = (λ h. ground arith, λ h. ground arith)

validate_confirmation_iff :
    (s : Settings) (r : Reply) → (validate_confirmation s r ≡ ok tt) ↔ Acknowledges s r
unfolding validate_confirmation
validate_confirmation_iff s (integer n) = (
  λ h. ground (arith, at_least_iff n s.replica_count),
  λ h. ground (arith, at_least_iff n s.replica_count),
)
validate_confirmation_iff s (integers []) = (λ h. ground arith, λ h. ground arith)
validate_confirmation_iff s (integers (a ∷ [])) = (λ h. ground arith, λ h. ground arith)
validate_confirmation_iff s (integers (a ∷ b ∷ [])) = (
  λ h. ground (arith, at_least_iff a 1, at_least_iff b s.replica_count),
  λ h. ground (arith, at_least_iff a 1, at_least_iff b s.replica_count),
)
validate_confirmation_iff s (integers (a ∷ b ∷ c ∷ rest)) = (λ h. ground arith, λ h. ground arith)
validate_confirmation_iff s other = (λ h. ground arith, λ h. ground arith)

-- Where confirmation is enabled.
pub confirm_iff :
    (s : Settings) (answer : Result Error Reply)
    → enabled s ≡ true
    → (confirm s answer ≡ ok tt) ↔ ((r : Reply) × (answer ≡ ok r) × Acknowledges s r)
unfolding confirm
confirm_iff s (ok r) on = (
  λ h. (r, refl, (validate_confirmation_iff s r).0 (ground arith)),
  λ h.
      let (x, e, a) = h in
      let v : validate_confirmation s x ≡ ok tt = (validate_confirmation_iff s x).1 a in
      ground arith,
)
confirm_iff s (err e) on = (λ h. absurd (ground arith), λ h. absurd (ground arith))

split_last-append :
    (r : Reply) (rest : List Reply) (last : Reply)
    → split_last r (rest ++ last ∷ []) ≡ (r ∷ rest, last)
unfolding split_last
split_last-append r [] last = refl
split_last-append r (x ∷ rest) last = ground (arith, split_last-append x rest last)

-- Where confirmation is enabled and Redis answers the commands of a pipeline and the confirmation
-- after them: the answers to the commands are returned exactly if the confirmation acknowledges
-- enough, and whenever they are not returned the error is that the durability is not confirmed.
pub execute_confirms :
    (s : Settings) (commands : ℕ) (r : Reply) (rest : List Reply) (last : Reply)
    → enabled s ≡ true
    → 0 < commands
    → let result = execute s false commands (ok (r ∷ rest ++ last ∷ [])) in
      ((result ≡ ok (r ∷ rest)) ↔ Acknowledges s last)
      × ((result ≡ ok (r ∷ rest)) ⊎ (result ≡ err configured_durability_unconfirmed))
unfolding execute complete confirmed_responses
execute_confirms s commands r rest last on some_commands =
    let e = split_last-append r rest last in
    let iff = validate_confirmation_iff s last in
    elim (Result-cases (validate_confirmation s last)) [
      | inl (tt, v) ↦ ((λ h. iff.0 v, λ a. ground arith), inl (ground arith))
      | inr (x, v) ↦
          ((λ h. absurd (ground arith), λ a. absurd (ground (arith, iff.1 a))), inr (ground arith))
    ]
