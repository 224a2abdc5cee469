-- ===== src/Gateway/Dlp/Action.antt =====
-- The action that a scan decides on.
use mas_framework.Common.{
  ℕ, ◌≤◌, ◌≡◌, refl, ◌⊎◌, inl, inr, true, false, Option, none, some, List, [], ◌∷◌, String, arith,
  All, map,
}
use mas_framework.Common.Dict.{Dict, lookup}
use mas_framework.Common.Sets.{any_of}
use mas_framework.Common.Results.{ok, Result-cases}
use mas_framework.Gateway.Dlp.Redaction.{keys_of, redact_object-keys}
use mas_framework.Gateway.Dlp.{
  ActionPolicy, block, redact, alert, Violation, policy_eq, applies, has_policy, first_policy,
  determine_action, redactable, Fields, redact_object, scan,
}

-- How restrictive a policy is.
abbrev pub rank : ActionPolicy → ℕ
rank block = 2
rank redact = 1
rank alert = 0

abbrev pub rank_of : Option ActionPolicy → ℕ
rank_of none = 0
rank_of (some policy) = rank policy

applies-rank :
    (o : Option ActionPolicy) (action : ActionPolicy)
    → (rank action ≤ 1 → applies o block ≡ false)
    → (rank action ≤ 0 → applies o redact ≡ false)
    → rank_of o ≤ rank action
unfolding applies policy_eq
applies-rank none action no_block no_redact = omega arith
applies-rank (some alert) action no_block no_redact = omega arith
applies-rank (some block) block no_block no_redact = omega arith
applies-rank (some block) redact no_block no_redact =
    absurd (ground (arith, no_block (omega arith)))
applies-rank (some block) alert no_block no_redact = absurd (ground (arith, no_block (omega arith)))
applies-rank (some redact) block no_block no_redact = omega arith
applies-rank (some redact) redact no_block no_redact = omega arith
applies-rank (some redact) alert no_block no_redact =
    absurd (ground (arith, no_redact (omega arith)))

bounded :
    (policies : Dict ActionPolicy) (action : ActionPolicy) (violations : List Violation)
    → (rank action ≤ 1 → has_policy policies block violations ≡ false)
    → (rank action ≤ 0 → has_policy policies redact violations ≡ false)
    → All (λ v. rank_of (lookup v.violation_type policies) ≤ rank action) violations
unfolding has_policy any_of
bounded policies action [] no_block no_redact = tt
bounded policies action (v ∷ vs) no_block no_redact = (
  applies-rank (lookup v.violation_type policies) action (λ l. ground (arith, no_block l))
      (λ l. ground (arith, no_redact l)),
  bounded policies action vs (λ l. ground (arith, no_block l)) (λ l. ground (arith, no_redact l)),
)

-- What the loop over the priorities finds.
determine_action-cases :
    (policies : Dict ActionPolicy) (v : Violation) (vs : List Violation)
    → let action = determine_action policies (v ∷ vs) in
      ((action ≡ block) × (has_policy policies block (v ∷ vs) ≡ true))
      ⊎ ((action ≡ redact)
          × (has_policy policies block (v ∷ vs) ≡ false)
          × (has_policy policies redact (v ∷ vs) ≡ true))
      ⊎ ((action ≡ alert)
          × (has_policy policies block (v ∷ vs) ≡ false)
          × (has_policy policies redact (v ∷ vs) ≡ false))
unfolding determine_action first_policy
determine_action-cases policies v vs = ground arith

most_restrictive :
    (policies : Dict ActionPolicy) (v : Violation) (vs : List Violation)
    → let action = determine_action policies (v ∷ vs) in
      All (λ w. rank_of (lookup w.violation_type policies) ≤ rank action) (v ∷ vs)
      × ((action ≡ alert) ⊎ (has_policy policies action (v ∷ vs) ≡ true))
most_restrictive policies v vs = elim (determine_action-cases policies v vs) [
  | inl (e, found) ↦ (
    bounded policies _ (v ∷ vs) (λ l. absurd (ground (arith, e))) (λ l. absurd (ground (arith, e))),
    inr (rw e found),
  )
  | inr (inl (e, no_block, found)) ↦ (
    bounded policies _ (v ∷ vs) (λ l. no_block) (λ l. absurd (ground (arith, e))),
    inr (rw e found),
  )
  | inr (inr (e, no_block, no_redact)) ↦
      (bounded policies _ (v ∷ vs) (λ l. no_block) (λ l. no_redact), inl e)
]

-- No violation has a more restrictive policy than the action, which is an alert or the policy of
-- some violation.
pub determine_action-most_restrictive :
    (policies : Dict ActionPolicy) (violations : List Violation)
    → All
        (λ v.
          rank_of (lookup v.violation_type policies) ≤ rank (determine_action policies violations))
        violations
      × ((determine_action policies violations ≡ alert)
          ⊎ (has_policy policies (determine_action policies violations) violations ≡ true))
unfolding determine_action
determine_action-most_restrictive policies [] = (tt, inl refl)
determine_action-most_restrictive policies (v ∷ vs) = most_restrictive policies v vs

scan_found :
    (policies : Dict ActionPolicy) (redact_with : List Violation → String → String) (v : Violation)
    (vs : List Violation) (payload : Fields)
    → let violations = v ∷ vs in
      let r = scan policies redact_with violations payload in
      (has_policy policies block violations ≡ true → r.action ≡ block)
      × (has_policy policies redact violations ≡ true
          → (r.action ≡ block)
            ⊎ ((p : Fields) × (r.redacted_payload ≡ some p)
                × (r.action ≡ redact)
                × (redact_object (redact_with (redactable policies violations)) [] payload ≡ ok p)))
unfolding scan policy_eq
scan_found policies redact_with v vs payload = elim (determine_action-cases policies v vs) [
  | inl (e, found) ↦ rw e (λ h. refl, λ h. inl refl)
  | inr (inl (e, no_block, found)) ↦
      elim (Result-cases (redact_object (redact_with (redactable policies (v ∷ vs))) [] payload)) [
        | inl (p, f) ↦ rw (e, f) (λ h. absurd (ground arith), λ h. inr (p, refl, e, refl))
        | inr (x, f) ↦ rw (e, f) (λ h. refl, λ h. inl refl)
      ]
  | inr (inr (e, no_block, no_redact)) ↦ (λ h. absurd (ground arith), λ h. absurd (ground arith))
]

-- A scan blocks a payload that has a violation to block, and one that has a violation to redact it
-- either blocks or delivers as its redaction, which has the redaction of every key, in order.
pub scan-redacts :
    (policies : Dict ActionPolicy) (redact_with : List Violation → String → String)
    (violations : List Violation) (payload : Fields)
    → let r = scan policies redact_with violations payload in
      (has_policy policies block violations ≡ true → r.action ≡ block)
      × (has_policy policies redact violations ≡ true
          → (r.action ≡ block)
            ⊎ ((p : Fields) × (r.redacted_payload ≡ some p)
                × (r.action ≡ redact)
                × (redact_object (redact_with (redactable policies violations)) [] payload ≡ ok p)
                × (keys_of p
                    ≡ map (redact_with (redactable policies violations)) (keys_of payload))))
unfolding scan has_policy any_of
scan-redacts policies redact_with [] payload =
    (λ h. absurd (ground arith), λ h. absurd (ground arith))
scan-redacts policies redact_with (v ∷ vs) payload =
    let (blocks, redacts) = scan_found policies redact_with v vs payload in
    (
      blocks,
      λ h. elim (redacts h) [
        | inl b ↦ inl b
        | inr (p, q, e, f) ↦ inr (
          p,
          q,
          e,
          f,
          (redact_object-keys (redact_with (redactable policies (v ∷ vs))) [] payload p f).0,
        )
      ],
    )

-- A violation that has a policy is one, so that the payload is not clean.
pub scan-unclean :
    (policies : Dict ActionPolicy) (redact_with : List Violation → String → String)
    (policy : ActionPolicy) (violations : List Violation) (payload : Fields)
    → has_policy policies policy violations ≡ true
    → (scan policies redact_with violations payload).clean ≡ false
unfolding has_policy any_of scan
scan-unclean policies redact_with policy [] payload h = absurd (ground arith)
scan-unclean policies redact_with policy (v ∷ vs) payload h = ground arith
