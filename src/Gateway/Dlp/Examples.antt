-- ===== src/Gateway/Dlp/Examples.antt =====
-- The theorems on data-loss prevention at concrete payloads, and tests of its definitions.
use mas_framework.Common.{
  ℕ, ◌-◌, ◌%◌, ◌&&◌, ◌≡◌, ◌≢◌, ◌↔◌, leb, List, refl, ◌⊎◌, true, false, Option, none, some, [], ◌∷◌,
  map, String, str_eq, arith, if◌then◌else◌,
}
use mas_framework.Common.Dict.{Dict, lookup, insert}
use mas_framework.Common.Sets.{member, any_of}
use mas_framework.Common.Results.{Result, ok, err}
use mas_framework.Gateway.Dlp.{
  ActionPolicy, block, redact, alert, Error, Violation, policy_eq, default_policies, drop_disabled,
  add_rules, add_policies, make_policies, applies, has_policy, first_policy, determine_action,
  luhn_digit, checksum, reverse_onto, digits_of, validate_luhn, Json, text, literal, object, Fields,
  no_fields, field, redact_recursive, redact_object, redactable, scan,
}
use mas_framework.Gateway.Dlp.Luhn.{luhn_sum, validate_luhn-rule}
use mas_framework.Gateway.Dlp.Action.{scan-redacts}
use mas_framework.Gateway.Dlp.Redaction.{
  keys_of, Fresh, redact_object-keys, redact_recursive-Separate, Separate,
}

abbrev ssn : Violation
ssn = record { violation_type = "ssn"; matched_text = "078-05-1120" }

abbrev cvv : Violation
cvv = record { violation_type = "cvv"; matched_text = "CVV: 123" }

-- The replacement of one social security number.
abbrev hide : String → String
hide t = if str_eq t "078-05-1120" then "XXX-XX-1120" else t

abbrev payload : Fields
payload = field "to" (text "desk") (field "id" (text "078-05-1120") no_fields)

abbrev hidden : Fields
hidden = field "to" (text "desk") (field "id" (text "XXX-XX-1120") no_fields)

abbrev colliding : Fields
colliding = field "078-05-1120" (literal "1") (field "XXX-XX-1120" (literal "2") no_fields)

-- `int` on the ASCII digits.
abbrev digit : ℕ → Option ℕ
digit c = if leb 48 c && leb c 57 then some (c - 48) else none

-- 4539 1488 0343 6467
abbrev card : List ℕ
card = 52 ∷ 53 ∷ 51 ∷ 57 ∷ 49 ∷ 52 ∷ 56 ∷ 56 ∷ 48 ∷ 51 ∷ 52 ∷ 51 ∷ 54 ∷ 52 ∷ 54 ∷ 55 ∷ []

valid_card : validate_luhn digit card ≡ true
unfolding validate_luhn digits_of checksum reverse_onto luhn_digit
valid_card = refl

empty_card : validate_luhn digit [] ≡ false
unfolding validate_luhn
empty_card = refl

card_with_a_letter : validate_luhn digit (48 ∷ 97 ∷ []) ≡ false
unfolding validate_luhn digits_of
card_with_a_letter = refl

blocked_first : determine_action default_policies (ssn ∷ cvv ∷ []) ≡ block
unfolding determine_action first_policy has_policy any_of applies policy_eq lookup
blocked_first = refl

abbrev policy_of : String → Result Error (Dict ActionPolicy) → Option ActionPolicy
policy_of key (ok policies) = lookup key policies
policy_of key (err e) = none

custom_policy_wins :
    policy_of "ssn" (make_policies (("ssn", alert) ∷ []) [] "append" ("cvv" ∷ [])) ≡ some alert
unfolding make_policies drop_disabled add_rules add_policies insert lookup member
custom_policy_wins = refl

disabled_default_gone : policy_of "cvv" (make_policies [] [] "append" ("cvv" ∷ [])) ≡ none
unfolding make_policies drop_disabled add_rules add_policies insert lookup member
disabled_default_gone = refl

redacted_payload :
    (scan default_policies (λ vs. hide) (ssn ∷ []) payload).redacted_payload ≡ some hidden
unfolding scan determine_action first_policy has_policy any_of applies policy_eq lookup redactable
    redact_object redact_recursive member
redacted_payload = refl

collision_blocks : (scan default_policies (λ vs. hide) (ssn ∷ []) colliding).action ≡ block
unfolding scan determine_action first_policy has_policy any_of applies policy_eq lookup redactable
    redact_object redact_recursive member
collision_blocks = refl

validate_luhn-rule_example :
    (validate_luhn digit card ≡ true)
    ↔ ((card ≢ []) × ((ds : List ℕ) × (map digit card ≡ map some ds) × (luhn_sum ds % 10 ≡ 0)))
validate_luhn-rule_example = validate_luhn-rule digit card (λ c d h. ground arith)

scan-redacts_example :
    let r = scan default_policies (λ vs. hide) (ssn ∷ []) payload in
    (has_policy default_policies block (ssn ∷ []) ≡ true → r.action ≡ block)
    × (has_policy default_policies redact (ssn ∷ []) ≡ true
        → (r.action ≡ block)
          ⊎ ((p : Fields) × (r.redacted_payload ≡ some p)
              × (r.action ≡ redact)
              × (redact_object hide [] payload ≡ ok p)
              × (keys_of p ≡ map hide (keys_of payload))))
scan-redacts_example = scan-redacts default_policies (λ vs. hide) (ssn ∷ []) payload

redact_object-keys_example :
    (keys_of hidden ≡ map hide (keys_of payload)) × Fresh [] (keys_of hidden)
unfolding redact_object redact_recursive member
redact_object-keys_example = redact_object-keys hide [] payload hidden refl

redact_recursive-Separate_example :
    ((r : Json) × (redact_recursive hide (object colliding) ≡ ok r))
    ↔ Separate hide (object colliding)
redact_recursive-Separate_example = redact_recursive-Separate hide (object colliding)
