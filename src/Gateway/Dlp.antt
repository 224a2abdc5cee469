-- ===== src/Gateway/Dlp.antt =====
-- packages/mas-gateway/src/mas_gateway/dlp.py: data-loss prevention. The regular expressions, the
-- text functions of Python and the serialisation of JSON are parameters.
pub mod Luhn
pub mod Redaction
pub mod Action
mod Examples
use mas_framework.Common.{
  ℕ, zero, suc, ◌+◌, ◌*◌, ◌-◌, ◌%◌, ◌==◌, ltb, leb, Bool, true, false, not, ◌||◌, Option, none,
  some, List, [], ◌∷◌, ◌++◌, map, String, str_eq, if◌then◌else◌,
}
pub use mas_framework.Core.Protocol.{
  Json, text, literal, array, object, Items, no_items, item, Fields, no_fields, field,
}
use mas_framework.Common.Dict.{Dict, lookup, insert}
use mas_framework.Common.Sets.{member, any_of}
use mas_framework.Common.Results.{Result, ok, err, ◌>>=◌, ◌>>◌, ensure}

pub data ActionPolicy : Type 0 where
  block redact alert : ActionPolicy

pub data Error : Type 0 where
  redaction_conflict invalid_merge_strategy : Error

pub record Violation : Type 0 where
  pub violation_type : String
  pub matched_text : String

unfoldable pub policy_eq : ActionPolicy → ActionPolicy → Bool
policy_eq block block = true
policy_eq redact redact = true
policy_eq alert alert = true
policy_eq _ _ = false

-- DEFAULT_POLICIES
abbrev pub default_policies : Dict ActionPolicy
default_policies =
    ("ssn", redact)
    ∷ ("email", alert)
    ∷ ("phone", alert)
    ∷ ("address", alert)
    ∷ ("mrn", block)
    ∷ ("health_insurance", block)
    ∷ ("icd10", alert)
    ∷ ("credit_card", block)
    ∷ ("cvv", block)
    ∷ ("api_key", block)
    ∷ ("aws_key", block)
    ∷ ("private_key", block)
    ∷ ("jwt", block)
    ∷ ("password", block)
    ∷ []

-- The rules of a configuration that bear on the policies.
pub record DlpRule : Type 0 where
  pub rule_type : String
  pub action : ActionPolicy
  pub enabled : Bool

pub drop_disabled : List String → Dict ActionPolicy → Dict ActionPolicy
drop_disabled disabled [] = []
drop_disabled disabled ((key, policy) ∷ rest) =
    let others = drop_disabled disabled rest in
    if member key disabled then others else (key, policy) ∷ others

pub add_rules : List DlpRule → Dict ActionPolicy → Dict ActionPolicy
add_rules [] policies = policies
add_rules (rule ∷ rest) policies =
    add_rules rest (if rule.enabled then insert rule.rule_type rule.action policies else policies)

pub add_policies : Dict ActionPolicy → Dict ActionPolicy → Dict ActionPolicy
add_policies [] policies = policies
add_policies ((key, policy) ∷ rest) policies = add_policies rest (insert key policy policies)

-- `__init__`: the policies.
pub make_policies :
    Dict ActionPolicy → List DlpRule → String → List String → Result Error (Dict ActionPolicy)
make_policies custom rules merge_strategy disabled = do
  ensure (str_eq merge_strategy "append" || str_eq merge_strategy "replace") invalid_merge_strategy
  let start =
        (if str_eq merge_strategy "append" then drop_disabled disabled default_policies else []) in
      ok (add_policies custom (add_rules rules start))

-- self.policies.get(violation_type) == policy
unfoldable pub applies : Option ActionPolicy → ActionPolicy → Bool
applies none policy = false
applies (some found) policy = policy_eq found policy

-- One turn of the loop over the priorities.
unfoldable pub has_policy : Dict ActionPolicy → ActionPolicy → List Violation → Bool
has_policy policies policy violations =
    any_of (λ v. applies (lookup v.violation_type policies) policy) violations

pub first_policy : Dict ActionPolicy → List ActionPolicy → List Violation → ActionPolicy
first_policy policies [] violations = alert
first_policy policies (policy ∷ rest) violations =
    let later = first_policy policies rest violations in
    if has_policy policies policy violations then policy else later

pub determine_action : Dict ActionPolicy → List Violation → ActionPolicy
determine_action policies [] = alert
determine_action policies (v ∷ vs) = first_policy policies (block ∷ redact ∷ alert ∷ []) (v ∷ vs)

-- The digit at a position from the right, the first of which is 1.
pub luhn_digit : ℕ → ℕ → ℕ
luhn_digit position digit =
    if position % 2 == 0 then (if ltb 9 (digit * 2) then digit * 2 - 9 else digit * 2) else digit

-- The loop of `_validate_luhn` over the digits from right to left.
pub checksum : ℕ → List ℕ → ℕ
checksum position [] = 0
checksum position (digit ∷ rest) = luhn_digit position digit + checksum (suc position) rest

pub reverse_onto : List ℕ → List ℕ → List ℕ
reverse_onto done [] = done
reverse_onto done (digit ∷ rest) = reverse_onto (digit ∷ done) rest

-- The digits of a number, where `isdigit` holds of each of its characters: `digit_of` is `int` on a
-- character that is a digit, and none on any other.
pub digits_of : (ℕ → Option ℕ) → List ℕ → Option (List ℕ)
digits_of digit_of [] = some []
digits_of digit_of (c ∷ rest) = elim (digit_of c) [
  | none ↦ none
  | some d ↦ elim (digits_of digit_of rest) [ none ↦ none | some ds ↦ some (d ∷ ds) ]
]

-- `isdigit` does not hold of the empty text.
pub validate_luhn : (ℕ → Option ℕ) → List ℕ → Bool
validate_luhn digit_of [] = false
validate_luhn digit_of (c ∷ rest) = elim (digits_of digit_of (c ∷ rest)) [
  | none ↦ false
  | some digits ↦ checksum 1 (reverse_onto [] digits) % 10 == 0
]

-- Redaction, with `redact_text` for the replacements in a text.
module _ (redact_text : String → String) where
  mutual
    pub redact_recursive : Json → Result Error Json
    redact_recursive (text t) = ok (text (redact_text t))
    redact_recursive (literal t) =
        ok (if str_eq t (redact_text t) then literal t else text (redact_text t))
    redact_recursive (array items) = redact_items items >>= λ r. ok (array r)
    redact_recursive (object fields) = redact_object [] fields >>= λ r. ok (object r)

    pub redact_items : Items → Result Error Items
    redact_items no_items = ok no_items
    redact_items (item value rest) =
        redact_recursive value >>= λ v. redact_items rest >>= λ r. ok (item v r)

    -- `seen` has the keys that are already in the redacted object.
    pub redact_object : List String → Fields → Result Error Fields
    redact_object seen no_fields = ok no_fields
    redact_object seen (field key value rest) =
        ensure (not (member (redact_text key) seen)) redaction_conflict
        >> redact_recursive value
        >>= λ v.
            redact_object (redact_text key ∷ seen) rest >>= λ r. ok (field (redact_text key) v r)

-- The violations that replacements are made for.
pub redactable : Dict ActionPolicy → List Violation → List Violation
redactable policies [] = []
redactable policies (v ∷ vs) =
    let others = redactable policies vs in
    if applies (lookup v.violation_type policies) redact then v ∷ others else others

pub record ScanResult : Type 0 where
  pub clean : Bool
  pub action : ActionPolicy
  pub redacted_payload : Option Fields

-- `scan`, with the violations that the patterns find in the payload, and the replacements that the
-- masks make for some of them.
pub scan :
    Dict ActionPolicy → (List Violation → String → String) → List Violation → Fields → ScanResult
scan policies redact_with [] payload = record {
  clean = true;
  action = alert;
  redacted_payload = none;
}
scan policies redact_with (v ∷ vs) payload =
    let action = determine_action policies (v ∷ vs) in
    if policy_eq action redact
    then elim (redact_object (redact_with (redactable policies (v ∷ vs))) [] payload) [
      | err e ↦ record { clean = false; action = block; redacted_payload = none }
      | ok p ↦ record { clean = false; action = action; redacted_payload = some p }
    ]
    else record { clean = false; action = action; redacted_payload = none }
