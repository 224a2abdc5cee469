-- ===== src/Gateway/Dlp/Redaction.antt =====
-- The fields of redacted objects, and where redaction fails.
use mas_framework.Common.{
  ◌≡◌, ◌↔◌, refl, ap, inl, inr, true, false, List, [], ◌∷◌, String, str_eq, str_eq_iff, arith,
  if◌then◌else◌, map, Bool-cases,
}
use mas_framework.Common.Sets.{member, Distinct}
use mas_framework.Common.Results.{ok, Result-cases}
use mas_framework.Gateway.Dlp.{
  Json, text, literal, array, object, Items, no_items, item, Fields, no_fields, field,
  redact_recursive, redact_items, redact_object,
}

pub keys_of : Fields → List String
keys_of no_fields = []
keys_of (field key value rest) = key ∷ keys_of rest

-- Keys that are new, and each only once.
abbrev pub Fresh : List String → List String → Type 0
Fresh seen [] = Unit
Fresh seen (key ∷ rest) = (member key seen ≡ false) × Fresh (key ∷ seen) rest

Fresh-apart :
    (keys seen : List String) (x : String)
    → Fresh seen keys
    → member x keys ≡ true
    → member x seen ≡ false
unfolding member
Fresh-apart [] seen x h m = absurd (ground arith)
Fresh-apart (k ∷ keys) seen x (new, fresh) m = elim (Bool-cases (str_eq k x)) [
  | inl e ↦ let q : k ≡ x = (str_eq_iff k x).0 e in rw (← q) new
  | inr n ↦ let apart = Fresh-apart keys (k ∷ seen) x fresh (ground arith) in ground arith
]

-- Keys that are new, and each only once, are distinct.
Fresh-Distinct : (keys seen : List String) → Fresh seen keys → Distinct keys
Fresh-Distinct [] seen h = tt
Fresh-Distinct (k ∷ keys) seen (new, fresh) = (
  elim (Bool-cases (member k keys)) [
    | inl there ↦
        let apart = Fresh-apart keys (k ∷ seen) k fresh there in
        absurd (unfold member in ground (arith, str_eq_iff k k))
    | inr gone ↦ gone
  ],
  Fresh-Distinct keys (k ∷ seen) fresh,
)

Distinct-Fresh_seen :
    (keys seen : List String)
    → Distinct keys
    → ((x : String) → member x keys ≡ true → member x seen ≡ false)
    → Fresh seen keys
Distinct-Fresh_seen [] seen h apart = tt
Distinct-Fresh_seen (k ∷ keys) seen (once, h) apart = (
  apart k (unfold member in ground (arith, str_eq_iff k k)),
  Distinct-Fresh_seen keys (k ∷ seen) h (λ x m. elim (Bool-cases (str_eq k x)) [
    | inl e ↦
        let q : k ≡ x = (str_eq_iff k x).0 e in
        let there : member k keys ≡ true = rw (q) m in absurd (ground arith)
    | inr n ↦ let new = apart x (unfold member in ground arith) in unfold member in ground arith
  ]),
)

Distinct-Fresh : (keys : List String) → Distinct keys → Fresh [] keys
Distinct-Fresh keys h = Distinct-Fresh_seen keys [] h (λ x m. unfold member in refl)

module _ (redact_text : String → String) where
  redact_object-field :
      (seen : List String) (key : String) (value : Json) (rest redacted : Fields)
      → redact_object redact_text seen (field key value rest) ≡ ok redacted
      → (member (redact_text key) seen ≡ false)
        × ((v : Json) × (r : Fields) × (redact_object redact_text (redact_text key ∷ seen) rest
              ≡ ok r)
            × (redacted ≡ field (redact_text key) v r))
  unfolding redact_object
  redact_object-field seen key value rest redacted e =
      elim (Bool-cases (member (redact_text key) seen)) [
        | inl there ↦ absurd (ground arith)
        | inr new ↦ elim (Result-cases (redact_recursive redact_text value)) [
          | inr (x, f) ↦ absurd (ground arith)
          | inl (v, f) ↦
              elim (Result-cases (redact_object redact_text (redact_text key ∷ seen) rest)) [
                | inr (x, g) ↦ absurd (ground arith)
                | inl (r, g) ↦ (new, (v, r, g, ground arith))
              ]
        ]
      ]

  -- A redacted object has the redaction of each key of the object, in its order, and no key twice.
  pub redact_object-keys :
      (seen : List String) (fields redacted : Fields)
      → redact_object redact_text seen fields ≡ ok redacted
      → (keys_of redacted ≡ map redact_text (keys_of fields)) × Fresh seen (keys_of redacted)
  unfolding redact_object keys_of
  redact_object-keys seen no_fields redacted e =
      let q : redacted ≡ no_fields = ground arith in rw q (refl, tt)
  redact_object-keys seen (field key value rest) redacted e =
      let (new, (v, r, f, q)) = redact_object-field seen key value rest redacted e in
      let (same, fresh) = redact_object-keys (redact_text key ∷ seen) rest r f in
      rw q (ap (λ ks. redact_text key ∷ ks) same, (new, fresh))

  -- In the value, no two keys of one object have the same redaction.
  unfoldable mutual
    pub Separate : Json → Type 0
    Separate (text t) = Unit
    Separate (literal t) = Unit
    Separate (array items) = SeparateItems items
    Separate (object fields) = Distinct (map redact_text (keys_of fields)) × SeparateFields fields

    pub SeparateItems : Items → Type 0
    SeparateItems no_items = Unit
    SeparateItems (item value rest) = Separate value × SeparateItems rest

    -- The values of the fields.
    pub SeparateFields : Fields → Type 0
    SeparateFields no_fields = Unit
    SeparateFields (field key value rest) = Separate value × SeparateFields rest

  mutual
    unfolding redact_recursive redact_items redact_object Separate SeparateItems SeparateFields
        keys_of

    recursive_ok :
        (value : Json) → Separate value → (r : Json) × (redact_recursive redact_text value ≡ ok r)
    recursive_ok (text t) s = (text (redact_text t), refl)
    recursive_ok (literal t) s =
        (if str_eq t (redact_text t) then literal t else text (redact_text t), refl)
    recursive_ok (array items) s = let (r, e) = items_ok items s in (array r, rw e refl)
    recursive_ok (object fields) (distinct, s) =
        let (r, e) =
          object_ok [] fields (Distinct-Fresh (map redact_text (keys_of fields)) distinct) s in
        (object r, rw e refl)

    items_ok :
        (items : Items)
        → SeparateItems items
        → (r : Items) × (redact_items redact_text items ≡ ok r)
    items_ok no_items s = (no_items, refl)
    items_ok (item value rest) (s, t) =
        let (v, e) = recursive_ok value s in
        let (r, f) = items_ok rest t in (item v r, rw (e, f) refl)

    object_ok :
        (seen : List String) (fields : Fields)
        → Fresh seen (map redact_text (keys_of fields))
        → SeparateFields fields
        → (r : Fields) × (redact_object redact_text seen fields ≡ ok r)
    object_ok seen no_fields fresh s = (no_fields, refl)
    object_ok seen (field key value rest) (new, fresh) (s, t) =
        let (v, e) = recursive_ok value s in
        let (r, f) = object_ok (redact_text key ∷ seen) rest fresh t in
        (field (redact_text key) v r, ground (arith, new, e, f))

  mutual
    unfolding redact_recursive redact_items redact_object Separate SeparateItems SeparateFields
        keys_of

    recursive-Separate :
        (value r : Json) → redact_recursive redact_text value ≡ ok r → Separate value
    recursive-Separate (text t) r e = tt
    recursive-Separate (literal t) r e = tt
    recursive-Separate (array items) r e = elim (Result-cases (redact_items redact_text items)) [
      | inr (x, f) ↦ absurd (ground arith)
      | inl (rs, f) ↦ items-Separate items rs f
    ]
    recursive-Separate (object fields) r e =
        elim (Result-cases (redact_object redact_text [] fields)) [
          | inr (x, f) ↦ absurd (ground arith)
          | inl (rs, f) ↦
              let (same, fresh) = redact_object-keys [] fields rs f in
              (rw (← same) (Fresh-Distinct (keys_of rs) [] fresh), fields-Separate [] fields rs f)
        ]

    items-Separate : (items r : Items) → redact_items redact_text items ≡ ok r → SeparateItems items
    items-Separate no_items r e = tt
    items-Separate (item value rest) r e =
        elim (Result-cases (redact_recursive redact_text value)) [
          | inr (x, f) ↦ absurd (ground arith)
          | inl (v, f) ↦ elim (Result-cases (redact_items redact_text rest)) [
            | inr (x, g) ↦ absurd (ground arith)
            | inl (rs, g) ↦ (recursive-Separate value v f, items-Separate rest rs g)
          ]
        ]

    fields-Separate :
        (seen : List String) (fields r : Fields)
        → redact_object redact_text seen fields ≡ ok r
        → SeparateFields fields
    fields-Separate seen no_fields r e = tt
    fields-Separate seen (field key value rest) r e =
        elim (Result-cases (redact_recursive redact_text value)) [
          | inr (x, f) ↦ absurd (ground arith)
          | inl (v, f) ↦
              let (new, (w, rs, g, q)) = redact_object-field seen key value rest r e in
              (recursive-Separate value v f, fields-Separate (redact_text key ∷ seen) rest rs g)
        ]

  -- Redaction succeeds exactly where no two keys of one object, at any depth, have the same
  -- redaction.
  pub redact_recursive-Separate :
      (value : Json) → ((r : Json) × (redact_recursive redact_text value ≡ ok r)) ↔ Separate value
  redact_recursive-Separate value =
      (λ (r, e). recursive-Separate value r e, λ s. recursive_ok value s)
