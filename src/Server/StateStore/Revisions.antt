-- ===== src/Server/StateStore/Revisions.antt =====
-- Optimistic writes: what one does, and that no sequence of them loses an update.
use mas_framework.Common.{
  ℕ, suc, ◌==◌, ◌≤◌, ◌<◌, ◌≡◌, ◌≢◌, sym, ◌⊎◌, inl, inr, Bool, Bool-cases, List, [], ◌∷◌, String,
  arith,
}
use mas_framework.Common.Dict.{Dict}
use mas_framework.Common.Results.{Result, ok, Result-cases}
use mas_framework.Server.StateStore.{
  Error, Keys, Revision, missing, hash, decimal, validate, hset, update_script, confirm,
  update_state, reset_script, reset_state, max_revision,
}

-- A write that reaches Redis, and whether its durability is then confirmed.
pub data Write : Type 0 where
  update : Dict String → ℕ → Bool → Write
  reset : ℕ → Bool → Write

abbrev pub perform : Keys → Write → Result Error ℕ × Keys
perform keys (update updates expected durable) = update_state keys updates expected durable
perform keys (reset expected durable) = reset_state keys expected durable

unfoldable pub run : Keys → List Write → Keys
run keys [] = keys
run keys (w ∷ more) = run (perform keys w).1 more

abbrev pub expectation : Write → ℕ
expectation (update updates expected durable) = expected
expectation (reset expected durable) = expected

-- An update that succeeds was made at the expected revision, and either gives no fields and
-- changes nothing, or writes its fields over those of the state and makes the revision one more.
pub update_state-ok :
    (keys keys' : Keys) (updates : Dict String) (expected n : ℕ) (durable : Bool)
    → update_state keys updates expected durable ≡ (ok n, keys')
    → (d : Dict String) × (validate keys ≡ ok (expected, d))
      × (((updates ≡ []) × (n ≡ expected) × (keys' ≡ keys))
          ⊎ ((n ≡ suc expected)
              × (keys' ≡ record { state = hash (hset d updates); revision = decimal n })))
unfolding update_state update_script confirm
update_state-ok keys keys' [] expected n durable h = elim (Result-cases (validate keys)) [
  | inr (e, f) ↦ absurd (ground arith)
  | inl ((m, d), f) ↦ (d, ground arith, ground arith)
]
update_state-ok keys keys' (u ∷ more) expected n durable h = elim (Result-cases (validate keys)) [
  | inr (e, f) ↦ absurd (ground arith)
  | inl ((m, d), f) ↦ (d, ground arith, ground arith)
]

-- A write leaves the keys, or makes the revision one more.
perform-cases :
    (keys : Keys) (w : Write)
    → ((perform keys w).1 ≡ keys)
      ⊎ ((n : ℕ) × (d : Dict String) × (validate keys ≡ ok (n, d))
          × ((perform keys w).1.revision ≡ decimal (suc n)))
unfolding update_state reset_state update_script reset_script confirm
perform-cases keys (update [] expected durable) = elim (Result-cases (validate keys)) [
  | inr (e, f) ↦ inl (ground arith)
  | inl ((m, d), f) ↦ inl (ground arith)
]
perform-cases keys (update (u ∷ more) expected durable) = elim (Result-cases (validate keys)) [
  | inr (e, f) ↦ inl (ground arith)
  | inl ((m, d), f) ↦ elim (Bool-cases (m == expected)) [
    | inl met ↦ inr (m, d, f, ground arith)
    | inr unmet ↦ inl (ground arith)
  ]
]
perform-cases keys (reset expected durable) = elim (Result-cases (validate keys)) [
  | inr (e, f) ↦ inl (ground arith)
  | inl ((m, d), f) ↦ elim (Bool-cases (m == expected)) [
    | inl met ↦ inr (m, d, f, ground arith)
    | inr unmet ↦ inl (ground arith)
  ]
]

abbrev AtLeast : ℕ → Keys → Type 0
AtLeast r keys = (n : ℕ) (d : Dict String) → validate keys ≡ ok (n, d) → r ≤ n

validate-decimal :
    (keys : Keys) (m n : ℕ) (d : Dict String)
    → keys.revision ≡ decimal m
    → validate keys ≡ ok (n, d)
    → (n ≡ m) × (m ≤ max_revision)
unfolding validate
validate-decimal keys m n d e h = ground arith

perform-AtLeast : (r : ℕ) (keys : Keys) (w : Write) → AtLeast r keys → AtLeast r (perform keys w).1
perform-AtLeast r keys w low n d valid = elim (perform-cases keys w) [
  | inl same ↦ low n d (rw (sym same) valid)
  | inr (m, d', before, e) ↦
      ground (arith, low m d' before, validate-decimal (perform keys w).1 (suc m) n d e valid)
]

run-AtLeast : (r : ℕ) (keys : Keys) (ws : List Write) → AtLeast r keys → AtLeast r (run keys ws)
unfolding run
run-AtLeast r keys [] low = low
run-AtLeast r keys (w ∷ more) low =
    run-AtLeast r (perform keys w).1 more (perform-AtLeast r keys w low)

perform-ok :
    (keys : Keys) (w : Write) (n : ℕ)
    → (perform keys w).0 ≡ ok n
    → (d : Dict String) × (validate keys ≡ ok (expectation w, d))
unfolding update_state reset_state update_script reset_script confirm
perform-ok keys (update [] expected durable) n h = elim (Result-cases (validate keys)) [
  | inr (e, f) ↦ absurd (ground arith)
  | inl ((m, d), f) ↦ (d, ground arith)
]
perform-ok keys (update (u ∷ more) expected durable) n h = elim (Result-cases (validate keys)) [
  | inr (e, f) ↦ absurd (ground arith)
  | inl ((m, d), f) ↦ (d, ground arith)
]
perform-ok keys (reset expected durable) n h = elim (Result-cases (validate keys)) [
  | inr (e, f) ↦ absurd (ground arith)
  | inl ((m, d), f) ↦ (d, ground arith)
]

-- A write that expects less than the revision fails.
AtLeast-fails :
    (r : ℕ) (keys : Keys) (w : Write) (n : ℕ)
    → AtLeast r keys
    → expectation w < r
    → (perform keys w).0 ≢ ok n
AtLeast-fails r keys w n low below h =
    let (d, valid) = perform-ok keys w n h in
    let least : r ≤ expectation w = low (expectation w) d valid in absurd (omega arith)

-- Once an update that changes fields has succeeded, no write that expects the same revision or an
-- earlier one ever succeeds, whatever is written in between.
pub update_state-wins :
    (keys : Keys) (field : String × String) (more : Dict String) (expected n : ℕ) (durable : Bool)
    (between : List Write) (w : Write) (m : ℕ)
    → (update_state keys (field ∷ more) expected durable).0 ≡ ok n
    → expectation w ≤ expected
    → (perform (run (update_state keys (field ∷ more) expected durable).1 between) w).0 ≢ ok m
unfolding update_state update_script confirm
update_state-wins keys field more expected n durable between w m won late =
    let after = (update_state keys (field ∷ more) expected durable).1 in
    let (d, valid) = perform-ok keys (update (field ∷ more) expected durable) n won in
    let raised : after.revision ≡ decimal (suc expected) = ground arith in
    let low : AtLeast (suc expected) after =
      (λ k c found. ground (arith, validate-decimal after (suc expected) k c raised found)) in
    AtLeast-fails (suc expected) (run after between) w m
      (run-AtLeast (suc expected) after between low) (omega arith)

-- The revision is missing, or a decimal that is at most 2 ^ 53 - 1.
abbrev IsExact : Revision → Type 0
IsExact (decimal n) = n ≤ 9007199254740991
IsExact missing = Unit
IsExact _ = ⊥

validate-revision :
    (keys : Keys) (n : ℕ) (d : Dict String) → validate keys ≡ ok (n, d) → n ≤ max_revision
unfolding validate
validate-revision keys n d h = ground arith

perform-IsExact :
    (keys : Keys) (w : Write) → IsExact keys.revision → IsExact (perform keys w).1.revision
perform-IsExact keys w exact = elim (perform-cases keys w) [
  | inl same ↦ rw (same) exact
  | inr (m, d, valid, raised) ↦
      let small = validate-revision keys m d valid in rw (raised) (omega arith)
]

-- A revision that is missing or a decimal that is at most 2 ^ 53 - 1, up to which Lua's numbers are
-- exact, stays so whatever updates and resets are made, with whatever expectations.
run-IsExact :
    (keys : Keys) (ws : List Write) → IsExact keys.revision → IsExact (run keys ws).revision
unfolding run
run-IsExact keys [] exact = exact
run-IsExact keys (w ∷ more) exact =
    run-IsExact (perform keys w).1 more (perform-IsExact keys w exact)
