-- ===== src/Server/StateStore/Contents.antt =====
-- The fields that a snapshot reads, before and after a write.
use mas_framework.Common.{
  ℕ, suc, ◌≤◌, ◌≡◌, refl, inl, inr, sym, Bool, true, Option, none, some, [], ◌∷◌, String, str_eq,
  str_eq_iff, arith, Bool-cases,
}
use mas_framework.Common.Dict.{Dict, lookup, insert, lookup-insert}
use mas_framework.Common.Results.{ok}
use mas_framework.Server.StateStore.{
  Keys, fields_of, validate, hgetall, pair_up, hset, StateSnapshot, snapshot, confirm, update_state,
  reset_script, reset_state, hash, no_fields, decimal, max_revision,
}
use mas_framework.Server.StateStore.Revisions.{update_state-ok}

-- No name is there twice.
abbrev pub Unique : Dict String → Type 0
Unique [] = Unit
Unique ((name, value) ∷ rest) = (lookup name rest ≡ none) × Unique rest

pub Unique-insert :
    (name value : String) (d : Dict String) → Unique d → Unique (insert name value d)
unfolding insert lookup
Unique-insert name value [] u = (refl, tt)
Unique-insert name value ((field, old) ∷ rest) (fresh, u) = elim (Bool-cases (str_eq field name)) [
  | inl same ↦
      let q : field ≡ name = (str_eq_iff field name).0 same in
      let fresh' : lookup name rest ≡ none = rw (sym q) fresh in rw same (fresh', u)
  | inr other ↦ rw other (
    ground
        (arith, lookup-insert name field value rest, str_eq_iff field name, str_eq_iff name field),
    Unique-insert name value rest u,
  )
]

pub Unique-hset : (d pairs : Dict String) → Unique d → Unique (hset d pairs)
unfolding hset
Unique-hset d [] u = u
Unique-hset d ((name, value) ∷ rest) u =
    Unique-hset (insert name value d) rest (Unique-insert name value d u)

pub pair_up-hgetall : (d : Dict String) → pair_up (hgetall d) ≡ some d
unfolding pair_up hgetall
pair_up-hgetall [] = refl
pair_up-hgetall ((name, value) ∷ rest) = rw (pair_up-hgetall rest) refl

-- The value of a name in pairs, or in what they are written over.
abbrev pub written : Dict String → Option String → String → Option String
written pairs before name = elim (lookup name pairs) [ none ↦ before | some value ↦ some value ]

pub lookup-hset :
    (name : String) (d pairs : Dict String)
    → Unique pairs
    → lookup name (hset d pairs) ≡ written pairs (lookup name d) name
unfolding hset lookup
lookup-hset name d [] u = refl
lookup-hset name d ((field, value) ∷ rest) (fresh, u) =
    rw (lookup-hset name (insert field value d) rest u) ground
      (arith, lookup-insert field name value d, str_eq_iff field name, fresh)

lookup-hset_new :
    (name : String) (d : Dict String) → Unique d → lookup name (hset [] d) ≡ lookup name d
unfolding lookup
lookup-hset_new name d u = ground (arith, lookup-hset name [] d u)

pub snapshot_lem :
    (keys : Keys) (n : ℕ) (d : Dict String)
    → validate keys ≡ ok (n, d)
    → snapshot keys ≡ ok (record { fields = hset [] d; revision = n })
unfolding snapshot
snapshot_lem keys n d valid = ground (arith, valid, pair_up-hgetall d)

validate-hash :
    (keys : Keys) (n : ℕ) (d : Dict String)
    → keys ≡ record { state = hash d; revision = decimal n }
    → n ≤ max_revision
    → validate keys ≡ ok (n, d)
unfolding validate
validate-hash keys n d e small = rw e (ground arith)

validate-none :
    (keys : Keys) (n : ℕ)
    → keys ≡ record { state = no_fields; revision = decimal n }
    → n ≤ max_revision
    → validate keys ≡ ok (n, [])
unfolding validate
validate-none keys n e small = rw e (ground arith)

validate-fields_of :
    (keys : Keys) (n : ℕ) (d : Dict String) → validate keys ≡ ok (n, d) → fields_of keys.state ≡ d
unfolding validate
validate-fields_of keys n d h = ground arith

-- After an update of valid keys that succeeded and did not reach the greatest revision, a snapshot
-- shows the revision that the update returned, and each field as the update gives it or else as
-- the snapshot before it showed it.
pub snapshot-update_state :
    (keys keys' : Keys) (updates : Dict String) (expected n : ℕ) (durable : Bool)
    → Unique updates
    → Unique (fields_of keys.state)
    → update_state keys updates expected durable ≡ (ok n, keys')
    → n ≤ max_revision
    → (s : StateSnapshot) × (s' : StateSnapshot) × (snapshot keys ≡ ok s)
      × (snapshot keys' ≡ ok s')
      × (s.revision ≡ expected)
      × (s'.revision ≡ n)
      × ((name : String) → lookup name s'.fields ≡ written updates (lookup name s.fields) name)
unfolding lookup
snapshot-update_state keys keys' updates expected n durable uu uk ran small =
    let (d, valid, how) = update_state-ok keys keys' updates expected n durable ran in
    let ud : Unique d = rw (sym (validate-fields_of keys expected d valid)) uk in
    elim how [
      | inl (none_given, same_n, same) ↦ (
        record { fields = hset [] d; revision = expected },
        record { fields = hset [] d; revision = n },
        snapshot_lem keys expected d valid,
        rw (same, same_n) (snapshot_lem keys expected d valid),
        refl,
        refl,
        λ name. rw none_given refl,
      )
      | inr (next, e) ↦ (
        record { fields = hset [] d; revision = expected },
        record { fields = hset [] (hset d updates); revision = n },
        snapshot_lem keys expected d valid,
        snapshot_lem keys' n (hset d updates) (validate-hash keys' n (hset d updates) e small),
        refl,
        refl,
        λ name.
            rw
              (
                lookup-hset_new name (hset d updates) (Unique-hset d updates ud),
                lookup-hset_new name d ud,
              )
              (lookup-hset name d updates uu),
      )
    ]

-- A reset at a revision below the greatest succeeds if its durability is confirmed, and a snapshot
-- then shows no fields and the next revision.
pub snapshot-reset_state :
    (keys : Keys) (n : ℕ) (d : Dict String)
    → validate keys ≡ ok (n, d)
    → suc n ≤ max_revision
    → ((reset_state keys n true).0 ≡ ok (suc n))
      × (snapshot (reset_state keys n true).1 ≡ ok (record { fields = []; revision = suc n }))
unfolding reset_state reset_script confirm hset
snapshot-reset_state keys n d valid small =
    let after = (reset_state keys n true).1 in
    let e : after ≡ record { state = no_fields; revision = decimal (suc n) } = ground arith in
    (ground arith, snapshot_lem after (suc n) [] (validate-none after (suc n) e small))
