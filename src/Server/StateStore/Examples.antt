-- ===== src/Server/StateStore/Examples.antt =====
-- The theorems on the state store at concrete keys, and tests of its definitions.
use mas_framework.Common.{◌≡◌, ◌≢◌, refl, true, false, [], ◌∷◌, String, arith}
use mas_framework.Common.Dict.{Dict, lookup, insert}
use mas_framework.Common.Results.{ok, err}
use mas_framework.Server.StateStore.{
  invalid_state_revision, not_durable, Keys, hash, no_fields, missing, decimal, other_text,
  validate, hgetall, pair_up, hset, StateSnapshot, snapshot, get_state, update_script, reset_script,
  confirm, update_state, reset_state,
}
use mas_framework.Server.StateStore.Revisions.{update, reset, perform, run, update_state-wins}
use mas_framework.Server.StateStore.Contents.{written, snapshot-update_state}

abbrev fresh : Keys
fresh = record { state = no_fields; revision = missing }

abbrev mood : Dict String
mood = ("mood", "calm") ∷ []

abbrev calm : Keys
calm = record { state = hash mood; revision = decimal 1 }

abbrev busy : Keys
busy = record { state = hash (("mood", "busy") ∷ ("task", "sort") ∷ []); revision = decimal 2 }

abbrev to_busy : Dict String
to_busy = ("mood", "busy") ∷ ("task", "sort") ∷ []

first_update : update_state fresh mood 0 true ≡ (ok 1, calm)
unfolding update_state update_script confirm validate hset insert
first_update = refl

undurable_update : update_state calm to_busy 1 false ≡ (err not_durable, busy)
unfolding update_state update_script confirm validate hset insert
undurable_update = refl

snapshot_of_busy : get_state busy ≡ ok to_busy
unfolding get_state snapshot validate hgetall pair_up hset insert
snapshot_of_busy = refl

foreign_revision_refused :
    reset_state (record { state = no_fields; revision = other_text }) 0 true
    ≡ (err invalid_state_revision, record { state = no_fields; revision = other_text })
unfolding reset_state reset_script confirm validate
foreign_revision_refused = refl

update_state-wins_example :
    (perform (run (update_state calm to_busy 1 true).1 (update mood 2 true ∷ [])) (reset 1 true)).0
    ≢ ok 2
unfolding update_state update_script confirm validate
update_state-wins_example =
    update_state-wins calm ("mood", "busy") (("task", "sort") ∷ []) 1 2 true
      (update mood 2 true ∷ []) (reset 1 true) 2 refl (omega arith)

snapshot-update_state_example :
    (s : StateSnapshot) × (s' : StateSnapshot) × (snapshot calm ≡ ok s)
    × (snapshot busy ≡ ok s')
    × (s.revision ≡ 1)
    × (s'.revision ≡ 2)
    × ((name : String) → lookup name s'.fields ≡ written to_busy (lookup name s.fields) name)
unfolding update_state update_script confirm validate hset insert lookup
snapshot-update_state_example =
    snapshot-update_state calm busy to_busy 1 2 true (refl, (refl, tt)) (refl, tt) refl
      (omega arith)
