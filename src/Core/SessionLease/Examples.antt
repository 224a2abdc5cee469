-- ===== src/Core/SessionLease/Examples.antt =====
-- The theorems on session leases at concrete keys, and tests of their definitions.
use mas_framework.Common.{
  ℕ, ◌<◌, ◌≡◌, refl, inl, inr, true, false, none, some, List, [], ◌∷◌, arith,
}
use mas_framework.Common.Dict.{lookup, insert}
use mas_framework.Common.Results.{ok, err}
use mas_framework.Core.SessionLease.{
  Settings, make_settings, renewal_too_long, instance_already_connected, SessionLease, live, owned,
  Keys, get_key, zrem, drop_expired, own, acquire_script, renew_script, active_at, active, acquire,
  renew, owner_of,
}
use mas_framework.Core.SessionLease.Scripts.{Extended, renew-some}
use mas_framework.Core.SessionLease.Exclusion.{
  World, pass, take, extend, Steps, done, after, Steps-exclusive,
}

abbrev settings : Settings
settings = record { ttl_ms = 6; renewal_ms = 2 }

abbrev free : Keys
free = record { owners = []; index = []; index_foreign = false }

abbrev lease_until : ℕ → SessionLease
lease_until t = record { agent_id = "desk"; instance_id = "one"; owner = "broker"; expires_at = t }

abbrev owned_until : ℕ → Keys
owned_until t = record {
  owners = ("one", owned "broker" t) ∷ [];
  index = (t, "one") ∷ [];
  index_foreign = false;
}

renewal_below_half : make_settings 6 3 ≡ err renewal_too_long
unfolding make_settings
renewal_below_half = refl

settings_made : make_settings 6 2 ≡ ok settings
unfolding make_settings
settings_made = refl

second_owner_refused :
    acquire settings (owned_until 6) "desk" "one" "other" 5 5 5 5
    ≡ (err instance_already_connected, owned_until 6)
unfolding acquire acquire_script get_key lookup
second_owner_refused = refl

expired_owner_replaced : owner_of (owned_until 6) 6 "one" ≡ ok none
unfolding owner_of get_key lookup
expired_owner_replaced = refl

active_until_deadline : active (owned_until 6) 5 ≡ ok true
unfolding active active_at
active_until_deadline = refl

inactive_at_deadline : active (owned_until 6) 6 ≡ ok false
unfolding active active_at
inactive_at_deadline = refl

renew-some_example :
    (2 < 6)
    × Extended settings
        (owned_until 6)
        (renew settings (owned_until 6) (lease_until 6) 2 2 2 3).1
        (lease_until 6)
        2
    × (lease_until 8 ≡ lease_until 8)
    × (3 < 8)
unfolding renew renew_script get_key lookup live
renew-some_example =
    renew-some settings (owned_until 6) (lease_until 6) (lease_until 8) 2 2 2 3 refl

abbrev world : ℕ → Keys → List SessionLease → World
world now keys held = record { now = now; keys = keys; held = held }

renewed_once :
    Steps settings (world 0 free []) (world 2 (owned_until 8) (lease_until 8 ∷ lease_until 6 ∷ []))
unfolding acquire_script renew_script get_key lookup own insert zrem drop_expired
renewed_once =
    after (world 0 free []) (world 2 (owned_until 6) (lease_until 6 ∷ []))
      (world 2 (owned_until 8) (lease_until 8 ∷ lease_until 6 ∷ []))
      (after (world 0 free []) (world 0 (owned_until 6) (lease_until 6 ∷ []))
        (world 2 (owned_until 6) (lease_until 6 ∷ []))
        (after (world 0 free []) (world 0 free []) (world 0 (owned_until 6) (lease_until 6 ∷ []))
          (done (world 0 free []))
          (take (world 0 free []) (owned_until 6) (lease_until 6) 0 (omega arith) refl refl))
        (pass (world 0 (owned_until 6) (lease_until 6 ∷ [])) 2 (omega arith)))
      (extend (world 2 (owned_until 6) (lease_until 6 ∷ [])) (owned_until 8) (lease_until 8) 2
        (omega arith) refl refl)

Steps-exclusive_example :
    ((lease_until 8).owner ≡ (lease_until 6).owner)
    × ((d : ℕ) × (get_key (owned_until 8) 2 "one" ≡ some (owned "broker" d)))
Steps-exclusive_example =
    Steps-exclusive settings (world 0 free [])
      (world 2 (owned_until 8) (lease_until 8 ∷ lease_until 6 ∷ [])) (lease_until 8) (lease_until 6)
      refl renewed_once (inl refl) (inr (inl refl)) (omega arith) (omega arith) refl
