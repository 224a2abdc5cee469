-- ===== src/Core/SessionLease.antt =====
-- packages/mas-core/src/mas_core/sessions.py: the ownership of the instances of one agent, with the
-- Lua scripts that take, extend and give it up. Times are milliseconds.
pub mod Scripts
pub mod Exclusion
mod Examples
use mas_framework.Common.{
  ℕ, ◌+◌, ◌*◌, ltb, leb, Bool, true, false, not, ◌&&◌, ◌||◌, Option, none, some, List, [], ◌∷◌,
  String, str_eq, if◌then◌else◌,
}
use mas_framework.Common.Dict.{Dict, lookup, insert, remove}
use mas_framework.Common.Results.{Result, ok, err, ◌>>=◌, ◌>>◌, ensure}

pub record Settings : Type 0 where
  pub ttl_ms : ℕ
  pub renewal_ms : ℕ

pub data Error : Type 0 where
  interval_not_positive renewal_too_long : Error
  wrong_type invalid_session_storage_type instance_already_connected : Error
  session_lease_expired_before_confirmation : Error

-- SessionLeaseSettings.__post_init__
pub make_settings : ℕ → ℕ → Result Error Settings
make_settings ttl_ms renewal_ms = do
  ensure (ltb 0 ttl_ms && ltb 0 renewal_ms) interval_not_positive
  ensure (not (leb ttl_ms (renewal_ms * 2))) renewal_too_long
  ok (record { ttl_ms = ttl_ms; renewal_ms = renewal_ms })

pub record SessionLease : Type 0 where
  pub agent_id : String
  pub instance_id : String
  pub owner : String
  pub expires_at : ℕ

-- A reading of the local monotonic clock against the lease.
pub live : ℕ → SessionLease → Bool
live clock lease = ltb clock lease.expires_at

-- What a Redis key of a session holds: an owner until a deadline, or a value of another type.
pub data Owner : Type 0 where
  owned : String → ℕ → Owner
  foreign : Owner

-- The keys of one agent: `mas.session:<agent>:<instance>` for each instance, and the sorted set
-- `mas.sessions:<agent>` of the instances by their deadlines.
pub record Keys : Type 0 where
  pub owners : Dict Owner
  pub index : List (ℕ × String)
  pub index_foreign : Bool

abbrev unexpired : ℕ → Option Owner → Option Owner
unexpired now none = none
unexpired now (some foreign) = some foreign
unexpired now (some (owned owner deadline)) =
    if ltb now deadline then some (owned owner deadline) else none

-- The key as a command finds it at a time.
pub get_key : Keys → ℕ → String → Option Owner
get_key keys now instance' = unexpired now (lookup instance' keys.owners)

abbrev pub is_foreign : Option Owner → Bool
is_foreign (some foreign) = true
is_foreign _ = false

abbrev pub is_owner : String → Option Owner → Bool
is_owner owner (some (owned other deadline)) = str_eq other owner
is_owner owner _ = false

abbrev pub taken : Option Owner → Bool
taken none = false
taken (some o) = true

-- ZREM
pub zrem : String → List (ℕ × String) → List (ℕ × String)
zrem name [] = []
zrem name ((score, other) ∷ z) =
    let rest = zrem name z in if str_eq other name then rest else (score, other) ∷ rest

-- ZREMRANGEBYSCORE key -inf now
pub drop_expired : ℕ → List (ℕ × String) → List (ℕ × String)
drop_expired now [] = []
drop_expired now ((score, other) ∷ z) =
    let rest = drop_expired now z in if leb score now then rest else (score, other) ∷ rest

pub own : Keys → ℕ → ℕ → String → String → Keys
own keys now ttl instance' owner = record keys {
  owners = insert instance' (owned owner (now + ttl)) keys.owners;
  index = (now + ttl, instance') ∷ zrem instance' (drop_expired now keys.index);
}

-- _VALIDATE_KEYS and the script that follows it; the result says whether the script returned 1.
abbrev guarded : Keys → Option Owner → Bool × Keys → Result Error (Bool × Keys)
guarded keys found r =
    if is_foreign found || keys.index_foreign then err invalid_session_storage_type else ok r

pub acquire_script : Keys → ℕ → ℕ → String → String → Result Error (Bool × Keys)
acquire_script keys now ttl instance' owner =
    let found = get_key keys now instance' in
    guarded keys found
      (if taken found then (false, keys) else (true, own keys now ttl instance' owner))

pub renew_script : Keys → ℕ → ℕ → String → String → Result Error (Bool × Keys)
renew_script keys now ttl instance' owner =
    let found = get_key keys now instance' in
    guarded keys found
      (if is_owner owner found then (true, own keys now ttl instance' owner) else (false, keys))

pub release_script : Keys → ℕ → String → String → Result Error (Bool × Keys)
release_script keys now instance' owner =
    let found = get_key keys now instance' in
    guarded keys found (
      if is_owner owner found
      then (
        true,
        record keys { owners = remove instance' keys.owners; index = zrem instance' keys.index },
      )
      else (false, keys))

-- ZCOUNT key (now +inf is not zero.
pub active_at : ℕ → List (ℕ × String) → Bool
active_at now [] = false
active_at now ((score, other) ∷ z) = ltb now score || active_at now z

pub active : Keys → ℕ → Result Error Bool
active keys now = if keys.index_foreign then err wrong_type else ok (active_at now keys.index)

-- `acquire`: `sent` and `received` are readings of the local clock before and after the script,
-- which runs at `now`; a release runs at `later`. A failure leaves the keys that come with it.
pub acquire :
    Settings → Keys → String → String → String → ℕ → ℕ → ℕ → ℕ → Result Error SessionLease × Keys
acquire settings keys agent instance' owner sent now received later =
    let lease : SessionLease = record {
      agent_id = agent;
      instance_id = instance';
      owner = owner;
      expires_at = sent + settings.ttl_ms;
    } in
    elim (acquire_script keys now settings.ttl_ms instance' owner) [
      | err e ↦ (err e, keys)
      | ok (acquired, keys') ↦
          if not acquired
          then (err instance_already_connected, keys')
          else if live received lease
          then (ok lease, keys')
          else elim (release_script keys' later instance' owner) [
            | err e ↦ (err e, keys')
            | ok (released, keys'') ↦ (err session_lease_expired_before_confirmation, keys'')
          ]
    ]

-- `renew`: the lease is looked at, and the clock is read again before and after the script.
pub renew :
    Settings → Keys → SessionLease → ℕ → ℕ → ℕ → ℕ → Result Error (Option SessionLease) × Keys
renew settings keys lease checked sent now received =
    let renewed = record lease { expires_at = sent + settings.ttl_ms } in
    if not (live checked lease)
    then (ok none, keys)
    else elim (renew_script keys now settings.ttl_ms lease.instance_id lease.owner) [
      | err e ↦ (err e, keys)
      | ok (confirmed, keys') ↦
          (ok (if confirmed && live received renewed then some renewed else none), keys')
    ]

pub release : Keys → SessionLease → ℕ → Result Error (Bool × Keys)
release keys lease now = release_script keys now lease.instance_id lease.owner

pub owner_of : Keys → ℕ → String → Result Error (Option String)
owner_of keys now instance' = elim (get_key keys now instance') [
  | none ↦ ok none
  | some foreign ↦ err wrong_type
  | some (owned owner deadline) ↦ ok (some owner)
]
