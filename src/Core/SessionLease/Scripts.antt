-- ===== src/Core/SessionLease/Scripts.antt =====
-- What the scripts do to the key of an instance, and that they leave the others alone.
use mas_framework.Common.{
  ℕ, ◌+◌, ◌≤◌, ◌<◌, ◌≡◌, refl, ◌⊎◌, inl, inr, Bool, true, false, Option, none, some, String, str_eq,
  str_eq_iff, arith, Bool-cases, if◌then◌else◌, not, ◌&&◌,
}
use mas_framework.Common.Dict.{lookup, remove, lookup-insert}
use mas_framework.Common.Results.{ok, err}
use mas_framework.Core.SessionLease.{
  Settings, Error, SessionLease, live, Owner, owned, foreign, Keys, get_key, own, acquire_script,
  renew_script, release_script, acquire, renew, release,
}

pub lookup-own :
    (keys : Keys) (now ttl : ℕ) (i owner j : String)
    → lookup j (own keys now ttl i owner).owners
      ≡ (if str_eq i j then some (owned owner (now + ttl)) else lookup j keys.owners)
unfolding own
lookup-own keys now ttl i owner j = lookup-insert i j (owned owner (now + ttl)) keys.owners

-- A successful `acquire` found the instance free, owns it for the whole time to live from the run
-- of the script, and its lease ends the time to live after the reading of the clock before the
-- script, and was live when it was confirmed.
pub acquire-ok :
    (settings : Settings) (keys keys' : Keys) (agent i owner : String) (sent now received later : ℕ)
    (lease : SessionLease)
    → acquire settings keys agent i owner sent now received later ≡ (ok lease, keys')
    → (get_key keys now i ≡ none)
      × (keys' ≡ own keys now settings.ttl_ms i owner)
      × (lease ≡ record {
        agent_id = agent;
        instance_id = i;
        owner = owner;
        expires_at = sent + settings.ttl_ms;
      })
      × (received < lease.expires_at)
unfolding acquire acquire_script release_script live
acquire-ok settings keys keys' agent i owner sent now received later lease h = ground arith

-- A failed `acquire` leaves the keys as they were, unless the instance was free and its lease ran
-- out before it was confirmed.
pub acquire-err :
    (settings : Settings) (keys keys' : Keys) (agent i owner : String) (sent now received later : ℕ)
    (e : Error)
    → acquire settings keys agent i owner sent now received later ≡ (err e, keys')
    → (keys' ≡ keys)
      ⊎ ((get_key keys now i ≡ none)
          × ((keys' ≡ own keys now settings.ttl_ms i owner)
              ⊎ (keys'.owners ≡ remove i (own keys now settings.ttl_ms i owner).owners)))
unfolding acquire acquire_script release_script live
acquire-err settings keys keys' agent i owner sent now received later e h = ground arith

Owner-cases :
    (o : Option Owner)
    → (o ≡ none) ⊎ (o ≡ some foreign) ⊎ ((owner : String) × (d : ℕ) × (o ≡ some (owned owner d)))
Owner-cases none = inl refl
Owner-cases (some foreign) = inr (inl refl)
Owner-cases (some (owned owner d)) = inr (inr (owner, d, refl))

pub acquire_script-true :
    (keys keys' : Keys) (now ttl : ℕ) (i owner : String)
    → acquire_script keys now ttl i owner ≡ ok (true, keys')
    → (get_key keys now i ≡ none) × (keys' ≡ own keys now ttl i owner)
unfolding acquire_script
acquire_script-true keys keys' now ttl i owner h = ground arith

pub renew_script-true :
    (keys keys' : Keys) (now ttl : ℕ) (i owner : String)
    → renew_script keys now ttl i owner ≡ ok (true, keys')
    → ((d : ℕ) × (get_key keys now i ≡ some (owned owner d))) × (keys' ≡ own keys now ttl i owner)
unfolding renew_script
renew_script-true keys keys' now ttl i owner h = elim (Owner-cases (get_key keys now i)) [
  | inl e ↦ absurd (ground arith)
  | inr (inl e) ↦ absurd (ground arith)
  | inr (inr (other, d, e)) ↦ elim (Bool-cases (str_eq other owner)) [
    | inl same ↦
        let q : other ≡ owner = (str_eq_iff other owner).0 same in ((d, rw (e, q)), ground arith)
    | inr other_owner ↦ absurd (ground arith)
  ]
]

pub get_key-none :
    (keys : Keys) (now d : ℕ) (i owner : String)
    → get_key keys now i ≡ none
    → lookup i keys.owners ≡ some (owned owner d)
    → d ≤ now
unfolding get_key
get_key-none keys now d i owner h e = ground arith

-- A key that is found is stored, and has not run out.
pub get_key-some :
    (keys : Keys) (now d : ℕ) (i owner : String)
    → get_key keys now i ≡ some (owned owner d)
    → (lookup i keys.owners ≡ some (owned owner d)) × (now < d)
unfolding get_key
get_key-some keys now d i owner h = elim (Owner-cases (lookup i keys.owners)) [
  | inl e ↦ absurd (ground arith)
  | inr (inl e) ↦ absurd (ground arith)
  | inr (inr (other, t, e)) ↦ ground arith
]

-- The owner of a key has it, and the key was extended.
abbrev pub Extended : Settings → Keys → Keys → SessionLease → ℕ → Type 0
Extended settings keys keys' lease now =
    ((d : ℕ) × (get_key keys now lease.instance_id ≡ some (owned lease.owner d)))
    × (keys' ≡ own keys now settings.ttl_ms lease.instance_id lease.owner)

-- However `renew` ends, the keys are as they were, or extended for the exact owner.
pub renew-keys :
    (settings : Settings) (keys : Keys) (lease : SessionLease) (checked sent now received : ℕ)
    → let keys' = (renew settings keys lease checked sent now received).1 in
      (keys' ≡ keys) ⊎ Extended settings keys keys' lease now
unfolding renew renew_script
renew-keys settings keys lease checked sent now received =
    elim (Owner-cases (get_key keys now lease.instance_id)) [
      | inl e ↦ ground arith
      | inr (inl e) ↦ ground arith
      | inr (inr (owner, d, e)) ↦ elim (Bool-cases (str_eq owner lease.owner)) [
        | inl same ↦
            let q : owner ≡ lease.owner = (str_eq_iff owner lease.owner).0 same in
            elim (Bool-cases (live checked lease && not keys.index_foreign)) [
              | inl f ↦ inr ((d, rw (e, q)), ground arith)
              | inr f ↦ inl (ground arith)
            ]
        | inr other ↦ ground arith
      ]
    ]

-- `renew` returns a lease only for the exact live owner, and only until its time to live after the
-- reading of the clock before the script.
pub renew-some :
    (settings : Settings) (keys : Keys) (lease renewed : SessionLease)
    (checked sent now received : ℕ)
    → (renew settings keys lease checked sent now received).0 ≡ ok (some renewed)
    → (checked < lease.expires_at)
      × Extended settings keys (renew settings keys lease checked sent now received).1 lease now
      × (renewed ≡ record lease { expires_at = sent + settings.ttl_ms })
      × (received < renewed.expires_at)
unfolding renew renew_script live
renew-some settings keys lease renewed checked sent now received h =
    elim (Owner-cases (get_key keys now lease.instance_id)) [
      | inl e ↦ absurd (ground arith)
      | inr (inl e) ↦ absurd (ground arith)
      | inr (inr (owner, d, e)) ↦ elim (Bool-cases (str_eq owner lease.owner)) [
        | inl same ↦
            let q : owner ≡ lease.owner = (str_eq_iff owner lease.owner).0 same in
            (ground arith, ((d, rw (e, q)), ground arith), ground arith, ground arith)
        | inr other ↦ absurd (ground arith)
      ]
    ]

pub release_script-ok :
    (keys keys' : Keys) (now : ℕ) (i owner : String) (b : Bool)
    → release_script keys now i owner ≡ ok (b, keys')
    → ((b ≡ false) × (keys' ≡ keys))
      ⊎ ((b ≡ true)
          × ((d : ℕ) × (get_key keys now i ≡ some (owned owner d)))
          × (keys'.owners ≡ remove i keys.owners))
unfolding release_script
release_script-ok keys keys' now i owner b h = elim (Owner-cases (get_key keys now i)) [
  | inl e ↦ ground arith
  | inr (inl e) ↦ absurd (ground arith)
  | inr (inr (other, d, e)) ↦ elim (Bool-cases (str_eq other owner)) [
    | inl same ↦
        let q : other ≡ owner = (str_eq_iff other owner).0 same in
        elim (Bool-cases keys.index_foreign) [
          | inl f ↦ absurd (ground arith)
          | inr f ↦ inr (ground arith, (d, rw (e, q)), ground arith)
        ]
    | inr other_owner ↦ ground arith
  ]
]

-- A release that reports no error either says that its lease does not own the instance and changes
-- nothing, or found exactly its owner and takes the key away.
pub release-ok :
    (keys keys' : Keys) (lease : SessionLease) (now : ℕ) (b : Bool)
    → release keys lease now ≡ ok (b, keys')
    → ((b ≡ false) × (keys' ≡ keys))
      ⊎ ((b ≡ true)
          × ((d : ℕ) × (get_key keys now lease.instance_id ≡ some (owned lease.owner d)))
          × (keys'.owners ≡ remove lease.instance_id keys.owners))
unfolding release
release-ok keys keys' lease now b h =
    release_script-ok keys keys' now lease.instance_id lease.owner b h
