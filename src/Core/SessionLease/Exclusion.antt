-- ===== src/Core/SessionLease/Exclusion.antt =====
-- The brokers that share one Redis, as a step relation: no instance has two live owners. All clocks
-- are read on one time scale, on which they run at the same rate.
use mas_framework.Common.{
  ℕ, ◌+◌, ◌≤◌, ◌<◌, ◌≡◌, sym, ◌⊎◌, inl, inr, Bool, true, false, ◌&&◌, some, List, [], ◌∷◌, String,
  str_eq, str_eq_iff, arith, Bool-cases, if◌then◌else◌,
}
use mas_framework.Common.Dict.{lookup, lookup-remove}
use mas_framework.Common.Results.{ok}
use mas_framework.Core.SessionLease.{
  Settings, SessionLease, owned, Keys, get_key, own, acquire_script, renew_script, release_script,
}
use mas_framework.Core.SessionLease.Scripts.{
  lookup-own, acquire_script-true, renew_script-true, release_script-ok, get_key-none, get_key-some,
}

-- The keys, the time, and the leases that brokers go by.
pub record World : Type 0 where
  pub now : ℕ
  pub keys : Keys
  pub held : List SessionLease

abbrev pub Held : SessionLease → List SessionLease → Type 0
Held l [] = ⊥
Held l (m ∷ rest) = (l ≡ m) ⊎ Held l rest

-- What a broker goes by once it gave up the ownership.
unfoldable pub without : String → String → List SessionLease → List SessionLease
without i owner [] = []
without i owner (l ∷ rest) =
    let others = without i owner rest in
    if str_eq l.instance_id i && str_eq l.owner owner then others else l ∷ others

-- One script that Redis runs, or the passing of time. `acquire` and `renew` take the local clock
-- before their script runs; a broker that crashes or drops a lease tells nobody.
pub data Step (settings : Settings) : World → World → Type 0 where
  pass : (w : World) (later : ℕ) → w.now ≤ later → Step settings w (record w { now = later })
  take :
      (w : World) (keys' : Keys) (lease : SessionLease) (sent : ℕ)
      → sent ≤ w.now
      → lease.expires_at ≡ sent + settings.ttl_ms
      → acquire_script w.keys w.now settings.ttl_ms lease.instance_id lease.owner ≡ ok (true, keys')
      → Step settings w (record { now = w.now; keys = keys'; held = lease ∷ w.held })
  extend :
      (w : World) (keys' : Keys) (lease : SessionLease) (sent : ℕ)
      → sent ≤ w.now
      → lease.expires_at ≡ sent + settings.ttl_ms
      → renew_script w.keys w.now settings.ttl_ms lease.instance_id lease.owner ≡ ok (true, keys')
      → Step settings w (record { now = w.now; keys = keys'; held = lease ∷ w.held })
  give_up :
      (w : World) (keys' : Keys) (i owner : String) (b : Bool)
      → release_script w.keys w.now i owner ≡ ok (b, keys')
      → Step settings w (record { now = w.now; keys = keys'; held = without i owner w.held })
  forget :
      (w : World) (i owner : String) → Step settings w (record w { held = without i owner w.held })

pub data Steps (settings : Settings) : World → World → Type 0 where
  done : (w : World) → Steps settings w w
  after : (u v w : World) → Steps settings u v → Step settings v w → Steps settings u w

-- A live lease is backed by the key of its instance, at least until it ends.
record Backed (settings : Settings) (w : World) (l : SessionLease) : Type 0 where
  soon : l.expires_at ≤ w.now + settings.ttl_ms
  key :
      w.now < l.expires_at
      → (d : ℕ) × (lookup l.instance_id w.keys.owners ≡ some (owned l.owner d)) × (l.expires_at ≤ d)

abbrev Safe : Settings → World → Type 0
Safe settings w = (l : SessionLease) → Held l w.held → Backed settings w l

Held-without :
    (i owner : String) (l : SessionLease) (held : List SessionLease)
    → Held l (without i owner held)
    → Held l held × ((str_eq l.instance_id i && str_eq l.owner owner) ≡ false)
unfolding without
Held-without i owner l [] h = elim h [ ]
Held-without i owner l (m ∷ rest) h =
    elim (Bool-cases (str_eq m.instance_id i && str_eq m.owner owner)) [
      | inl gone ↦ let below = Held-without i owner l rest (ground arith) in (inr below.0, below.1)
      | inr kept ↦
          let h' : Held l (m ∷ without i owner rest) = ground arith in
          elim h' [
            | inl e ↦ (inl e, rw e kept)
            | inr below ↦ let r = Held-without i owner l rest below in (inr r.0, r.1)
          ]
    ]

-- A key that now belongs to an owner for the whole time to live backs every lease.
own-Backed :
    (settings : Settings) (w : World) (i owner : String) (l : SessionLease)
    (held : List SessionLease)
    → Backed settings w l
    → ((d : ℕ) → w.now < d → lookup i w.keys.owners ≡ some (owned l.owner d) → owner ≡ l.owner)
    → Backed settings
        (record { now = w.now; keys = own w.keys w.now settings.ttl_ms i owner; held = held })
        l
own-Backed settings w i owner l held b mine = record {
  soon = b.soon;
  key = λ live.
      let (d, found, long) = b.key live in
      elim (Bool-cases (str_eq i l.instance_id)) [
        | inl same ↦
            let q : i ≡ l.instance_id = (str_eq_iff i l.instance_id).0 same in
            let o : owner ≡ l.owner = mine d (omega arith) (rw q found) in
            (
              w.now + settings.ttl_ms,
              ground (arith, lookup-own w.keys w.now settings.ttl_ms i owner l.instance_id, o),
              b.soon,
            )
        | inr other ↦
            (d, ground (arith, lookup-own w.keys w.now settings.ttl_ms i owner l.instance_id), long)
      ];
}

-- A lease that was just taken or extended.
new-Backed :
    (settings : Settings) (w : World) (l : SessionLease) (sent : ℕ) (held : List SessionLease)
    → sent ≤ w.now
    → l.expires_at ≡ sent + settings.ttl_ms
    → Backed settings
        (record {
          now = w.now;
          keys = own w.keys w.now settings.ttl_ms l.instance_id l.owner;
          held = held;
        })
        l
new-Backed settings w l sent held early ends = record {
  soon = omega arith;
  key = λ live. (
    w.now + settings.ttl_ms,
    ground (
      arith,
      lookup-own w.keys w.now settings.ttl_ms l.instance_id l.owner l.instance_id,
      str_eq_iff l.instance_id l.instance_id,
    ),
    omega arith,
  );
}

pass-Safe :
    (settings : Settings) (w : World) (later : ℕ)
    → w.now ≤ later
    → Safe settings w
    → Safe settings (record w { now = later })
pass-Safe settings w later on s l h =
    let b = s l h in record { soon = omega (arith, b.soon); key = λ live. b.key (omega arith) }

-- Ownership passes to `lease`, whose instance was free or its own.
owned-Safe :
    (settings : Settings) (w : World) (lease : SessionLease) (sent : ℕ)
    → sent ≤ w.now
    → lease.expires_at ≡ sent + settings.ttl_ms
    → ((owner : String) (d : ℕ)
        → w.now < d
        → lookup lease.instance_id w.keys.owners ≡ some (owned owner d)
        → lease.owner ≡ owner)
    → Safe settings w
    → Safe settings (record {
      now = w.now;
      keys = own w.keys w.now settings.ttl_ms lease.instance_id lease.owner;
      held = lease ∷ w.held;
    })
owned-Safe settings w lease sent early ends mine s l (inl e) =
    rw e (new-Backed settings w lease sent (lease ∷ w.held) early ends)
owned-Safe settings w lease sent early ends mine s l (inr h) =
    own-Backed settings w lease.instance_id lease.owner l (lease ∷ w.held) (s l h) (mine l.owner)

forget-Safe :
    (settings : Settings) (w : World) (i owner : String)
    → Safe settings w
    → Safe settings (record w { held = without i owner w.held })
forget-Safe settings w i owner s l h =
    let b = s l (Held-without i owner l w.held h).0 in record { soon = b.soon; key = b.key }

give_up-Safe :
    (settings : Settings) (w : World) (keys' : Keys) (i owner : String) (b : Bool)
    → release_script w.keys w.now i owner ≡ ok (b, keys')
    → Safe settings w
    → Safe settings (record { now = w.now; keys = keys'; held = without i owner w.held })
give_up-Safe settings w keys' i owner b ran s l h =
    let (there, apart) = Held-without i owner l w.held h in
    let backed = s l there in
    record {
      soon = backed.soon;
      key = λ live.
          let (d, found, long) = backed.key live in
          elim (release_script-ok w.keys keys' w.now i owner b ran) [
            | inl (no_one, same) ↦ (d, rw same found, long)
            | inr (gone, (t, e), removed) ↦ elim (Bool-cases (str_eq i l.instance_id)) [
              | inl at_i ↦
                  let q : i ≡ l.instance_id = (str_eq_iff i l.instance_id).0 at_i in
                  let (stored, soon) = get_key-some w.keys w.now t i owner e in
                  let found_i : lookup i w.keys.owners ≡ some (owned l.owner d) = rw q found in
                  absurd (ground (arith, str_eq_iff l.instance_id i, str_eq_iff l.owner owner))
              | inr elsewhere ↦
                  (d, ground (arith, removed, lookup-remove i l.instance_id w.keys.owners), long)
            ]
          ];
    }

Step-Safe :
    (settings : Settings) (w w' : World) → Step settings w w' → Safe settings w → Safe settings w'
Step-Safe settings _ _ (pass w later on) s = pass-Safe settings w later on s
Step-Safe settings _ _ (take w keys' lease sent early ends ran) s =
    let (free, e) =
      acquire_script-true w.keys keys' w.now settings.ttl_ms lease.instance_id lease.owner ran in
    rw e (
      owned-Safe settings w lease sent early ends
        (λ owner d soon found.
          absurd (ground (arith, get_key-none w.keys w.now d lease.instance_id owner free found)))
        s)
Step-Safe settings _ _ (extend w keys' lease sent early ends ran) s =
    let ((d', mine), e) =
      renew_script-true w.keys keys' w.now settings.ttl_ms lease.instance_id lease.owner ran in
    rw e (
      owned-Safe settings w lease sent early ends
        (λ owner d soon found.
          let (stored, long) = get_key-some w.keys w.now d' lease.instance_id lease.owner mine in
          ground arith)
        s)
Step-Safe settings _ _ (give_up w keys' i owner b ran) s =
    give_up-Safe settings w keys' i owner b ran s
Step-Safe settings _ _ (forget w i owner) s = forget-Safe settings w i owner s

Steps-Safe :
    (settings : Settings) (w w' : World) → Steps settings w w' → Safe settings w → Safe settings w'
Steps-Safe settings _ _ (done w) s = s
Steps-Safe settings _ _ (after u v w before last) s =
    Step-Safe settings v w last (Steps-Safe settings u v before s)

Held-none : (l : SessionLease) (held : List SessionLease) → held ≡ [] → Held l held → ⊥
Held-none l [] e h = h
Held-none l (m ∷ rest) e h = absurd (ground arith)

-- Whatever the brokers do from a world where nobody goes by a lease, two leases of one instance
-- that brokers go by and that are live have the same owner, which Redis names for the instance.
pub Steps-exclusive :
    (settings : Settings) (start w : World) (l m : SessionLease)
    → start.held ≡ []
    → Steps settings start w
    → Held l w.held
    → Held m w.held
    → w.now < l.expires_at
    → w.now < m.expires_at
    → l.instance_id ≡ m.instance_id
    → (l.owner ≡ m.owner)
      × ((d : ℕ) × (get_key w.keys w.now l.instance_id ≡ some (owned l.owner d)))
unfolding get_key
Steps-exclusive settings start w l m none_held steps hl hm live_l live_m same =
    let safe =
      Steps-Safe settings start w steps (λ k h. absurd (Held-none k start.held none_held h)) in
    let (d, found, long) = (safe l hl).key live_l in
    let (d', found', long') = (safe m hm).key live_m in
    let found_l : lookup m.instance_id w.keys.owners ≡ some (owned l.owner d) =
      rw (sym same) found in
    (ground arith, (d, ground arith))
