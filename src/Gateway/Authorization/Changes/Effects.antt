-- ===== src/Gateway/Authorization/Changes/Effects.antt =====
-- What each change does to who may send to whom.
use mas_framework.Common.{
  ℕ, ◌≡◌, refl, inl, inr, Bool, true, false, Bool-cases, map, not, ◌&&◌, ◌||◌, List, [], ◌∷◌,
  String, str_eq, str_eq_iff, arith, if◌then◌else◌,
}
use mas_framework.Common.Dict.{Dict, lookup-insert, lookup-remove}
use mas_framework.Common.Sets.{member, sadd, srem, member-sadd, member-srem}
use mas_framework.Gateway.Authorization.{
  Acl, AccessSnapshot, smembers, online, access_script, read_roles, permissions_of, Hints,
  remember_role_hint, attempts, Views, views, access_snapshot, granted, authorize,
}
use mas_framework.Common.Results.{ok}
use mas_framework.Gateway.Authorization.Snapshot.{permits, has_permission}
use mas_framework.Gateway.Authorization.Changes.{
  put_set, add_to, remove_from, add_permission, set_blocked, block_target, unblock_target,
}

pub smembers-put_set {ℓ} :
    {A : Type ℓ} (key name : String) (s : List A) (d : Dict (List A))
    → smembers name (put_set key s d) ≡ (if str_eq key name then s else smembers name d)
unfolding smembers put_set
smembers-put_set key name [] d = ground (arith, lookup-remove key name d)
smembers-put_set key name (x ∷ s) d = ground (arith, lookup-insert key name (x ∷ s) d)

member-add_to :
    (key x name y : String) (d : Dict (List String))
    → member y (smembers name (add_to key x d))
      ≡ ((str_eq key name && str_eq x y) || member y (smembers name d))
unfolding add_to
member-add_to key x name y d = ground (
  arith,
  smembers-put_set key name (sadd x (smembers key d)) d,
  member-sadd x y (smembers key d),
  str_eq_iff key name,
)

pub member-remove_from :
    (key x name y : String) (d : Dict (List String))
    → member y (smembers name (remove_from key x d))
      ≡ (not (str_eq key name && str_eq x y) && member y (smembers name d))
unfolding remove_from
member-remove_from key x name y d = ground (
  arith,
  smembers-put_set key name (srem x (smembers key d)) d,
  member-srem x y (smembers key d),
  str_eq_iff key name,
)

-- The answer that refuses a target.
abbrev pub refused : AccessSnapshot
refused = record {
  accessible = false;
  acl_allowed = false;
  snapshot = record { roles = []; permissions = []; unchanged = true };
}

access_script-block_target :
    (acl : Acl) (now : ℕ) (rbac : Bool) (agent target sender to : String) (hinted : List String)
    → access_script (block_target acl agent target) now sender to rbac hinted ≡ (
        if str_eq agent sender && str_eq target to
        then refused
        else access_script acl now sender to rbac hinted)
unfolding access_script block_target set_blocked read_roles permissions_of
access_script-block_target acl now rbac agent target sender to hinted =
    ground (arith, member-add_to agent target sender to acl.blocked)

-- The keys of an attempt, once the agent has blocked the target.
abbrev pub block_view : String → String → Acl × ℕ → Acl × ℕ
block_view agent target (acl, now) = (block_target acl agent target, now)

abbrev pub block_views : String → String → Views → Views
block_views agent target v = record {
  first = block_view agent target v.first;
  second = block_view agent target v.second;
  third = block_view agent target v.third;
  fourth = block_view agent target v.fourth;
}

attempts-other :
    (agent target sender to : String) (rbac : Bool) (vs : List (Acl × ℕ)) (roles : List String)
    (hints : Hints)
    → (str_eq agent sender && str_eq target to) ≡ false
    → attempts (map (block_view agent target) vs) sender to rbac roles hints
      ≡ attempts vs sender to rbac roles hints
unfolding attempts
attempts-other agent target sender to rbac [] roles hints h = refl
attempts-other agent target sender to rbac ((acl, now) ∷ vs) roles hints h =
    let s = access_script acl now sender to rbac roles in
    let q : access_script (block_target acl agent target) now sender to rbac roles ≡ s =
      ground (arith, access_script-block_target acl now rbac agent target sender to roles) in
    rw
      (
        q,
        attempts-other agent target sender to rbac vs s.roles
            (remember_role_hint hints sender s.roles) h,
      )
      refl

-- Where, at each attempt, an agent has blocked a target in the keys, `authorize` refuses it that
-- target at the first attempt, and answers any other pair as it does without the block.
pub authorize-block_target :
    (v : Views) (rbac : Bool) (agent target sender to action : String) (hints : Hints)
    → authorize (block_views agent target v) rbac sender to action hints ≡ (
        if str_eq agent sender && str_eq target to
        then (ok false, remember_role_hint hints sender [])
        else authorize v rbac sender to action hints)
unfolding authorize access_snapshot
authorize-block_target v rbac agent target sender to action hints =
    elim (Bool-cases (str_eq agent sender && str_eq target to)) [
      | inl same ↦
          let q =
            access_script-block_target v.first.0 v.first.1 rbac agent target sender to
              (smembers sender hints) in
          unfold attempts granted in ground (arith, q, same)
      | inr other ↦
          let q =
            attempts-other agent target sender to rbac (views v) (smembers sender hints) hints
              other in
          ground (arith, q, other)
    ]

module _ (acl : Acl) (now : ℕ) (rbac : Bool) (agent target sender to required : String) where
  -- A permission lets exactly its agent send to its target, or to every target if it is the
  -- wildcard, where the target is connected and not blocked; all else is as before.
  pub permits-add_permission :
      permits (add_permission acl agent target) now rbac sender to required ≡ (
        permits acl now rbac sender to required
        || (str_eq agent sender
            && (str_eq target "*" || str_eq target to)
            && online now (smembers to acl.sessions)
            && not (member to (smembers sender acl.blocked))))
  unfolding permits add_permission has_permission
  permits-add_permission = ground (
    arith,
    member-add_to agent target sender "*" acl.allowed,
    member-add_to agent target sender to acl.allowed,
  )

  -- Once it is unblocked, a target may be sent to exactly if it may be without any block of it.
  pub permits-unblock_target :
      permits
        (unblock_target (block_target acl agent target) agent target)
        now
        rbac
        sender
        to
        required
      ≡ permits (unblock_target acl agent target) now rbac sender to required
  unfolding permits block_target unblock_target set_blocked has_permission
  permits-unblock_target = ground (
    arith,
    member-add_to agent target sender to acl.blocked,
    member-remove_from agent target sender to acl.blocked,
    member-remove_from agent target sender to (add_to agent target acl.blocked),
  )
