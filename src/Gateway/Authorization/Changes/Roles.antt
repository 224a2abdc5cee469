-- ===== src/Gateway/Authorization/Changes/Roles.antt =====
-- What the changes of roles do to the permissions that agents have through them.
use mas_framework.Common.{
  ◌≡◌, refl, inl, inr, Bool, ◌&&◌, ◌||◌, List, [], ◌∷◌, String, str_eq, str_eq_iff, arith,
  Bool-cases,
}
use mas_framework.Common.Dict.{Dict}
use mas_framework.Common.Sets.{member, sadd, srem, any_of, any_of-intro, member-srem, Distinct}
use mas_framework.Gateway.Authorization.{Acl, smembers}
use mas_framework.Gateway.Authorization.Glob.{matches_permission}
use mas_framework.Gateway.Authorization.Snapshot.{has_permission}
use mas_framework.Gateway.Authorization.Changes.{
  add_to, remove_from, assign_role, unassign_role, add_role_permission,
}
use mas_framework.Gateway.Authorization.Changes.Effects.{smembers-put_set}

any_of-sadd :
    (p : String → Bool) (x : String) (s : List String) → any_of p (sadd x s) ≡ (p x || any_of p s)
unfolding sadd any_of
any_of-sadd p x s = elim (Bool-cases (member x s)) [
  | inl m ↦
      rw m (elim (Bool-cases (p x)) [ inl h ↦ rw (h) (any_of-intro p x s m h) | inr h ↦ rw h ])
  | inr m ↦ rw m
]

-- An assignment gives exactly its agent the permissions of the role, and takes none away.
pub has_permission-assign_role :
    (acl : Acl) (agent role sender required : String)
    → has_permission (assign_role acl agent role) sender required ≡ (
        has_permission acl sender required
        || (str_eq agent sender
            && any_of (matches_permission required) (smembers role acl.role_permissions)))
unfolding has_permission assign_role add_to
has_permission-assign_role acl agent role sender required = ground (
  arith,
  smembers-put_set agent sender (sadd role (smembers agent acl.roles)) acl.roles,
  str_eq_iff agent sender,
  any_of-sadd (λ r. any_of (matches_permission required) (smembers r acl.role_permissions)) role
      (smembers agent acl.roles),
)

any_of-add_to :
    (p : String → Bool) (key x name : String) (d : Dict (List String))
    → any_of p (smembers name (add_to key x d))
      ≡ (any_of p (smembers name d) || (str_eq name key && p x))
unfolding add_to
any_of-add_to p key x name d =
    rw (smembers-put_set key name (sadd x (smembers key d)) d)
      (ground (arith, any_of-sadd p x (smembers key d), str_eq_iff key name, str_eq_iff name key))

any_of-added :
    (p : String → Bool) (role permission : String) (d : Dict (List String)) (roles : List String)
    → any_of (λ r. any_of p (smembers r (add_to role permission d))) roles
      ≡ (any_of (λ r. any_of p (smembers r d)) roles || (member role roles && p permission))
unfolding any_of member
any_of-added p role permission d [] = refl
any_of-added p role permission d (r ∷ roles) =
    ground (arith, any_of-added p role permission d roles, any_of-add_to p role permission r d)

-- A permission that is added to a role reaches exactly the agents that have the role.
pub has_permission-add_role_permission :
    (acl : Acl) (role permission sender required : String)
    → has_permission (add_role_permission acl role permission) sender required ≡ (
        has_permission acl sender required
        || (member role (smembers sender acl.roles) && matches_permission required permission))
unfolding has_permission add_role_permission
has_permission-add_role_permission acl role permission sender required =
    any_of-added (matches_permission required) role permission acl.role_permissions
      (smembers sender acl.roles)

sadd-Distinct : (x : String) (s : List String) → Distinct s → Distinct (sadd x s)
unfolding sadd
sadd-Distinct x s d = ground arith

srem-Distinct : (x : String) (s : List String) → Distinct s → Distinct (srem x s)
unfolding srem
srem-Distinct x [] d = tt
srem-Distinct x (y ∷ s) d = ground (arith, srem-Distinct x s d.1, member-srem x y s)

-- Assigning and withdrawing roles keeps every agent's roles a set.
pub roles-Distinct :
    (acl : Acl) (agent role name : String)
    → Distinct (smembers agent acl.roles)
    → Distinct (smembers name acl.roles)
    → Distinct (smembers name (assign_role acl agent role).roles)
      × Distinct (smembers name (unassign_role acl agent role).roles)
unfolding assign_role unassign_role add_to remove_from
roles-Distinct acl agent role name d e = (
  rw (smembers-put_set agent name (sadd role (smembers agent acl.roles)) acl.roles)
      (ground (arith, sadd-Distinct role (smembers agent acl.roles) d)),
  rw (smembers-put_set agent name (srem role (smembers agent acl.roles)) acl.roles)
      (ground (arith, srem-Distinct role (smembers agent acl.roles) d)),
)
