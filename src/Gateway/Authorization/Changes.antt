-- ===== src/Gateway/Authorization/Changes.antt =====
-- The methods of authorization.py that change allow lists, block lists and roles.
pub mod Effects
pub mod Roles
use mas_framework.Common.{
  Bool, true, false, Option, none, some, List, [], ◌∷◌, String, if◌then◌else◌,
}
use mas_framework.Common.Dict.{Dict, lookup, insert, remove}
use mas_framework.Common.Sets.{member, sadd, srem}
use mas_framework.Gateway.Authorization.{Acl, smembers}

-- A set key after SADD or SREM: an empty set is no key.
unfoldable pub put_set {ℓ} : {A : Type ℓ} → String → List A → Dict (List A) → Dict (List A)
put_set key [] d = remove key d
put_set key (x ∷ s) d = insert key (x ∷ s) d

pub add_to : String → String → Dict (List String) → Dict (List String)
add_to key x d = put_set key (sadd x (smembers key d)) d

pub remove_from : String → String → Dict (List String) → Dict (List String)
remove_from key x d = put_set key (srem x (smembers key d)) d

-- SADD of several members to a set.
pub sadd_all : List String → List String → List String
sadd_all [] s = s
sadd_all (x ∷ xs) s = sadd x (sadd_all xs s)

-- DEL, and SADD where there are targets; None changes nothing.
pub replace_set : String → Option (List String) → Dict (List String) → Dict (List String)
replace_set key none d = d
replace_set key (some targets) d = put_set key (sadd_all targets []) d

pub set_permissions : Acl → String → Option (List String) → Option (List String) → Acl
set_permissions acl agent allowed_targets blocked_targets = record acl {
  allowed = replace_set agent allowed_targets acl.allowed;
  blocked = replace_set agent blocked_targets acl.blocked;
}

pub add_permission : Acl → String → String → Acl
add_permission acl agent target = record acl { allowed = add_to agent target acl.allowed }

pub remove_permission : Acl → String → String → Acl
remove_permission acl agent target = record acl { allowed = remove_from agent target acl.allowed }

pub set_blocked : Acl → String → String → Bool → Acl
set_blocked acl agent target blocked = record acl {
  blocked =
      if blocked then add_to agent target acl.blocked else remove_from agent target acl.blocked;
}

pub block_target : Acl → String → String → Acl
block_target acl agent target = set_blocked acl agent target true

pub unblock_target : Acl → String → String → Acl
unblock_target acl agent target = set_blocked acl agent target false

pub create_role : Acl → String → String → Option (List String) → Acl
create_role acl role description permissions = record acl {
  role_data =
      insert role
        (insert "description" description (
          insert "name" role (elim (lookup role acl.role_data) [ none ↦ [] | some data' ↦ data' ])))
        acl.role_data;
  role_permissions = elim permissions [
    | none ↦ acl.role_permissions
    | some added ↦
        put_set role (sadd_all added (smembers role acl.role_permissions)) acl.role_permissions
  ];
}

pub delete_role : Acl → String → Acl
delete_role acl role = record acl {
  role_data = remove role acl.role_data;
  role_permissions = remove role acl.role_permissions;
}

pub add_role_permission : Acl → String → String → Acl
add_role_permission acl role permission = record acl {
  role_permissions = add_to role permission acl.role_permissions;
}

pub remove_role_permission : Acl → String → String → Acl
remove_role_permission acl role permission = record acl {
  role_permissions = remove_from role permission acl.role_permissions;
}

pub assign_role : Acl → String → String → Acl
assign_role acl agent role = record acl { roles = add_to agent role acl.roles }

pub unassign_role : Acl → String → String → Acl
unassign_role acl agent role = record acl { roles = remove_from agent role acl.roles }
