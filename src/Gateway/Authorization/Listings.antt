-- ===== src/Gateway/Authorization/Listings.antt =====
-- What the authorization module reports of its sets, and the check of roles alone.
use Prim.Native.String.{compare}
use text.Mathlib.Text.{is_le}
use mas_framework.Common.{Bool, List, [], ◌∷◌, String, if◌then◌else◌}
use mas_framework.Common.Sets.{any_of}
use mas_framework.Common.Results.{Result, ok, err}
use mas_framework.Gateway.Authorization.{
  Acl, smembers, read_roles, Error, authorization_changed_during_read, Hints, remember_role_hint,
}
use mas_framework.Gateway.Authorization.Glob.{matches_permission}

unfoldable pub insert_text : String → List String → List String
insert_text new [] = new ∷ []
insert_text new (x ∷ rest) =
    let below = insert_text new rest in if is_le (compare new x) then new ∷ x ∷ rest else x ∷ below

-- sorted
unfoldable pub sorted : List String → List String
sorted [] = []
sorted (x ∷ rest) = insert_text x (sorted rest)

-- The allowed and the blocked targets.
pub get_permissions : Acl → String → List String × List String
get_permissions acl agent =
    (sorted (smembers agent acl.allowed), sorted (smembers agent acl.blocked))

pub get_role_permissions : Acl → String → List String
get_role_permissions acl role = sorted (smembers role acl.role_permissions)

pub get_agent_roles : Acl → String → List String
get_agent_roles acl agent = sorted (smembers agent acl.roles)

-- The attempts of `check_rbac`, each of the keys as they are then.
pub rbac_attempts : List Acl → String → String → List String → Hints → Result Error Bool × Hints
rbac_attempts [] agent required roles hints = (err authorization_changed_during_read, hints)
rbac_attempts (acl ∷ later) agent required roles hints =
    let s = read_roles acl agent roles in
    let hints' = remember_role_hint hints agent s.roles in
    let again = rbac_attempts later agent required s.roles hints' in
    if s.unchanged then (ok (any_of (matches_permission required) s.permissions), hints') else again

pub check_rbac : Acl → Acl → Acl → Acl → String → String → Hints → Result Error Bool × Hints
check_rbac first second third fourth agent required hints =
    rbac_attempts (first ∷ second ∷ third ∷ fourth ∷ []) agent required (smembers agent hints) hints
