-- ===== src/Gateway/Authorization.antt =====
-- packages/mas-gateway/src/mas_gateway/authorization.py: allow lists, block lists and roles in Redis,
-- the Lua script that reads a consistent snapshot of them, and the decision.
pub mod Glob
pub mod Snapshot
pub mod Decision
pub mod Changes
pub mod Hints
pub mod Listings
mod Examples
use Prim.Native.String.{count, ◌++◌ as str_append}
use Glob.{matches_permission}
use mas_framework.Common.{
  ℕ, ◌+◌, ◌==◌, ltb, Bool, true, false, not, ◌&&◌, ◌||◌, Option, none, some, List, [], ◌∷◌, ◌++◌,
  String, str_eq, if◌then◌else◌, length,
}
use mas_framework.Common.Dict.{Dict, lookup, insert, remove}
use mas_framework.Common.Sets.{member, sadd, srem, any_of}
use mas_framework.Common.Results.{Result, ok, err, ◌>>=◌}

-- The keys that the module reads and writes. `sessions` holds the deadlines at
-- `mas.sessions:<agent>`.
pub record Acl : Type 0 where
  pub sessions : Dict (List ℕ)
  pub allowed : Dict (List String)
  pub blocked : Dict (List String)
  pub roles : Dict (List String)
  pub role_data : Dict (Dict String)
  pub role_permissions : Dict (List String)

-- SMEMBERS of a key; a missing key is the empty set.
pub smembers {ℓ} : {A : Type ℓ} → String → Dict (List A) → List A
smembers key d = elim (lookup key d) [ none ↦ [] | some s ↦ s ]

pub record RoleSnapshot : Type 0 where
  pub roles : List String
  pub permissions : List String
  pub unchanged : Bool

pub record AccessSnapshot : Type 0 where
  pub accessible : Bool
  pub acl_allowed : Bool
  pub snapshot : RoleSnapshot
  pub open snapshot use *

abbrev no_roles : RoleSnapshot
no_roles = record { roles = []; permissions = []; unchanged = true }

pub all_in : List String → List String → Bool
all_in [] expected = true
all_in (role ∷ rest) expected = member role expected && all_in rest expected

pub permissions_of : Acl → List String → List String
permissions_of acl [] = []
permissions_of acl (role ∷ rest) = smembers role acl.role_permissions ++ permissions_of acl rest

-- `role_permissions` of the scripts: the permissions of the hinted roles, if they are the roles.
pub read_roles : Acl → String → List String → RoleSnapshot
read_roles acl agent hinted =
    let roles = smembers agent acl.roles in
    let changed : RoleSnapshot = record { roles = roles; permissions = []; unchanged = false } in
    if length roles == 0
    then no_roles
    else if not (length roles == length hinted)
    then changed
    else if all_in roles hinted
    then record { roles = roles; permissions = permissions_of acl hinted; unchanged = true }
    else changed

-- ZCOUNT mas.sessions:<target> (now +inf is not zero.
pub online : ℕ → List ℕ → Bool
online now deadlines = any_of (λ deadline. ltb now deadline) deadlines

abbrev answer : Bool → Bool → RoleSnapshot → AccessSnapshot
answer accessible acl_allowed roles = record {
  accessible = accessible;
  acl_allowed = acl_allowed;
  snapshot = roles;
}

-- _ACCESS_SCRIPT
pub access_script : Acl → ℕ → String → String → Bool → List String → AccessSnapshot
access_script acl now sender target include_rbac hinted =
    let allowed = smembers sender acl.allowed in
    if not (online now (smembers target acl.sessions))
    then answer false false no_roles
    else if member target (smembers sender acl.blocked)
    then answer false false no_roles
    else if member "*" allowed || member target allowed
    then answer true true no_roles
    else if not include_rbac
    then answer true false no_roles
    else answer true false (read_roles acl sender hinted)

pub data Error : Type 0 where
  authorization_changed_during_read : Error

-- The role hints, oldest first, and how many of them are kept.
abbrev pub Hints : Type 0
Hints = Dict (List String)

abbrev pub max_hints : ℕ
max_hints = 2048

pub text_length : List String → ℕ
text_length [] = 0
text_length (role ∷ rest) = count role + text_length rest

-- OrderedDict.popitem(last=False)
pub pop_oldest : Hints → Hints
pop_oldest [] = []
pop_oldest (h ∷ rest) = rest

pub remember_role_hint : Hints → String → List String → Hints
unfolding text_length pop_oldest
remember_role_hint hints agent roles =
    if ltb 64 (length roles) || ltb 4096 (count agent + text_length roles)
    then remove agent hints
    else let kept = remove agent hints ++ (agent, roles) ∷ [] in
      if ltb max_hints (length kept) then pop_oldest kept else kept

-- The attempts to read a snapshot, each of the keys as they are then and at its own time.
pub attempts :
    List (Acl × ℕ)
    → String
    → String
    → Bool
    → List String
    → Hints
    → Result Error AccessSnapshot × Hints
attempts [] sender target include_rbac roles hints = (err authorization_changed_during_read, hints)
attempts ((acl, now) ∷ later) sender target include_rbac roles hints =
    let s = access_script acl now sender target include_rbac roles in
    let hints' = remember_role_hint hints sender s.roles in
    let again = attempts later sender target include_rbac s.roles hints' in
    if s.unchanged then (ok s, hints') else again

-- What Redis holds at each of the four attempts.
pub record Views : Type 0 where
  pub first : Acl × ℕ
  pub second : Acl × ℕ
  pub third : Acl × ℕ
  pub fourth : Acl × ℕ

abbrev pub views : Views → List (Acl × ℕ)
views v = v.first ∷ v.second ∷ v.third ∷ v.fourth ∷ []

pub access_snapshot : Views → String → String → Bool → Hints → Result Error AccessSnapshot × Hints
access_snapshot v sender target include_rbac hints =
    attempts (views v) sender target include_rbac (smembers sender hints) hints

pub permission : String → String → String
permission action target = str_append action (str_append ":" target)

-- What a snapshot grants.
pub granted : String → AccessSnapshot → Bool
granted required s =
    s.accessible && (s.acl_allowed || any_of (matches_permission required) s.permissions)

pub authorize : Views → Bool → String → String → String → Hints → Result Error Bool × Hints
authorize v enable_rbac sender target action hints =
    let (read, hints') = access_snapshot v sender target enable_rbac hints in
    (read >>= λ s. ok (granted (permission action target) s), hints')

pub check_acl : Views → String → String → Hints → Result Error Bool × Hints
check_acl v sender target hints =
    let (read, hints') = access_snapshot v sender target false hints in
    (read >>= λ s. ok (s.accessible && s.acl_allowed), hints')
