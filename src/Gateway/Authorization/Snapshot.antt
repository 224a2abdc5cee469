-- ===== src/Gateway/Authorization/Snapshot.antt =====
-- The decision against its specification: hints and retries never change who is authorized.
use mas_framework.Common.{
  ℕ, ◌==◌, ◌≡◌, refl, ◌⊎◌, inl, inr, Bool, true, false, not, ◌&&◌, ◌||◌, List, [], ◌∷◌, String,
  str_eq, str_eq_iff, arith, length, Bool-cases, ==_iff,
}
use mas_framework.Common.Sets.{
  member, any_of, any_of-append, any_of-Within, Within, Within-antisymm, Distinct,
}
use mas_framework.Common.Results.{ok}
use mas_framework.Gateway.Authorization.{
  Acl, AccessSnapshot, smembers, all_in, permissions_of, read_roles, online, access_script, Hints,
  remember_role_hint, attempts, granted,
}
use mas_framework.Gateway.Authorization.Glob.{matches_permission}

-- The agent has a role with a permission that matches.
unfoldable pub has_permission : Acl → String → String → Bool
has_permission acl agent required =
    any_of (λ role. any_of (matches_permission required) (smembers role acl.role_permissions))
      (smembers agent acl.roles)

-- Who may send to whom, as the class's documentation states it: the target is connected and not
-- blocked, and the sender is allowed every target or this one, or has a role that permits it.
unfoldable pub permits : Acl → ℕ → Bool → String → String → String → Bool
permits acl now enable_rbac sender target required =
    online now (smembers target acl.sessions)
    && not (member target (smembers sender acl.blocked))
    && (member "*" (smembers sender acl.allowed)
        || member target (smembers sender acl.allowed)
        || (enable_rbac && has_permission acl sender required))

Bool-ext : (a b : Bool) → (a ≡ true → b ≡ true) → (b ≡ true → a ≡ true) → a ≡ b
Bool-ext a b f g = ground arith

all_in-Within : (xs ys : List String) → all_in xs ys ≡ true → Within xs ys
unfolding all_in member
all_in-Within [] ys h x m = cc
all_in-Within (z ∷ xs) ys h x m = elim (Bool-cases (str_eq z x)) [
  | inl e ↦ let q : z ≡ x = (str_eq_iff z x).0 e in rw (← q) (ground arith)
  | inr n ↦ all_in-Within xs ys (ground arith) x (ground arith)
]

any_of-permissions_of :
    (p : String → Bool) (acl : Acl) (roles : List String)
    → any_of p (permissions_of acl roles)
      ≡ any_of (λ role. any_of p (smembers role acl.role_permissions)) roles
unfolding permissions_of any_of
any_of-permissions_of p acl [] = refl
any_of-permissions_of p acl (role ∷ rest) = rw (
  any_of-append p (smembers role acl.role_permissions) (permissions_of acl rest),
  any_of-permissions_of p acl rest,
)

length-zero : (xs : List String) → length xs ≡ 0 → xs ≡ []
length-zero [] h = refl
length-zero (x ∷ xs) h = absurd (omega arith)

-- A hint that passes the script's comparison holds the same roles.
any_of-hinted :
    (p : String → Bool) (roles hinted : List String)
    → Distinct roles
    → length roles ≡ length hinted
    → all_in roles hinted ≡ true
    → any_of p hinted ≡ any_of p roles
any_of-hinted p roles hinted d e h =
    let w = all_in-Within roles hinted h in
    Bool-ext (any_of p hinted) (any_of p roles)
      (any_of-Within p hinted roles (Within-antisymm roles hinted d w (omega arith)))
      (any_of-Within p roles hinted w)

read_roles-granted :
    (acl : Acl) (agent required : String) (hinted : List String)
    → Distinct (smembers agent acl.roles)
    → (read_roles acl agent hinted).unchanged ≡ true
    → any_of (matches_permission required) (read_roles acl agent hinted).permissions
      ≡ has_permission acl agent required
unfolding read_roles has_permission
read_roles-granted acl agent required hinted d h =
    elim (Bool-cases (length (smembers agent acl.roles) == 0)) [
      | inl e ↦
          let none_left = length-zero (smembers agent acl.roles) ((==_iff _ 0).0 e) in
          unfold any_of in ground (arith, none_left)
      | inr n ↦
          let p = matches_permission required in
          let q = λ (role : String).
            any_of (matches_permission required) (smembers role acl.role_permissions) in
          ground (
            arith,
            any_of-permissions_of (matches_permission required) acl hinted,
            any_of-hinted q (smembers agent acl.roles) hinted d,
          )
    ]

no_grant : (required : String) → any_of (matches_permission required) [] ≡ false
unfolding any_of
no_grant required = refl

-- Whatever roles are hinted, a snapshot that the script calls unchanged grants what is permitted.
pub granted-access_script :
    (acl : Acl) (now : ℕ) (sender target required : String) (rbac : Bool) (hinted : List String)
    → Distinct (smembers sender acl.roles)
    → (access_script acl now sender target rbac hinted).unchanged ≡ true
    → granted required (access_script acl now sender target rbac hinted)
      ≡ permits acl now rbac sender target required
unfolding granted access_script permits
granted-access_script acl now sender target required rbac hinted d h =
    ground (arith, read_roles-granted acl sender required hinted d, no_grant required)

all_in_refl : (xs ys : List String) → Within xs ys → all_in xs ys ≡ true
unfolding all_in
all_in_refl [] ys w = refl
all_in_refl (x ∷ xs) ys w = rw (
  w x (unfold member in ground (arith, str_eq_iff x x)),
  all_in_refl xs ys (λ y m. w y (unfold member in ground arith)),
)

-- The roles that an attempt finds are the hint with which the next one is unchanged.
pub unchanged_with_roles :
    (acl : Acl) (now : ℕ) (sender target : String) (rbac : Bool)
    → (access_script acl now sender target rbac (smembers sender acl.roles)).unchanged ≡ true
unfolding access_script read_roles
unchanged_with_roles acl now sender target rbac =
    ground (arith, all_in_refl (smembers sender acl.roles) (smembers sender acl.roles) (λ x m. m))

pub roles_of_changed :
    (acl : Acl) (now : ℕ) (sender target : String) (rbac : Bool) (hinted : List String)
    → (access_script acl now sender target rbac hinted).unchanged ≡ false
    → (access_script acl now sender target rbac hinted).roles ≡ smembers sender acl.roles
unfolding access_script read_roles
roles_of_changed acl now sender target rbac hinted h = ground arith

abbrev pub Among : Acl × ℕ → List (Acl × ℕ) → Type 0
Among v [] = ⊥
Among v (w ∷ ws) = (v ≡ w) ⊎ Among v ws

-- The answer is one that the script gave, unchanged, at one of the attempts.
abbrev pub AnsweredBy : List (Acl × ℕ) → String → String → Bool → AccessSnapshot → Type 0
AnsweredBy vs sender target rbac s =
    (v : Acl × ℕ) × (hinted : List String) × Among v vs
    × (access_script v.0 v.1 sender target rbac hinted ≡ s)
    × (s.unchanged ≡ true)

pub attempts-AnsweredBy :
    (vs : List (Acl × ℕ)) (sender target : String) (rbac : Bool) (roles : List String)
    (hints : Hints) (s : AccessSnapshot)
    → (attempts vs sender target rbac roles hints).0 ≡ ok s
    → AnsweredBy vs sender target rbac s
unfolding attempts
attempts-AnsweredBy [] sender target rbac roles hints s h = absurd (ground arith)
attempts-AnsweredBy ((acl, now) ∷ vs) sender target rbac roles hints s h =
    elim (Bool-cases (access_script acl now sender target rbac roles).unchanged) [
      | inl e ↦ ((acl, now), roles, inl refl, ground arith, ground arith)
      | inr n ↦
          let t = access_script acl now sender target rbac roles in
          let (v, hinted, m, q, u) =
            attempts-AnsweredBy vs sender target rbac t.roles
              (remember_role_hint hints sender t.roles) s (ground arith) in
          (v, hinted, inr m, q, u)
    ]
