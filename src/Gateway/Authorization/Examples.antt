-- ===== src/Gateway/Authorization/Examples.antt =====
-- The theorems on authorization at concrete keys, and tests of its definitions.
use mas_framework.Common.{
  ℕ, ◌≤◌, ◌≡◌, refl, inl, inr, Bool, true, false, ◌&&◌, ◌||◌, [], ◌∷◌, str_eq, arith, length,
  if◌then◌else◌,
}
use mas_framework.Common.Dict.{lookup}
use mas_framework.Common.Sets.{member, any_of, Distinct}
use mas_framework.Common.Results.{ok}
use mas_framework.Gateway.Authorization.{
  Acl, smembers, all_in, permissions_of, read_roles, online, access_script, remember_role_hint,
  attempts, Views, views, access_snapshot, granted, permission, authorize, max_hints,
}
use mas_framework.Gateway.Authorization.Listings.{sorted, insert_text}
use mas_framework.Gateway.Authorization.Glob.{
  codes, matches_permission, glob, any_run, literal, at_end,
}
use mas_framework.Gateway.Authorization.Glob.Meaning.{Glob, matches_permission-Glob}
use mas_framework.Gateway.Authorization.Snapshot.{permits, has_permission, Among}
use mas_framework.Gateway.Authorization.Decision.{authorize-permits, authorize_settles}
use mas_framework.Gateway.Authorization.Hints.{authorize-hints_bound}
use mas_framework.Gateway.Authorization.Changes.{assign_role}
use mas_framework.Gateway.Authorization.Changes.Effects.{block_views, authorize-block_target}
use mas_framework.Gateway.Authorization.Changes.Roles.{has_permission-assign_role}

-- The agent `router` has the role of an operator, who may send to every desk; `desk_1` is connected
-- until 100.
abbrev keys : Acl
keys = record {
  sessions = ("desk_1", 100 ∷ []) ∷ [];
  allowed = [];
  blocked = [];
  roles = ("router", "operator" ∷ []) ∷ [];
  role_data = [];
  role_permissions = ("operator", "send:desk_*" ∷ []) ∷ [];
}

abbrev still : Views
still = record { first = (keys, 7); second = (keys, 8); third = (keys, 9); fourth = (keys, 10) }

send_to_desk : (authorize still true "router" "desk_1" "send" []).0 ≡ ok true
unfolding authorize access_snapshot attempts access_script read_roles online smembers lookup member
    any_of all_in permissions_of granted permission matches_permission glob any_run literal at_end
    remember_role_hint
send_to_desk = refl

send_without_rbac : (authorize still false "router" "desk_1" "send" []).0 ≡ ok false
unfolding authorize access_snapshot attempts access_script read_roles online smembers lookup member
    any_of all_in permissions_of granted permission matches_permission glob any_run literal at_end
    remember_role_hint
send_without_rbac = refl

one_role : (w : Acl × ℕ) → Among w (views still) → Distinct (smembers "router" w.0.roles)
unfolding smembers lookup member
one_role w (inl e) = rw e (refl, tt)
one_role w (inr (inl e)) = rw e (refl, tt)
one_role w (inr (inr (inl e))) = rw e (refl, tt)
one_role w (inr (inr (inr (inl e)))) = rw e (refl, tt)
one_role w (inr (inr (inr (inr e)))) = absurd e

authorize-permits_example :
    (w : Acl × ℕ) × Among w (views still)
    × (permits w.0 w.1 true "router" "desk_1" (permission "send" "desk_1") ≡ true)
authorize-permits_example =
    authorize-permits still true "router" "desk_1" "send" [] true one_role send_to_desk

authorize_settles_example :
    (b : Bool) × ((authorize still true "router" "desk_1" "send" []).0 ≡ ok b)
authorize_settles_example = authorize_settles still true "router" "desk_1" "send" [] refl

authorize-hints_bound_example :
    length (authorize still true "router" "desk_1" "send" []).1 ≤ max_hints
authorize-hints_bound_example =
    authorize-hints_bound still true "router" "desk_1" "send" [] (omega arith)

matches_permission-Glob_example :
    (matches_permission "send:desk_1" "send:*" ≡ true → Glob (codes "send:*") (codes "send:desk_1"))
    × (Glob (codes "send:*") (codes "send:desk_1")
        → matches_permission "send:desk_1" "send:*" ≡ true)
matches_permission-Glob_example = matches_permission-Glob "send:desk_1" "send:*" (omega arith)

authorize-block_target_example :
    authorize (block_views "router" "desk_1" still) true "router" "desk_1" "send" [] ≡ (
      if str_eq "router" "router" && str_eq "desk_1" "desk_1"
      then (ok false, remember_role_hint [] "router" [])
      else authorize still true "router" "desk_1" "send" [])
authorize-block_target_example =
    authorize-block_target still true "router" "desk_1" "router" "desk_1" "send" []

has_permission-assign_role_example :
    has_permission (assign_role keys "helper" "operator") "helper" "send:desk_1" ≡ (
      has_permission keys "helper" "send:desk_1"
      || (str_eq "helper" "helper"
          && any_of (matches_permission "send:desk_1") (smembers "operator" keys.role_permissions)))
has_permission-assign_role_example =
    has_permission-assign_role keys "helper" "operator" "helper" "send:desk_1"

in_order : sorted ("b" ∷ "c" ∷ "a" ∷ []) ≡ "a" ∷ "b" ∷ "c" ∷ []
unfolding sorted insert_text
in_order = refl
