-- ===== src/Gateway/Authorization/Hints.antt =====
-- The cache of role hints stays bounded.
use mas_framework.Common.{
  ℕ, ◌-◌, ◌≤◌, ◌≡◌, Bool, List, [], ◌∷◌, ◌++◌, String, arith, length, length-append,
}
use mas_framework.Common.Dict.{Dict, remove}
use mas_framework.Gateway.Authorization.{
  Acl, access_script, Hints, max_hints, remember_role_hint, attempts, pop_oldest, Views, views,
  access_snapshot, authorize,
}

length-remove-le {ℓ} : {A : Type ℓ} (k : String) (d : Dict A) → length (remove k d) ≤ length d
unfolding remove
length-remove-le k [] = omega arith
length-remove-le k ((j, v) ∷ d) = ground (arith, length-remove-le k d)

length-pop_oldest : (h : Hints) → length (pop_oldest h) ≡ length h - 1
unfolding pop_oldest
length-pop_oldest [] = omega arith
length-pop_oldest (x ∷ h) = omega arith

remember-bound :
    (hints : Hints) (agent : String) (roles : List String)
    → length hints ≤ max_hints
    → length (remember_role_hint hints agent roles) ≤ max_hints
unfolding remember_role_hint
remember-bound hints agent roles h = ground (
  arith,
  length-remove-le agent hints,
  length-append (remove agent hints) ((agent, roles) ∷ []),
  length-pop_oldest (remove agent hints ++ (agent, roles) ∷ []),
)

attempts-bound :
    (vs : List (Acl × ℕ)) (sender target : String) (rbac : Bool) (roles : List String)
    (hints : Hints)
    → length hints ≤ max_hints
    → length (attempts vs sender target rbac roles hints).1 ≤ max_hints
unfolding attempts
attempts-bound [] sender target rbac roles hints h = h
attempts-bound ((acl, now) ∷ vs) sender target rbac roles hints h =
    let s = access_script acl now sender target rbac roles in
    let k = remember-bound hints sender s.roles h in
    ground (
      arith,
      k,
      attempts-bound vs sender target rbac s.roles (remember_role_hint hints sender s.roles) k,
    )

-- An authorization keeps the role hints at most 2048.
pub authorize-hints_bound :
    (v : Views) (rbac : Bool) (sender target action : String) (hints : Hints)
    → length hints ≤ max_hints
    → length (authorize v rbac sender target action hints).1 ≤ max_hints
unfolding authorize access_snapshot
authorize-hints_bound v rbac sender target action hints h =
    attempts-bound (views v) sender target rbac _ hints h
