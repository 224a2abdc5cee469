-- ===== src/Gateway/Authorization/Decision.antt =====
-- `authorize` and `check_acl` over everything that Redis may hold at their attempts.
use mas_framework.Common.{ℕ, ◌≡◌, ◌∙◌, inl, inr, Bool, true, false, String, arith, Bool-cases}
use mas_framework.Common.Sets.{Distinct}
use mas_framework.Common.Results.{ok, Result-cases}
use mas_framework.Gateway.Authorization.{
  Acl, AccessSnapshot, smembers, access_script, Hints, attempts, Views, views, access_snapshot,
  granted, permission, authorize,
}
use mas_framework.Gateway.Authorization.Snapshot.{
  permits, granted-access_script, Among, attempts-AnsweredBy, unchanged_with_roles,
  roles_of_changed,
}

-- The sender's roles are a set at every attempt.
abbrev pub AllDistinct : String → Views → Type 0
AllDistinct sender v = (w : Acl × ℕ) → Among w (views v) → Distinct (smembers sender w.0.roles)

-- When `authorize` decides, and the sender's roles are a set at every attempt, its decision is
-- what the keys permit at one of its attempts, whatever roles it has hints of.
pub authorize-permits :
    (v : Views) (rbac : Bool) (sender target action : String) (hints : Hints) (b : Bool)
    → AllDistinct sender v
    → (authorize v rbac sender target action hints).0 ≡ ok b
    → (w : Acl × ℕ) × Among w (views v)
      × (permits w.0 w.1 rbac sender target (permission action target) ≡ b)
unfolding authorize access_snapshot
authorize-permits v rbac sender target action hints b d h =
    elim (Result-cases (attempts (views v) sender target rbac (smembers sender hints) hints).0) [
      | inl (s, e) ↦
          let (w, hinted, m, q, u) =
            attempts-AnsweredBy (views v) sender target rbac (smembers sender hints) hints s e in
          (
            w,
            m,
            ground (
              arith,
              granted-access_script w.0 w.1 sender target (permission action target) rbac hinted
                  (d w m),
            ),
          )
      | inr (x, e) ↦ absurd (ground arith)
    ]

-- If the sender's roles are the same at the first two attempts, `authorize` decides.
pub authorize_settles :
    (v : Views) (rbac : Bool) (sender target action : String) (hints : Hints)
    → smembers sender v.first.0.roles ≡ smembers sender v.second.0.roles
    → (b : Bool) × ((authorize v rbac sender target action hints).0 ≡ ok b)
unfolding authorize access_snapshot attempts
authorize_settles v rbac sender target action hints e = elim (Bool-cases first.unchanged) [
  | inl u ↦ (granted (permission action target) first, ground arith)
  | inr u ↦ (granted (permission action target) second, ground (arith, settled u))
]
  where
    first : AccessSnapshot
    first = access_script v.first.0 v.first.1 sender target rbac (smembers sender hints)

    second : AccessSnapshot
    second = access_script v.second.0 v.second.1 sender target rbac first.roles

    settled : first.unchanged ≡ false → second.unchanged ≡ true
    settled u =
        rw (roles_of_changed v.first.0 v.first.1 sender target rbac (smembers sender hints) u ∙ e)
          (unchanged_with_roles v.second.0 v.second.1 sender target rbac)
