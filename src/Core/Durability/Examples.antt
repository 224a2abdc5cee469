-- ===== src/Core/Durability/Examples.antt =====
-- The theorems on durability at concrete replies, and tests of its definitions.
use mas_framework.Common.{◌≡◌, refl, ◌⊎◌, ◌↔◌, false, [], ◌∷◌, arith}
use mas_framework.Common.Int.{pos}
use mas_framework.Common.Results.{ok, err}
use mas_framework.Core.Durability.{
  Settings, make_settings, timeout_not_positive, configured_durability_unconfirmed, integer, other,
  enabled, at_least, validate_confirmation, confirm, execute,
}
use mas_framework.Core.Durability.Confirmation.{Acknowledges, execute_confirms}

abbrev two_replicas : Settings
two_replicas = record { replica_count = 2; timeout_ms = 1000; wait_for_aof = false }

no_timeout : make_settings (pos 2) (pos 0) false ≡ err timeout_not_positive
unfolding make_settings
no_timeout = refl

one_replica_short :
    confirm two_replicas (ok (integer (pos 1))) ≡ err configured_durability_unconfirmed
unfolding confirm enabled validate_confirmation at_least
one_replica_short = refl

execute_confirms_example :
    let result = execute two_replicas false 1 (ok (other ∷ integer (pos 1) ∷ [])) in
    ((result ≡ ok (other ∷ [])) ↔ Acknowledges two_replicas (integer (pos 1)))
    × ((result ≡ ok (other ∷ [])) ⊎ (result ≡ err configured_durability_unconfirmed))
unfolding enabled
execute_confirms_example =
    execute_confirms two_replicas 1 other [] (integer (pos 1)) refl (omega arith)
