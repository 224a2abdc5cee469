-- ===== src/Core/Durability.antt =====
-- packages/mas-core/src/mas_core/durability.py: the confirmation of Redis writes by replicas and by
-- the append-only file.
pub mod Confirmation
mod Examples
use mas_framework.Common.{
  ℕ, ◌==◌, ltb, leb, Bool, true, false, not, ◌&&◌, ◌||◌, Option, none, some, List, [], ◌∷◌,
  if◌then◌else◌,
}
use mas_framework.Common.Int.{ℤ, pos, negsuc}
use mas_framework.Common.Results.{Result, ok, err, ◌>>=◌, ◌>>◌, ensure}

pub record Settings : Type 0 where
  pub replica_count : ℕ
  pub timeout_ms : ℕ
  pub wait_for_aof : Bool

pub data Error : Type 0 where
  replica_count_negative timeout_not_positive : Error
  configured_durability_unconfirmed redis_error validation_error : Error
  transactional_pipeline no_queued_writes : Error

-- A reply of Redis as the adapters tell replies apart.
pub data Reply : Type 0 where
  integer : ℤ → Reply
  integers : List ℤ → Reply
  other : Reply

-- RedisDurabilitySettings.__post_init__
pub make_settings : ℤ → ℤ → Bool → Result Error Settings
make_settings (negsuc n) timeout aof = err replica_count_negative
make_settings (pos replicas) (negsuc n) aof = err timeout_not_positive
make_settings (pos replicas) (pos timeout) aof = do
  ensure (ltb 0 timeout) timeout_not_positive
  ok (record { replica_count = replicas; timeout_ms = timeout; wait_for_aof = aof })

unfoldable pub enabled : Settings → Bool
enabled s = s.wait_for_aof || ltb 0 s.replica_count

unfoldable pub at_least : ℤ → ℕ → Bool
at_least (pos n) k = leb k n
at_least (negsuc n) k = false

-- _validate_confirmation
unfoldable pub validate_confirmation : Settings → Reply → Result Error (Unit {0})
unfolding at_least
validate_confirmation s (integers (local ∷ replicas ∷ [])) =
    if s.wait_for_aof
    then ensure (at_least local 1 && at_least replicas s.replica_count)
        configured_durability_unconfirmed
    else err validation_error
validate_confirmation s (integers counts) =
    err (if s.wait_for_aof then configured_durability_unconfirmed else validation_error)
validate_confirmation s (integer replicas) =
    if s.wait_for_aof
    then err validation_error
    else ensure (at_least replicas s.replica_count) configured_durability_unconfirmed
validate_confirmation s other = err validation_error

-- What the `except` clauses of both methods do with RedisError and ValidationError.
abbrev unconfirmed {ℓ} : {A : Type ℓ} → Result Error A → Result Error A
unconfirmed (ok a) = ok a
unconfirmed (err e) = err configured_durability_unconfirmed

-- `confirm`, with the answer of WAIT or WAITAOF.
unfoldable pub confirm : Settings → Result Error Reply → Result Error (Unit {0})
unfolding validate_confirmation
confirm s answer =
    if not (enabled s) then ok tt else unconfirmed (answer >>= validate_confirmation s)

-- The last of the responses, and those before it.
pub split_last : Reply → List Reply → List Reply × Reply
split_last r [] = ([], r)
split_last r (next ∷ rest) = let (before, last) = split_last next rest in (r ∷ before, last)

-- The responses of a pipeline, the confirmation last.
pub confirmed_responses : Settings → List Reply → Result Error (List Reply)
confirmed_responses s [] = err configured_durability_unconfirmed
confirmed_responses s (r ∷ rest) =
    let (before, last) = split_last r rest in validate_confirmation s last >>= λ _. ok before

pub complete : Settings → Bool → Result Error (List Reply) → Result Error (List Reply)
complete s true answers = unconfirmed (answers >>= confirmed_responses s)
complete s false (ok responses) = ok responses
complete s false (err validation_error) = err configured_durability_unconfirmed
complete s false (err e) = err e

-- `execute`: whether the pipeline is transactional, how many commands it has, and what Redis answers
-- to them and to the confirmation that follows them.
pub execute : Settings → Bool → ℕ → Result Error (List Reply) → Result Error (List Reply)
execute s transactional commands answers = do
  ensure (not transactional) transactional_pipeline
  ensure (not (commands == 0)) no_queued_writes
  complete s (enabled s) answers
