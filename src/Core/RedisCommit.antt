-- ===== src/Core/RedisCommit.antt =====
-- packages/mas-core/src/mas_core/redis_commit.py: stream appends that another durable write commits.
pub mod Checks
use mas_framework.Common.{
  ℕ, ◌==◌, ltb, leb, Bool, true, false, not, ◌&&◌, ◌||◌, List, [], ◌∷◌, String, str_eq, length,
  if◌then◌else◌,
}
use mas_framework.Common.Results.{Result, ok, err, ◌>>=◌, ◌>>◌, ensure}
use mas_framework.Common.Sets.{member}

-- The identities of a connection pool and of a confirmation policy.
pub record RedisCommitTarget : Type 0 where
  pub connection_pool : ℕ
  pub durability : ℕ

pub compatible_with : RedisCommitTarget → RedisCommitTarget → Bool
compatible_with a b = a.connection_pool == b.connection_pool && a.durability == b.durability

pub record StreamAppend : Type 0 where
  pub stream : String
  pub fields : List (String × String)

pub data Error : Type 0 where
  empty_stream field_count field_names : Error

-- Each name is nonempty and no earlier one.
pub distinct_names : List String → List (String × String) → Bool
distinct_names names [] = true
distinct_names names ((name, value) ∷ rest) =
    not (str_eq name "" || member name names) && distinct_names (name ∷ names) rest

-- StreamAppend.__post_init__
pub make_append : String → List (String × String) → Result Error StreamAppend
make_append stream fields = do
  ensure (not (str_eq stream "")) empty_stream
  ensure (ltb 0 (length fields) && leb (length fields) 1024) field_count
  ensure (distinct_names [] fields) field_names
  ok (record { stream = stream; fields = fields })
