-- ===== src/Server/StateStore.antt =====
-- packages/mas-server/src/mas_server/state.py: the persisted state of an agent, written
-- optimistically against a revision by Lua scripts.
pub mod Contents
pub mod Revisions
mod Examples
use mas_framework.Common.{
  ℕ, suc, ◌==◌, leb, Bool, true, false, not, Option, none, some, List, [], ◌∷◌, String,
  if◌then◌else◌,
}
use mas_framework.Common.Dict.{Dict, insert}
use mas_framework.Common.Results.{Result, ok, err, ◌>>=◌}

pub data Error : Type 0 where
  invalid_state_revision invalid_state_storage_type wrong_type : Error
  value_error not_durable state_revision_conflict : Error

-- What the key `agent.state.revision:<agent>` holds: nothing, a canonical decimal, another text, or
-- a value of another type.
pub data Revision : Type 0 where
  missing other_text not_text : Revision
  decimal : ℕ → Revision

-- What the key `agent.state:<agent>` holds.
pub data Fields : Type 0 where
  no_fields not_hash : Fields
  hash : Dict String → Fields

pub record Keys : Type 0 where
  pub state : Fields
  pub revision : Revision

abbrev pub max_revision : ℕ
max_revision = 9007199254740990

abbrev read_revision : Revision → Result Error ℕ
read_revision missing = ok 0
read_revision other_text = err invalid_state_revision
read_revision not_text = err wrong_type
read_revision (decimal n) = if leb n max_revision then ok n else err invalid_state_revision

abbrev pub fields_of : Fields → Dict String
fields_of (hash d) = d
fields_of _ = []

-- _VALIDATE_STATE: the revision and the fields.
pub validate : Keys → Result Error (ℕ × Dict String)
validate keys = elim (read_revision keys.revision) [
  | err e ↦ err e
  | ok n ↦ elim keys.state [
    | not_hash ↦ err invalid_state_storage_type
    | no_fields ↦ ok (n, [])
    | hash d ↦ ok (n, d)
  ]
]

-- HGETALL, a flat list of names and values.
pub hgetall : Dict String → List String
hgetall [] = []
hgetall ((name, value) ∷ rest) = name ∷ value ∷ hgetall rest

-- zip(pairs[::2], pairs[1::2], strict=True)
pub pair_up : List String → Option (Dict String)
pair_up [] = some []
pair_up (name ∷ []) = none
pair_up (name ∷ value ∷ rest) = elim (pair_up rest) [
  | none ↦ none
  | some pairs ↦ some ((name, value) ∷ pairs)
]

-- HSET of pairs in their order, and likewise `dict` of pairs from an empty one.
pub hset : Dict String → Dict String → Dict String
hset d [] = d
hset d ((name, value) ∷ rest) = hset (insert name value d) rest

pub record StateSnapshot : Type 0 where
  pub fields : Dict String
  pub revision : ℕ

pub snapshot : Keys → Result Error StateSnapshot
snapshot keys = do
  (n, d) ← validate keys
  elim (pair_up (hgetall d)) [
    | none ↦ err value_error
    | some pairs ↦ ok (record { fields = hset [] pairs; revision = n })
  ]

pub get_state : Keys → Result Error (Dict String)
get_state keys = do s ← snapshot keys; ok s.fields

-- _UPDATE: the revision after it, or `none` where the script returns -1.
pub update_script : Keys → ℕ → Dict String → Result Error (Option ℕ × Keys)
update_script keys expected updates = do
  (n, d) ← validate keys
  ok (
      if not (n == expected) then (none, keys) else elim updates [
        | [] ↦ (some n, keys)
        | u ∷ more ↦
            (some (suc n), record { state = hash (hset d (u ∷ more)); revision = decimal (suc n) })
      ])

-- _RESET
pub reset_script : Keys → ℕ → Result Error (Option ℕ × Keys)
reset_script keys expected = do
  (n, d) ← validate keys
  ok (
      if not (n == expected)
      then (none, keys)
      else (some (suc n), record { state = no_fields; revision = decimal (suc n) }))

-- What both writes do with the answer of their script; `durable` says whether the durability of the
-- connection was confirmed.
pub confirm : Keys → Bool → Result Error (Option ℕ × Keys) → Result Error ℕ × Keys
confirm keys durable (err e) = (err e, keys)
confirm keys durable (ok (none, after)) = (err state_revision_conflict, after)
confirm keys durable (ok (some n, after)) = (if durable then ok n else err not_durable, after)

pub update_state : Keys → Dict String → ℕ → Bool → Result Error ℕ × Keys
update_state keys updates expected durable =
    confirm keys durable (update_script keys expected updates)

pub reset_state : Keys → ℕ → Bool → Result Error ℕ × Keys
reset_state keys expected durable = confirm keys durable (reset_script keys expected)
