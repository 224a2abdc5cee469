-- ===== src/Server/Routing/Operations.antt =====
-- Sequences of the operations on the keys, and what they leave and acknowledge for a request.
use mas_framework.Common.{
  ℕ, ◌+◌, ◌≡◌, Bool, true, false, ◌&&◌, Option, none, some, List, [], ◌∷◌, ◌++◌, String, str_eq,
  if◌then◌else◌, is_some,
}
use mas_framework.Common.Dict.{lookup}
use mas_framework.Common.Results.{Result, ok, err}
use mas_framework.Core.Protocol.{EnvelopeMessage, truthy}
use mas_framework.Core.Durability.{Settings, Reply}
use mas_framework.Core.Durability
use mas_framework.Server.Routing.{
  Error, CorrelationCommit, Keyspace, route_message, commit_reply, replay_reply, set_pending,
  delete_pending, or_empty,
}

-- An entry whose envelope is the JSON of a reply to the correlation.
abbrev pub is_answer : (String → Option String) → String → String × List (String × String) → Bool
is_answer reply_to c (stream, fields) = elim (lookup "envelope" fields) [
  | none ↦ false
  | some json ↦ elim (reply_to json) [ none ↦ false | some d ↦ str_eq d c ]
]

abbrev pub one_if : Bool → ℕ
one_if true = 1
one_if false = 0

-- The number of replies to the correlation among the entries.
abbrev pub replies : (String → Option String) → String → List (String × List (String × String)) → ℕ
replies reply_to c [] = 0
replies reply_to c (e ∷ es) = one_if (is_answer reply_to c e) + replies reply_to c es

abbrev pub present : String → Keyspace → ℕ
present c k = one_if (is_some (lookup c k.pending))

-- The operations on the keys, with the times at which they run and what Redis answers.
pub data Operation : Type 0 where
  register : String → String → ℕ → Operation
  discard : String → Operation
  send : EnvelopeMessage → Result Durability.Error (List Reply) → Operation
  reply : ℕ → EnvelopeMessage → CorrelationCommit → Result Durability.Error Reply → Operation
  replay : ℕ → String → String → String → Result Durability.Error Reply → Operation

-- The request is registered by the operation.
abbrev pub registers1 : String → Operation → ℕ
registers1 c (register d text deadline) = one_if (str_eq d c)
registers1 c _ = 0

abbrev pub registers : String → List Operation → ℕ
registers c [] = 0
registers c (op ∷ ops) = registers1 c op + registers c ops

-- `route_message` is given messages that are no replies.
abbrev pub OneWay : Operation → Type 0
OneWay (send m answers) = m.meta.is_reply ≡ false
OneWay _ = Unit {0}

-- The correlation that a message replies to.
abbrev pub reply_id : EnvelopeMessage → Option String
reply_id m = if m.meta.is_reply && truthy m.meta.correlation_id then m.meta.correlation_id else none

-- The message identity that an operation acknowledges for the correlation.
abbrev pub acknowledgement : String → String → Result Error String → List String
acknowledgement c d (ok id) = if str_eq d c then id ∷ [] else []
acknowledgement c d (err e) = []

abbrev pub some_id : Result Error (Option String) → Result Error String
some_id (ok (some id)) = ok id
some_id (ok none) = err Error.unknown_or_completed_correlation_id
some_id (err e) = err e

module _ (dump_json : EnvelopeMessage → String) (valid_fingerprint : String → Bool)
    (settings : Settings) where
  abbrev pub step : Operation → Keyspace → Keyspace
  step (register c text deadline) k = set_pending k c text deadline
  step (discard c) k = delete_pending k c
  step (send m answers) k = (route_message dump_json settings k m answers).1
  step (reply now m correlation answer) k =
      (commit_reply dump_json valid_fingerprint settings k now m correlation answer).1
  step (replay now c sender fingerprint answer) k = k

  abbrev pub acknowledges : String → Operation → Keyspace → List String
  acknowledges c (reply now m correlation answer) k =
      acknowledgement c (or_empty m.meta.correlation_id)
        (commit_reply dump_json valid_fingerprint settings k now m correlation answer).0
  acknowledges c (replay now d sender fingerprint answer) k =
      acknowledgement c d (some_id (replay_reply settings k now d sender fingerprint answer))
  acknowledges c _ k = []

  abbrev pub run : List Operation → Keyspace → Keyspace
  run [] k = k
  run (op ∷ ops) k = run ops (step op k)

  -- What a sequence of operations acknowledges for the correlation, in its order.
  abbrev pub acknowledged : String → List Operation → Keyspace → List String
  acknowledged c [] k = []
  acknowledged c (op ∷ ops) k = acknowledges c op k ++ acknowledged c ops (step op k)
