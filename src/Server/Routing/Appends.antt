-- ===== src/Server/Routing/Appends.antt =====
-- What `route_message` appends.
use mas_framework.Common.{
  ◌≡◌, ◌⊎◌, inl, inr, not, ◌&&◌, List, [], ◌∷◌, ◌++◌, String, arith, Bool-cases,
}
use mas_framework.Common.Sets.{member}
use mas_framework.Common.Results.{Result, ok, err, Result-cases}
use mas_framework.Core.Protocol.{EnvelopeMessage, truthy}
use mas_framework.Core.RedisCommit.{StreamAppend, make_append}
use mas_framework.Core.RedisCommit.Checks.{make_append-fields}
use mas_framework.Core.Durability.{Settings, Reply, confirm}
use mas_framework.Core.Durability
use mas_framework.Core.RedisCommit
use mas_framework.Server.Routing.{
  destination, lift_append, route_message, prepare_stream_append, xadd, Keyspace,
}

lift_append-ok :
    (r : Result RedisCommit.Error StreamAppend) (a : StreamAppend) → lift_append r ≡ ok a → r ≡ ok a
lift_append-ok (ok b) a h = ground arith
lift_append-ok (err e) a h = absurd (ground arith)

module _ (dump_json : EnvelopeMessage → String) (settings : Settings) where
  pub prepare_stream_append-fields :
      (m : EnvelopeMessage) (a : StreamAppend)
      → prepare_stream_append dump_json m ≡ ok a
      → a.fields ≡ ("envelope", dump_json m) ∷ []
  unfolding prepare_stream_append
  prepare_stream_append-fields m a h =
      elim (Bool-cases (m.meta.is_reply && not (truthy m.meta.reply_to_instance_id))) [
        | inl r ↦ absurd (ground arith)
        | inr r ↦
            (make_append-fields (destination m) (("envelope", dump_json m) ∷ []) a (
              lift_append-ok (make_append (destination m) (("envelope", dump_json m) ∷ [])) a
                (ground arith))).1
      ]

  pub route_message-keys :
      (k : Keyspace) (m : EnvelopeMessage) (answers : Result Durability.Error (List Reply))
      → let k' = (route_message dump_json settings k m answers).1 in
        (k' ≡ k)
        ⊎ ((stream : String) × (k'
              ≡ record k { entries = k.entries ++ (stream, ("envelope", dump_json m) ∷ []) ∷ [] }))
  unfolding route_message xadd
  route_message-keys k m answers = elim (Result-cases (prepare_stream_append dump_json m)) [
    | inr (e, q) ↦ inl (ground arith)
    | inl (a, q) ↦
        let f = prepare_stream_append-fields m a q in
        elim (Bool-cases (member a.stream k.foreign_streams)) [
          | inl b ↦ inl (ground arith)
          | inr b ↦ inr (a.stream, ground arith)
        ]
  ]
