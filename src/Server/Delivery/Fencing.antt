-- ===== src/Server/Delivery/Fencing.antt =====
-- A broker whose session was taken over changes nothing, and a message is not tried for ever.
use mas_framework.Common.{
  ℕ, ◌≡◌, refl, ltb, Bool, false, ◌&&◌, Option, String, inl, inr, Bool-cases,
}
use mas_framework.Common.Results.{Result, ok}
use mas_framework.Core.SessionLease.{SessionLease}
use mas_framework.Server.Sessions.{InflightDelivery}
use mas_framework.Server.Delivery.{
  Error, Store, is_text, owns_pending, ack_and_delete, requeue_and_ack, commit_delivery,
}
use mas_framework.Server.Delivery.Service.{
  Conditions, Settings, External, Network, answered, unanswered, unsent, over, write_dlq,
  settle_nack, ack_inflight,
}

over_same :
    {A : Type 0} (net : Network) (s : Store) (r : Result Error A × Store)
    → r.1 ≡ s
    → (over net s r).1 ≡ s
over_same answered s r h = h
over_same unanswered s r h = h
over_same unsent s r h = refl

owns_pending-other :
    (s : Store) (current : Option String) (owner stream consumer : String) (id : ℕ)
    → is_text owner current ≡ false
    → owns_pending s current owner stream id consumer ≡ ok false
unfolding owns_pending
owns_pending-other s current owner stream consumer id h = rw (h) refl

module _ (ext : External) (settings : Settings) where
  -- Where the session has another owner than the lease names, or none, neither an acknowledgement
  -- nor a negative one changes anything in Redis.
  pub settle_fenced :
      (s : Store) (env : Conditions) (d : InflightDelivery) (lease : SessionLease) (reason : String)
      (retryable : Bool)
      → is_text lease.owner env.owner ≡ false
      → ((ack_inflight s env d d.consumer lease).1 ≡ s)
        × ((settle_nack ext settings s env d lease reason retryable).1 ≡ s)
  unfolding ack_inflight settle_nack write_dlq ack_and_delete requeue_and_ack commit_delivery
  settle_fenced s env d lease reason retryable other =
      let f =
        owns_pending-other s env.owner lease.owner d.stream_name d.consumer d.entry_id other in
      (
        over_same env.network s _ (rw (f) refl),
        elim (Bool-cases (retryable && ltb d.attempt settings.max_delivery_attempts)) [
          | inl again ↦ rw (again) (over_same env.network s _ (rw (f) refl))
          | inr last ↦ rw (last) (over_same env.network s _ (rw (f) refl))
        ],
      )
