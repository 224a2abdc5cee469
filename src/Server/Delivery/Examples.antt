-- ===== src/Server/Delivery/Examples.antt =====
-- The theorems on delivery at a concrete stream, and tests of its definitions.
use mas_framework.Common.{
  ◌≡◌, refl, inr, true, false, Option, none, some, List, [], ◌∷◌, ◌++◌, String, arith,
}
use mas_framework.Common.Dict.{lookup}
use mas_framework.Common.Int.{ℤ, pos}
use mas_framework.Common.Tally.{tally, parse_tally}
use mas_framework.Core.SessionLease.{SessionLease}
use mas_framework.Server.Sessions.{InflightDelivery, Session}
use mas_framework.Server.Delivery.{Store, find_entry}
use mas_framework.Server.Delivery.Service.{
  Conditions, Settings, External, answered, unanswered, settle_nack, ack_inflight,
}
use mas_framework.Server.Delivery.Loop.{LoopState, turn, Circumstances}
use mas_framework.Server.Delivery.WellFormed.{WellFormed}
use mas_framework.Server.Delivery.Capacity.{Within}
use mas_framework.Server.Delivery.Conservation.{
  kept, Sound, Removes, settle_nack-kept, ack_inflight-Removes,
}
use mas_framework.Server.Delivery.Fencing.{settle_fenced}
use mas_framework.Server.Delivery.Scripts.{settle-WellFormed}
use mas_framework.Server.Delivery.Turns.{turn_bounded}

abbrev read_number : String → Option ℤ
read_number t = elim (parse_tally t) [ none ↦ none | some n ↦ some (pos n) ]

abbrev externals : External
externals = record {
  parse_envelope = λ t. none;
  sha256 = λ t. "hash";
  parse_int = read_number;
  show_int = tally;
  show_time = tally;
}

abbrev settings : Settings
settings = record {
  reclaim_idle_ms = 30000;
  reclaim_batch_size = 50;
  max_in_flight = 200;
  max_delivery_attempts = 5;
  outbound_maxsize = 100;
  dlq_enabled = true;
  durability = record { replica_count = 0; timeout_ms = 1; wait_for_aof = false };
}

abbrev lease : SessionLease
lease = record { agent_id = "a"; instance_id = "i"; owner = "broker"; expires_at = 1000 }

abbrev calm : Conditions
calm = record { owner = some "broker"; network = answered; confirmation = []; now = 7 }

abbrev taken_over : Conditions
taken_over = record calm { owner = some "other" }

abbrev silent : Conditions
silent = record calm { network = unanswered }

-- Two entries, the first of which is pending.
abbrev store : Store
store = record {
  entries =
      record { id = 1; stream = "agent.stream:a"; fields = ("envelope", "m1") ∷ [] }
      ∷ record { id = 2; stream = "agent.stream:a"; fields = ("envelope", "m2") ∷ [] }
      ∷ [];
  next = 3;
  positions = ("agent.stream:a", 1) ∷ [];
  pending =
      record { entry = 1; stream = "agent.stream:a"; consumer = "a-i-broker"; since = 0 } ∷ [];
  dlq = [];
  dlq_foreign = false;
}

abbrev delivery : InflightDelivery
delivery = record {
  stream_name = "agent.stream:a";
  group = "agents";
  entry_id = 1;
  envelope_json = "m1";
  received_at = 3;
  attempt = 1;
  consumer = "a-i-broker";
}

abbrev a_session : Session
a_session = record {
  agent_id = "a";
  instance_id = "i";
  outbound = "d1" ∷ [];
  inflight = ("d1", delivery) ∷ [];
  done = false;
  lease = lease;
  capacity_changed = false;
}

abbrev loop : LoopState
loop = record {
  shared_start = 0;
  instance_start = 0;
  stream_names = "agent.stream:a" ∷ "agent.stream:a:i" ∷ [];
  last_reclaim = 0;
}

abbrev around : Circumstances
around id = (calm, "d2")

store-WellFormed : WellFormed store
unfolding find_entry
store-WellFormed = ((omega arith, (omega arith, tt)), (refl, (refl, tt)), (refl, tt))

delivery-Sound : Sound store.entries delivery
unfolding find_entry lookup
delivery-Sound = refl

settle_nack-kept_example :
    kept "m1" (settle_nack externals settings store calm delivery lease "busy" true).1
    ≡ kept "m1" store
unfolding lookup
settle_nack-kept_example =
    settle_nack-kept externals settings store calm delivery lease "busy" true "m1" refl
      store-WellFormed delivery-Sound

ack_inflight-Removes_example :
    Removes delivery "m1" store (ack_inflight store silent delivery delivery.consumer lease)
ack_inflight-Removes_example =
    ack_inflight-Removes store silent delivery lease "m1" store-WellFormed delivery-Sound

settle_fenced_example :
    ((ack_inflight store taken_over delivery delivery.consumer lease).1 ≡ store)
    × ((settle_nack externals settings store taken_over delivery lease "busy" false).1 ≡ store)
settle_fenced_example =
    settle_fenced externals settings store taken_over delivery lease "busy" false refl

settle-WellFormed_example :
    WellFormed (ack_inflight store calm delivery delivery.consumer lease).1
    × WellFormed (settle_nack externals settings store calm delivery lease "busy" false).1
settle-WellFormed_example =
    settle-WellFormed externals settings store calm delivery lease "busy" false store-WellFormed

abbrev after_read : Store
after_read = record store {
  positions = ("agent.stream:a", 2) ∷ [];
  pending =
      store.pending
      ++ record { entry = 2; stream = "agent.stream:a"; consumer = "a-i-broker"; since = 9 } ∷ [];
}

turn_bounded_example :
    let session' = (turn externals settings a_session store loop true 7 calm calm calm around).1 in
    ((names : List String) × (session'.outbound ≡ "d1" ∷ [] ++ names)) × Within settings session'
turn_bounded_example =
    turn_bounded externals settings a_session store loop true 7 calm calm calm around (omega arith)
      (omega arith, inr (omega arith))
