-- ===== src/Server/Sessions/Examples.antt =====
-- The theorems on the table of sessions at a concrete one, and tests of its definitions.
use mas_framework.Common.{
  ◌≡◌, refl, Bool, true, false, ◌&&◌, none, some, [], ◌∷◌, String, str_eq, if◌then◌else◌,
}
use mas_framework.Common.Dict.{Dict, lookup, remove}
use mas_framework.Common.Results.{ok, err}
use mas_framework.Core.SessionLease.{SessionLease}
use mas_framework.Server.Sessions.{
  session_not_connected, leased, InflightDelivery, Session, is_key, get, put, connect,
  ensure_connected, pop_inflight, drop_full, drop_oldest_outbound,
}
use mas_framework.Server.Sessions.Table.{connect-ok}

abbrev lease : SessionLease
lease = record { agent_id = "desk"; instance_id = "one"; owner = "broker"; expires_at = 6 }

abbrev sent : InflightDelivery
sent = record {
  stream_name = "desk";
  group = "agents";
  entry_id = 1;
  envelope_json = "hi";
  received_at = 7;
  attempt = 1;
  consumer = "desk-one";
}

abbrev connected : Dict InflightDelivery → Bool → Session
connected inflight changed = record {
  agent_id = "desk";
  instance_id = "one";
  outbound = [];
  inflight = inflight;
  done = false;
  lease = lease;
  capacity_changed = changed;
}

acknowledged :
    pop_inflight (connected (("d", sent) ∷ []) false ∷ []) "desk" "one" "d"
    ≡ (some sent, connected [] true ∷ [])
unfolding pop_inflight get put is_key lookup remove
acknowledged = refl

not_connected_elsewhere :
    ensure_connected (λ a. true) (λ i. true) [] (λ l. true) (ok none) "desk" "one"
    ≡ err session_not_connected
unfolding ensure_connected get
not_connected_elsewhere = refl

oldest_dropped :
    drop_oldest_outbound 2 ("a" ∷ "b" ∷ []) (("a", sent) ∷ ("b", sent) ∷ [])
    ≡ (1, "b" ∷ [], ("b", sent) ∷ [])
unfolding drop_oldest_outbound drop_full remove
oldest_dropped = refl

connect-ok_example :
    (get [] "desk" "one" ≡ none)
    × (leased lease ≡ leased lease)
    × ((a i : String)
        → get (connected [] false ∷ []) a i
          ≡ (if str_eq "desk" a && str_eq "one" i then some (connected [] false) else get [] a i))
unfolding connect get
connect-ok_example =
    connect-ok (λ a. true) (λ i. true) [] (connected [] false ∷ []) "desk" "one" (leased lease) true
      (connected [] false) none refl
