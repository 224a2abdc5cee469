-- ===== src/Lib.antt =====
-- The MAS framework runs independent agents over a trusted broker: the gateway package decides
-- whether a message may pass (authorization, rate limit, circuit breaker, data-loss prevention,
-- audit), the core package holds what brokers share (session leases, durability, telemetry), the
-- server package is the broker (sessions, routing, delivery, state), and the agent package is the
-- client.
--
-- This library models the parts that carry state and decide, from the Python sources and from the
-- Lua scripts that they run in Redis:
--
-- Core/SessionLease.antt: packages/mas-core/src/mas_core/sessions.py. Keys holds the owner
--   keys and the sorted set of one agent's instances; acquire_script, renew_script and
--   release_script are the Lua scripts, and acquire, renew, release, owner_of and active are
--   the methods of SessionLeaseStore. Exclusion has the brokers that share one Redis as a step
--   relation.
-- Gateway/Authorization.antt: packages/mas-gateway/src/mas_gateway/authorization.py. Acl holds
--   the sets of every agent and role; access_script is _ACCESS_SCRIPT, attempts the four
--   readings of _access_snapshot, authorize and check_acl the decisions, Glob the matching of
--   permissions, Changes the methods that change the sets, and Listings the methods that
--   report them and check_rbac.
-- Gateway/CircuitBreaker.antt: packages/mas-gateway/src/mas_gateway/circuit_breaker.py. The
--   record CircuitStatus and the function transition are CircuitStatus and _transition;
--   Storage has the hash in Redis, _status_from_data, _apply_event with its WATCH loop, and
--   resolve_check.
-- Gateway/Dlp.antt: packages/mas-gateway/src/mas_gateway/dlp.py. make_policies is the
--   constructor's merging of policies, determine_action, validate_luhn and redact_object are
--   the methods of those names, and scan the method that decides with them; the violations
--   that the patterns find and the replacements in a text are its arguments.
-- Gateway/RateLimit.antt: packages/mas-gateway/src/mas_gateway/rate_limit.py. Agent holds the
--   three keys of an agent; check_rate_limit is the admission script, and set_limits,
--   get_limits, reset_limits and get_current_usage are the methods.
-- Server/Sessions.antt: packages/mas-server/src/mas_server/sessions.py. Sessions is the table
--   of SessionManager, and connect, disconnect, pop_inflight, ensure_connected, session,
--   lease_of and drop_oldest_outbound are its methods; the renewal task is not modelled.
-- Core/Durability.antt and Core/RedisCommit.antt: packages/mas-core/src/mas_core/durability.py
--   and redis_commit.py. confirm and execute are the methods of RedisDurability, with the
--   answers of Redis as arguments, and make_append is the check of a StreamAppend.
--   Core/Protocol.antt has the messages of protocol.py.
-- Server/Routing.antt: packages/mas-server/src/mas_server/routing.py. Keyspace holds the
--   pending requests, the receipts and the entries of the streams; commit_script and
--   replay_script are the Lua scripts, and route_message, commit_reply and replay_reply the
--   methods of MessageRouter. Operations has sequences of them.
-- Server/Delivery.antt: packages/mas-server/src/mas_server/delivery.py and write_dlq of
--   routing.py. Store holds the streams with their group and the dead letters; Claim has the
--   script that takes entries over, Service the handlers of acknowledgements and
--   deliver_entry, and Loop a turn of _stream_loop.
-- Server/Policy.antt: packages/mas-server/src/mas_server/policy.py. ingest_and_route is the
--   pipeline; Components holds what the parts answer, and the result has the effects in their
--   order. Redaction puts Gateway/Dlp into it.
-- Server/Ingress.antt: packages/mas-server/src/mas_server/ingress.py. request_message stores
--   the pending request and builds the message, and reply_message decides what becomes of a
--   reply: the next call, or the error.
-- Server/StateStore.antt: packages/mas-server/src/mas_server/state.py. Keys holds the fields
--   and the revision of an agent; update_script and reset_script are the Lua scripts, and
--   snapshot, get_state, update_state and reset_state the methods of StateStore.
-- Server/PeerValidation.antt: packages/mas-server/src/mas_server/peer_validation.py. Validator
--   holds the queue and the two counters of QueuedPeerValidator; submit is the admission of
--   validate, and cycle one turn of the loop of _run.
--
-- Server/Policy acts on the ScanResult of Gateway/Dlp before it enqueues, Server/Ingress uses
-- Server/Routing, and Server/Routing builds its commits on Core/Durability. The others meet in
-- Redis only: the deadlines that Core/SessionLease keeps for an agent are the ones that
-- Gateway/Authorization reads to see whether a target is connected.
--
-- Times are natural numbers, ticks of a fixed unit, in place of floats: sums and comparisons are
-- exact. Texts that Python or pydantic print and parse are parameters (a Codec) with the law that
-- a printed number is read back. The WATCH loop of the circuit breaker recurs on the list of the
-- rounds that other clients disturb, and ends with that list; the other loops recur on a list, on
-- a text, or on a count that the queue bounds, so no fuel is needed.
--
-- In Server/Routing and Server/Delivery the entries of all streams are one list, each with the
-- name of its stream, and their names are numbers in the order in which Redis generates them. A
-- script there runs and is answered, runs and its answer is lost, or does not run. A turn of the
-- loop of a session is not interrupted.
--
-- In Core/SessionLease the clocks of the brokers and of Redis are read on one time scale, and run
-- at the same rate. In Gateway/CircuitBreaker the clock of the brokers and that of Redis read the
-- same, and a key that Redis has expired reads as missing. In Server/StateStore a revision is a
-- canonical decimal, which is all that the scripts write. In Gateway/Authorization no role is
-- named like the permissions key of another.
--
-- Not modelled: the audit, exceptions of the checks of the pipeline, trace contexts, logging,
-- telemetry spans and metrics, the transport, the scan of all roles, the patterns, masks and
-- detection of data-loss prevention, and the listing and dead-letter helpers of the circuit
-- breaker.
pub mod Common
pub mod Core
pub mod Gateway
pub mod Server
