-- ===== src/Server/Policy.antt =====
-- packages/mas-server/src/mas_server/policy.py: the checks that a message passes before it is
-- routed, with what the components answer as functions, and the trace of what is done.
pub mod Mediation
pub mod Checks
pub mod Redaction
mod Examples
use mas_framework.Common.{
  ℕ, Bool, true, false, not, ◌&&◌, ◌||◌, Option, none, some, List, [], ◌∷◌, ◌++◌, String,
  if◌then◌else◌, is_some,
}
use mas_framework.Common.Results.{Result, ok, err}
use mas_framework.Core.Protocol.{MessageMeta, EnvelopeMessage, Fields}
use mas_framework.Core.RedisCommit.{StreamAppend, RedisCommitTarget, compatible_with}
use mas_framework.Gateway.Dlp.{ActionPolicy, block, redact, alert, ScanResult}
use mas_framework.Server.Routing.{CorrelationCommit, prepare_stream_append}
use mas_framework.Server.Routing

pub data Decision : Type 0 where
  authz_denied rate_limited circuit_open dlp_blocked : Decision
  allowed alerted dlp_redacted : Decision

pub data Error : Type 0 where
  not_authorized limit_exceeded circuit_is_open blocked_by_dlp audit_failed : Error
  routing_error : Routing.Error → Error

-- What the pipeline does to the components, in its order. `log` is `log_message`, with the append
-- that is committed together with the entry; `queue_circuit` is a check queued with that of the
-- rate.
pub data Effect : Type 0 where
  check_rate check_circuit queue_circuit scan_payload : Effect
  log : Decision → List String → Fields → Option (EnvelopeMessage × StreamAppend) → Effect
  route : EnvelopeMessage → Effect
  commit : EnvelopeMessage → Effect

-- The answers of the components. A scan answers with the types of the violations too.
pub record Components : Type 0 where
  pub authorize : String → String → String → Bool
  pub rate_allowed : String → String → Bool
  pub circuit_allowed : Option (String → Bool)
  pub shared_pool : Bool
  pub scan : Option (Fields → ScanResult × List String)
  pub audit_target : RedisCommitTarget
  pub router_target : RedisCommitTarget
  pub logged : Bool
  pub routed : Result Routing.Error (Unit {0})
  pub committed : Result Routing.Error String
  pub dump_json : EnvelopeMessage → String

abbrev pub Outcome : Type 0
Outcome = Result Error String × List Effect

-- log_and_raise
pub log_and_raise :
    Components → EnvelopeMessage → List Effect → Decision → List String → Error → Outcome
log_and_raise c m before decision violations e = (
  err (if c.logged then e else audit_failed),
  before ++ log decision violations m.data' none ∷ [],
)

-- The append that is committed with the entry of the audit.
pub stream_append :
    Components
    → EnvelopeMessage
    → Option CorrelationCommit
    → Result Error (Option (EnvelopeMessage × StreamAppend))
stream_append c m correlation =
    if compatible_with c.audit_target c.router_target
      && not (is_some correlation)
      && not m.meta.is_reply
    then elim (prepare_stream_append c.dump_json m) [
      | err e ↦ err (routing_error e)
      | ok append ↦ ok (some (m, append))
    ]
    else ok none

abbrev pub lift {ℓ} : {A : Type ℓ} → Result Routing.Error A → Result Error A
lift (ok a) = ok a
lift (err e) = err (routing_error e)

abbrev pub identity_of : EnvelopeMessage → Result Error (Unit {0}) → Result Error String
identity_of m (ok u) = ok m.message_id
identity_of m (err e) = err e

-- The end of the pipeline: the entry of the audit, then the route unless the entry carried it.
pub log_and_route :
    Components
    → EnvelopeMessage
    → Option CorrelationCommit
    → List Effect
    → Decision
    → List String
    → Outcome
log_and_route c m correlation before decision violations = elim (stream_append c m correlation) [
  | err e ↦ (err e, before)
  | ok append ↦
      let logged = before ++ log decision violations m.data' append ∷ [] in
      if not c.logged then (err audit_failed, logged) else elim correlation [
        | some commitment ↦ (lift c.committed, logged ++ commit m ∷ [])
        | none ↦ elim append [
          | some a ↦ (ok m.message_id, logged)
          | none ↦ (identity_of m (lift c.routed), logged ++ route m ∷ [])
        ]
      ]
]

-- The decision and the payload that a scan leads to, or nothing where it blocks.
pub verdict : ScanResult → Fields → Option (Decision × Fields)
verdict result data' = if result.clean then some (allowed, data') else elim result.action [
  | block ↦ none
  | alert ↦ some (alerted, data')
  | redact ↦ elim result.redacted_payload [
    | none ↦ some (dlp_redacted, data')
    | some payload ↦ some (dlp_redacted, payload)
  ]
]

abbrev pub violations_of : ScanResult × List String → List String
violations_of (result, types) = if result.clean then [] else types

pub inspect : Components → EnvelopeMessage → Option CorrelationCommit → List Effect → Outcome
inspect c m correlation before = elim c.scan [
  | none ↦ log_and_route c m correlation before allowed []
  | some scan ↦
      let found = scan m.data' in
      let before' = before ++ scan_payload ∷ [] in
      elim (verdict found.0 m.data') [
        | none ↦ log_and_raise c m before' dlp_blocked (violations_of found) blocked_by_dlp
        | some (decision, payload) ↦
            log_and_route c (record m { data' = payload }) correlation before' decision
              (violations_of found)
      ]
]

-- The checks of the rate and of the circuit, which go together where they share their connections.
pub check_admission : Components → EnvelopeMessage → Option CorrelationCommit → Outcome
check_admission c m correlation =
    let together = is_some c.circuit_allowed && c.shared_pool in
    let before = if together then check_rate ∷ queue_circuit ∷ [] else check_rate ∷ [] in
    if not (c.rate_allowed m.sender_id m.message_id)
    then log_and_raise c m before rate_limited ("rate_limit_exceeded" ∷ []) limit_exceeded
    else elim c.circuit_allowed [
      | none ↦ inspect c m correlation before
      | some check ↦
          let before' = if together then before else before ++ check_circuit ∷ [] in
          if not (check m.target_id)
          then log_and_raise c m before' circuit_open ("circuit_open" ∷ []) circuit_is_open
          else inspect c m correlation before'
    ]

pub ingest_and_route : Components → EnvelopeMessage → Option CorrelationCommit → Outcome
ingest_and_route c m correlation =
    if not (c.authorize m.sender_id m.target_id "send")
    then log_and_raise c m [] authz_denied ("authorization_denied" ∷ []) not_authorized
    else check_admission c m correlation
