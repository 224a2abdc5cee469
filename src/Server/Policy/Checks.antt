-- ===== src/Server/Policy/Checks.antt =====
-- Every path through the checks, and what data-loss prevention lets through.
use mathlib.Core.Path.{subst}
use mas_framework.Common.{
  ◌≡◌, refl, sym, inl, inr, Bool, true, false, ◌&&◌, Option, List, [], ◌∷◌, ◌++◌, if◌then◌else◌,
  is_some, arith, Bool-cases, Option-cases,
}
use mas_framework.Core.Protocol.{EnvelopeMessage}
use mas_framework.Server.Routing.{CorrelationCommit}
use mas_framework.Server.Policy.{
  authz_denied, rate_limited, circuit_open, dlp_blocked, allowed, not_authorized, limit_exceeded,
  circuit_is_open, blocked_by_dlp, Effect, check_rate, check_circuit, queue_circuit, scan_payload,
  Components, Outcome, log_and_raise, log_and_route, verdict, violations_of, inspect,
  check_admission, ingest_and_route,
}
use mas_framework.Server.Policy.Mediation.{
  circuit_passes, Mediated, Quiet, Quiet-append, log_and_route-Mediated, log_and_raise-Mediated,
}

inspect-Mediated :
    (c : Components) (m : EnvelopeMessage) (correlation : Option CorrelationCommit)
    (before : List Effect)
    → Quiet before
    → c.authorize m.sender_id m.target_id "send" ≡ true
    → c.rate_allowed m.sender_id m.message_id ≡ true
    → circuit_passes c m ≡ true
    → Mediated c m (inspect c m correlation before)
unfolding inspect
inspect-Mediated c m correlation before q a r p = elim (Option-cases c.scan) [
  | inl f ↦
      let g : inspect c m correlation before ≡ log_and_route c m correlation before allowed [] =
        ground arith in
      subst (Mediated c m) (sym g)
        (log_and_route-Mediated c m m correlation before allowed [] q (a, r, p, ground arith, refl))
  | inr (scan, f) ↦
      let found = scan m.data' in
      let before' = before ++ scan_payload ∷ [] in
      let q' = Quiet-append before (scan_payload ∷ []) q (refl, tt) in
      elim (Option-cases (verdict found.0 m.data')) [
        | inl blocked ↦
            let g : inspect c m correlation before
                ≡ log_and_raise c m before' dlp_blocked (violations_of found) blocked_by_dlp =
              ground arith in
            subst (Mediated c m) (sym g) (
              log_and_raise-Mediated c m before' dlp_blocked (violations_of found) blocked_by_dlp
                q')
        | inr ((d, payload), passed) ↦
            let m' : EnvelopeMessage = record m { data' = payload } in
            let g : inspect c m correlation before
                ≡ log_and_route c m' correlation before' d (violations_of found) =
              ground arith in
            subst (Mediated c m) (sym g) (
              log_and_route-Mediated c m m' correlation before' d (violations_of found) q'
                (a, r, p, ground arith, refl))
      ]
]

first_checks :
    (together : Bool)
    → Quiet (if together then check_rate ∷ queue_circuit ∷ [] else check_rate ∷ [])
first_checks true = (refl, (refl, tt))
first_checks false = (refl, tt)

all_checks :
    (together : Bool) (before : List Effect)
    → Quiet before
    → Quiet (if together then before else before ++ check_circuit ∷ [])
all_checks true before q = q
all_checks false before q = Quiet-append before (check_circuit ∷ []) q (refl, tt)

check_admission-Mediated :
    (c : Components) (m : EnvelopeMessage) (correlation : Option CorrelationCommit)
    → c.authorize m.sender_id m.target_id "send" ≡ true
    → Mediated c m (check_admission c m correlation)
unfolding check_admission
check_admission-Mediated c m correlation a =
    let together = is_some c.circuit_allowed && c.shared_pool in
    let before = if together then check_rate ∷ queue_circuit ∷ [] else check_rate ∷ [] in
    let before' = if together then before else before ++ check_circuit ∷ [] in
    let q = first_checks together in
    let q' = all_checks together before q in
    let to : (o : Outcome)
        → check_admission c m correlation ≡ o
        → Mediated c m o
        → Mediated c m (check_admission c m correlation) =
      λ o e h. subst (Mediated c m) (sym e) h in
    elim (Bool-cases (c.rate_allowed m.sender_id m.message_id)) [
      | inr over' ↦
          to (log_and_raise c m before rate_limited ("rate_limit_exceeded" ∷ []) limit_exceeded)
            (ground arith)
            (log_and_raise-Mediated c m before rate_limited ("rate_limit_exceeded" ∷ [])
              limit_exceeded q)
      | inl within ↦ elim (Option-cases c.circuit_allowed) [
        | inl f ↦
            to (inspect c m correlation before) (ground arith)
              (inspect-Mediated c m correlation before q a within (ground arith))
        | inr (check, f) ↦ elim (Bool-cases (check m.target_id)) [
          | inr open' ↦
              to (log_and_raise c m before' circuit_open ("circuit_open" ∷ []) circuit_is_open)
                (ground arith)
                (log_and_raise-Mediated c m before' circuit_open ("circuit_open" ∷ [])
                  circuit_is_open q')
          | inl closed ↦
              to (inspect c m correlation before') (ground arith)
                (inspect-Mediated c m correlation before' q' a within (ground arith))
        ]
      ]
    ]

-- Whatever the components answer, the pipeline either fails and puts nothing into a stream, or
-- puts exactly one message there, with exactly one entry in the audit that has the decision and
-- the payload of that message; then the sender was authorized, its rate and the circuit of the
-- target allowed it, and the decision and the payload are those that the scan leads to.
pub ingest_and_route-Mediated :
    (c : Components) (m : EnvelopeMessage) (correlation : Option CorrelationCommit)
    → Mediated c m (ingest_and_route c m correlation)
unfolding ingest_and_route
ingest_and_route-Mediated c m correlation =
    elim (Bool-cases (c.authorize m.sender_id m.target_id "send")) [
      | inl a ↦
          let g : ingest_and_route c m correlation ≡ check_admission c m correlation =
            ground arith in
          subst (Mediated c m) (sym g) (check_admission-Mediated c m correlation a)
      | inr denied ↦
          let g : ingest_and_route c m correlation
              ≡ log_and_raise c m [] authz_denied ("authorization_denied" ∷ []) not_authorized =
            ground arith in
          subst (Mediated c m) (sym g) (
            log_and_raise-Mediated c m [] authz_denied ("authorization_denied" ∷ []) not_authorized
              tt)
    ]
