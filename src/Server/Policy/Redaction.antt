-- ===== src/Server/Policy/Redaction.antt =====
-- The pipeline with the scanner of data-loss prevention.
use mas_framework.Common.{
  ◌≡◌, refl, sym, ◌∙◌, ◌⊎◌, inl, inr, true, false, Option, none, some, List, [], ◌∷◌, String, arith,
}
use mas_framework.Common.Dict.{Dict}
use mas_framework.Common.Results.{ok}
use mas_framework.Core.Protocol.{EnvelopeMessage, Fields}
use mas_framework.Gateway.Dlp.{
  ActionPolicy, block, redact, ScanResult, Violation, scan, has_policy, redactable, redact_object,
}
use mas_framework.Gateway.Dlp.Action.{scan-redacts, scan-unclean}
use mas_framework.Server.Routing.{CorrelationCommit}
use mas_framework.Server.Policy.{Components, Decision, verdict, ingest_and_route}
use mas_framework.Server.Policy.Mediation.{enqueued, scanned}
use mas_framework.Server.Policy.Checks.{ingest_and_route-Mediated}

verdict-block :
    (r : ScanResult) (payload : Fields)
    → r.clean ≡ false
    → r.action ≡ block
    → verdict r payload ≡ none
unfolding verdict
verdict-block r payload c a = rw (c, a) refl

verdict-redact :
    (r : ScanResult) (payload p : Fields) (d : Decision) (q : Fields)
    → r.clean ≡ false
    → r.action ≡ redact
    → r.redacted_payload ≡ some p
    → verdict r payload ≡ some (d, q)
    → q ≡ p
unfolding verdict
verdict-redact r payload p d q c a e h = ground arith

-- The components scan with the policies, for the violations that the patterns find.
module _ (policies : Dict ActionPolicy) (redact_with : List Violation → String → String)
    (find : Fields → List Violation) (types : Fields → List String) (c : Components)
    (scans : c.scan
      ≡ some (λ payload. (scan policies redact_with (find payload) payload, types payload))) where
  scanned-scan :
      (m : EnvelopeMessage)
      → scanned c m ≡ verdict (scan policies redact_with (find m.data') m.data') m.data'
  scanned-scan m = rw (scans) refl

  -- Where the pipeline scans with the policies and a violation found in the payload is to be
  -- blocked, it puts nothing into a stream.
  pub blocked_not_enqueued :
      (m : EnvelopeMessage) (correlation : Option CorrelationCommit)
      → has_policy policies block (find m.data') ≡ true
      → enqueued (ingest_and_route c m correlation).1 ≡ []
  blocked_not_enqueued m correlation h = elim (ingest_and_route-Mediated c m correlation) [
    | inl (empty, refused) ↦ empty
    | inr (d, m', once, logged, (a, r, p, passed, same)) ↦
        let violations = find m.data' in
        let result = scan policies redact_with violations m.data' in
        let unclean = scan-unclean policies redact_with block violations m.data' h in
        let action = (scan-redacts policies redact_with violations m.data').0 h in
        let n = verdict-block result m.data' unclean action in
        absurd (ground (arith, sym passed ∙ scanned-scan m ∙ n))
  ]

  -- Where the pipeline scans with the policies and a violation found in the payload is to be
  -- redacted, it puts nothing into a stream, or one message whose payload is the redaction of the
  -- first.
  pub redacted_enqueued :
      (m : EnvelopeMessage) (correlation : Option CorrelationCommit)
      → has_policy policies redact (find m.data') ≡ true
      → (enqueued (ingest_and_route c m correlation).1 ≡ [])
        ⊎ ((m' : EnvelopeMessage) × (enqueued (ingest_and_route c m correlation).1 ≡ m' ∷ [])
            × (redact_object (redact_with (redactable policies (find m.data'))) [] m.data'
                ≡ ok m'.data'))
  redacted_enqueued m correlation h = elim (ingest_and_route-Mediated c m correlation) [
    | inl (empty, refused) ↦ inl empty
    | inr (d, m', once, logged, (a, r, p, passed, same)) ↦
        let violations = find m.data' in
        let result = scan policies redact_with violations m.data' in
        let unclean = scan-unclean policies redact_with redact violations m.data' h in
        let there : verdict result m.data' ≡ some (d, m'.data') = sym (scanned-scan m) ∙ passed in
        elim ((scan-redacts policies redact_with violations m.data').1 h) [
          | inl blocked ↦
              let n = verdict-block result m.data' unclean blocked in
              absurd (ground (arith, sym there ∙ n))
          | inr (payload, found, action, redacted, same_keys) ↦
              let q = verdict-redact result m.data' payload d m'.data' unclean action found there in
              inr (m', once, rw (q) redacted)
        ]
  ]
