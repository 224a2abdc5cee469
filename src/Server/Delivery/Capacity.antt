-- ===== src/Server/Delivery/Capacity.antt =====
-- The loop reads no more than there is room for, so that it drops nothing that is queued.
use mas_framework.Common.{
  ℕ, suc, ◌+◌, ◌≤◌, ◌<◌, ◌≡◌, refl, sym, ap, ◌∙◌, ◌==◌, leb, ◌&&◌, List, [], ◌∷◌, ◌++◌, String,
  str_eq, length, length-append, append_nil, append_assoc, arith, inl, inr, ◌⊎◌, Bool-cases,
}
use mas_framework.Common.Dict.{Dict, lookup, insert}
use mas_framework.Common.Results.{ok, err, Result-cases}
use mas_framework.Server.Sessions.{Session}
use mas_framework.Server.Sessions.Table.{drop_oldest_outbound-roomy}
use mas_framework.Server.Delivery.{Entry, Store}
use mas_framework.Server.Delivery.Service.{
  Conditions, Settings, External, deliver_entry, attempt_of, delivery_for,
}
use mas_framework.Server.Delivery.Loop.{
  available_capacity, or_empty, Circumstances, is_inflight, handle_entry, deliver_read,
  deliver_claimed, Step, chain, to_step,
}

length-insert :
    {V : Type 0} (name : String) (v : V) (d : Dict V) → length (insert name v d) ≤ suc (length d)
unfolding insert
length-insert name v [] = omega arith
length-insert name v ((n, w) ∷ d) = ground (arith, length-insert name v d)

-- The bounds on the deliveries of a session.
abbrev pub Within : Settings → Session → Type 0
Within settings session =
    (length session.inflight ≤ settings.max_in_flight)
    × ((settings.outbound_maxsize ≡ 0) ⊎ (length session.outbound ≤ settings.outbound_maxsize))

-- The session keeps its queue and adds at most so many deliveries to it, within its bounds.
abbrev pub Grows : Settings → ℕ → Session → Session → Type 0
Grows settings n session session' =
    ((names : List String) × (session'.outbound ≡ session.outbound ++ names))
    × (available_capacity settings session ≤ available_capacity settings session' + n)
    × (Within settings session → Within settings session')

pub Grows-same :
    (settings : Settings) (n : ℕ) (session : Session) → Grows settings n session session
Grows-same settings n session = (([], sym (append_nil session.outbound)), omega arith, λ w. w)

module _ (ext : External) (settings : Settings) where
  deliver_entry-Grows :
      (session session' : Session) (s : Store) (env : Conditions) (id : String) (e : Entry)
      (envelope : String)
      → 0 < available_capacity settings session
      → (deliver_entry ext settings session s env id e envelope).0 ≡ ok session'
      → Grows settings 1 session session'
  unfolding deliver_entry available_capacity
  deliver_entry-Grows session session' s env id e envelope room h =
      let attempt = attempt_of ext settings (lookup "attempt" e.fields) in
      elim (Bool-cases (leb 1 attempt && leb attempt settings.max_delivery_attempts)) [
        | inr bad ↦
            let same : session' ≡ session = ground arith in
            rw (same) (Grows-same settings 1 session)
        | inl good ↦
            let roomy =
              drop_oldest_outbound-roomy settings.outbound_maxsize session.outbound session.inflight
                (ground arith) in
            let d = delivery_for ext settings session e envelope attempt env.now in
            let grown : session' ≡ record session {
              outbound = session.outbound ++ id ∷ [];
              inflight = insert id d session.inflight;
            } =
              ground arith in
            rw (grown) (
              (id ∷ [], refl),
              ground (
                arith,
                length-insert id d session.inflight,
                length-append session.outbound (id ∷ []),
              ),
              λ w. (
                ground (arith, w.0, length-insert id d session.inflight),
                elim w.1 [
                  | inl unbounded ↦ inl unbounded
                  | inr le ↦ elim (Bool-cases (settings.outbound_maxsize == 0)) [
                    | inl z ↦ inl (ground (arith, z))
                    | inr nz ↦ inr (ground (arith, length-append session.outbound (id ∷ [])))
                  ]
                ],
              ),
            )
      ]

  handle_entry-Grows :
      (session : Session) (s : Store) (around : Circumstances) (e : Entry)
      → 0 < available_capacity settings session
      → Grows settings 1 session (handle_entry ext settings session s around e).1
  unfolding handle_entry
  handle_entry-Grows session s around e room =
      let envelope = or_empty (lookup "envelope" e.fields) in
      let (env, id) = around e.id in
      elim (Bool-cases (str_eq envelope "")) [
        | inl malformed ↦ rw (malformed) (Grows-same settings 1 session)
        | inr some' ↦
            let r = deliver_entry ext settings session s env id e envelope in
            elim (Result-cases r.0) [
              | inr (x, q) ↦
                  let same : (to_step session r).1 ≡ session = ground (arith, q) in
                  rw (some', same) (Grows-same settings 1 session)
              | inl (session', q) ↦
                  let same : (to_step session r).1 ≡ session' = ground (arith, q) in
                  rw (some', same) (deliver_entry-Grows session session' s env id e envelope room q)
            ]
      ]

  pub Grows-trans :
      (n m : ℕ) (a b c : Session)
      → Grows settings n a b
      → Grows settings m b c
      → Grows settings (n + m) a c
  Grows-trans n m a b c ((xs, p), q, f) ((ys, p'), q', f') = (
    (xs ++ ys, p' ∙ ap (λ l. l ++ ys) p ∙ append_assoc a.outbound xs ys),
    omega (arith, q, q'),
    λ w. f' (f w),
  )

  pub Grows-more : (n m : ℕ) (a b : Session) → n ≤ m → Grows settings n a b → Grows settings m a b
  Grows-more n m a b le (p, q, f) = (p, omega (arith, q, le), f)

  -- A step followed by another.
  pub chain-Grows :
      {A B : Type 0} (n m : ℕ) (session : Session) (first : Step A)
      (next : A → Session → Store → Step B)
      → Grows settings n session first.1
      → ((a : A)
          → Grows settings n session first.1
          → Grows settings m first.1 (next a first.1 first.2).1)
      → Grows settings (n + m) session (chain first next).1
  chain-Grows n m session (ok a, session', s') next g more =
      Grows-trans n m session session' (next a session' s').1 g (more a g)
  chain-Grows n m session (err x, session', s') next g more =
      Grows-more n (n + m) session session' (omega arith) g

  pub deliver_read-Grows :
      (session : Session) (s : Store) (around : Circumstances) (es : List Entry)
      → length es ≤ available_capacity settings session
      → Grows settings (length es) session (deliver_read ext settings session s around es).1
  unfolding deliver_read
  deliver_read-Grows session s around [] room = Grows-same settings 0 session
  deliver_read-Grows session s around (e ∷ es) room =
      elim (Bool-cases (leb settings.max_in_flight (length session.inflight))) [
        | inl full ↦ rw (full) (Grows-same settings (suc (length es)) session)
        | inr roomy ↦ rw (roomy) (
            Grows-more (1 + length es) (suc (length es)) session _ (omega arith) (
              chain-Grows 1 (length es) session (handle_entry ext settings session s around e)
                (λ u session' s'. deliver_read ext settings session' s' around es)
                (handle_entry-Grows session s around e (omega (arith, room)))
                (λ u g.
                  let first = handle_entry ext settings session s around e in
                  deliver_read-Grows first.1 first.2 around es (omega (arith, g.1, room)))))
      ]

  pub deliver_claimed-Grows :
      (session : Session) (s : Store) (around : Circumstances) (es : List Entry)
      → length es ≤ available_capacity settings session
      → Grows settings (length es) session (deliver_claimed ext settings session s around es).1
  unfolding deliver_claimed
  deliver_claimed-Grows session s around [] room = Grows-same settings 0 session
  deliver_claimed-Grows session s around (e ∷ es) room =
      elim (Bool-cases (is_inflight e session.inflight)) [
        | inl skipped ↦ rw (skipped) (
            Grows-more (length es) (suc (length es)) session _ (omega arith)
              (deliver_claimed-Grows session s around es (omega (arith, room))))
        | inr fresh ↦ rw (fresh) (
            Grows-more (1 + length es) (suc (length es)) session _ (omega arith) (
              chain-Grows 1 (length es) session (handle_entry ext settings session s around e)
                (λ u session' s'. deliver_claimed ext settings session' s' around es)
                (handle_entry-Grows session s around e (omega (arith, room)))
                (λ u g.
                  let first = handle_entry ext settings session s around e in
                  deliver_claimed-Grows first.1 first.2 around es (omega (arith, g.1, room)))))
      ]
