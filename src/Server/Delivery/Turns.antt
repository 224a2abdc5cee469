-- ===== src/Server/Delivery/Turns.antt =====
-- What a turn of the loop does to the deliveries of its session.
use mas_framework.Common.{
  ℕ, zero, suc, ◌+◌, ◌*◌, ◌/◌, ◌≤◌, ◌<◌, ◌≡◌, refl, sym, ap, ◌∙◌, ◌==◌, Bool, true, false, Option,
  none, some, List, [], ◌∷◌, ◌++◌, String, if◌then◌else◌, length, append_nil, append_assoc, arith,
  inl, inr, Bool-cases,
}
use mas_framework.Common.Results.{Result, ok, err}
use mas_framework.Server.Sessions.{Session}
use mas_framework.Server.Delivery.{Error, Entry, Store, read_script}
use mas_framework.Server.Delivery.Service.{
  Conditions, Settings, External, Network, answered, unanswered, unsent, over, consumer_of,
}
use mas_framework.Server.Delivery.Capacity.{
  Within, Grows, Grows-same, Grows-more, chain-Grows, deliver_read-Grows, deliver_claimed-Grows,
}
use mas_framework.Server.Delivery.Limits.{claim_script-length, read_script-length}
use mas_framework.Server.Delivery.Claim.{claim_script}
use native.Mathlib.Nat.{mul-le-mul_left, div-mul-le_self, le-div_iff_mul-le}
use mas_framework.Server.Delivery.Loop.{
  LoopState, claimed, reclaim_pending, read, reclaim_both, read_streams, turn_from, turn,
  shared_stream, instance_stream, first_streams, stored, min, available_capacity, Circumstances,
  deliver_claimed, Step, chain,
}

-- The session keeps its queue, at the front, and its bounds.
abbrev pub Kept : Settings → Session → Session → Type 0
Kept settings session session' =
    ((names : List String) × (session'.outbound ≡ session.outbound ++ names))
    × (Within settings session → Within settings session')

Grows-Kept :
    (settings : Settings) (n : ℕ) (a b : Session) → Grows settings n a b → Kept settings a b
Grows-Kept settings n a b (p, q, f) = (p, f)

Kept-trans :
    (settings : Settings) (a b c : Session)
    → Kept settings a b
    → Kept settings b c
    → Kept settings a c
Kept-trans settings a b c ((xs, p), f) ((ys, q), g) =
    ((xs ++ ys, q ∙ ap (λ l. l ++ ys) p ∙ append_assoc a.outbound xs ys), λ w. g (f w))

Kept-same : (settings : Settings) (a : Session) → Kept settings a a
Kept-same settings a = (([], sym (append_nil a.outbound)), λ w. w)

chain-Kept :
    {A B : Type 0} (settings : Settings) (session : Session) (first : Step A)
    (next : A → Session → Store → Step B)
    → Kept settings session first.1
    → ((a : A) (session' : Session) (s : Store) → Kept settings session' (next a session' s).1)
    → Kept settings session (chain first next).1
chain-Kept settings session (ok a, session', s) next k more =
    Kept-trans settings session session' (next a session' s).1 k (more a session' s)
chain-Kept settings session (err x, session', s) next k more = k

stored-ok :
    {A : Type 0} (s : Store) (r : Result Error (A × Store)) (a : A)
    → (stored s r).0 ≡ ok a
    → (s' : Store) × (r ≡ ok (a, s'))
stored-ok s (ok (b, s')) a h = (s', ground arith)
stored-ok s (err x) a h = absurd (ground arith)

min-le : (a b : ℕ) → min a b ≤ b
min-le a b = ground arith

-- The number asked for of each of the streams is positive, and together it is within the capacity.
share : (n k : ℕ) → 0 < k → k ≤ n → (0 < min 50 (n / k)) × (k * min 50 (n / k) ≤ n)
share n k some' le =
    let q = n / k in
    let a = (le-div_iff_mul-le {k = k} {x = 1} {y = n} some').1 (omega (arith, le)) in
    let b = div-mul-le_self n k in
    let c = mul-le-mul_left {m = min 50 q} {n = q} k (min-le 50 q) in
    (ground (arith, a), omega (arith, b, c))

first_streams-length : (n : ℕ) (streams : List String) → length (first_streams n streams) ≤ n
first_streams-length zero streams = omega arith
first_streams-length (suc n) [] = omega arith
first_streams-length (suc n) (x ∷ streams) = omega (arith, first_streams-length n streams)

first_streams-some :
    (n : ℕ) (streams : List String)
    → 0 < n
    → 0 < length streams
    → 0 < length (first_streams n streams)
first_streams-some zero streams h k = absurd (omega (arith, h))
first_streams-some (suc n) [] h k = absurd (omega (arith, k))
first_streams-some (suc n) (x ∷ streams) h k = omega arith

over-ok :
    {A : Type 0} (net : Network) (s : Store) (r : Result Error A × Store) (a : A)
    → (over net s r).0 ≡ ok a
    → r.0 ≡ ok a
over-ok answered s r a h = h
over-ok unanswered s r a h = absurd (ground arith)
over-ok unsent s r a h = absurd (ground arith)

module _ (ext : External) (settings : Settings) where
  claimed-Grows :
      (n : ℕ) (session : Session) (s : Store) (around : Circumstances) (start : ℕ)
      (r : Result Error (Option (ℕ × List Entry)))
      → n ≤ available_capacity settings session
      → ((next : ℕ) (es : List Entry) → r ≡ ok (some (next, es)) → length es ≤ n)
      → Grows settings n session (claimed ext settings session s around start r).1
  unfolding claimed
  claimed-Grows n session s around start (err x) le bound = Grows-same settings n session
  claimed-Grows n session s around start (ok none) le bound = Grows-same settings n session
  claimed-Grows n session s around start (ok (some (next, es))) le bound =
      let few = bound next es refl in
      Grows-more ext settings (length es + 0) n session _ (omega (arith, few)) (
        chain-Grows ext settings (length es) 0 session
          (deliver_claimed ext settings session s around es)
          (λ u session' s'. (ok next, session', s'))
          (deliver_claimed-Grows ext settings session s around es (omega (arith, le, few)))
          (λ u g. Grows-same settings 0 (deliver_claimed ext settings session s around es).1))

  reclaim_pending-Grows :
      (session : Session) (s : Store) (env : Conditions) (around : Circumstances) (stream : String)
      (start : ℕ)
      → Grows settings
          (available_capacity settings session)
          session
          (reclaim_pending ext settings session s env around stream start).1
  unfolding reclaim_pending
  reclaim_pending-Grows session s env around stream start =
      let n = available_capacity settings session in
      let count = min settings.reclaim_batch_size n in
      let script =
        claim_script s env.owner session.lease.owner stream (consumer_of session) env.now
          settings.reclaim_idle_ms start count in
      let (r, s') = over env.network s script in
      elim (Bool-cases (n == 0)) [
        | inl full ↦ rw (full) (Grows-same settings n session)
        | inr roomy ↦ rw (roomy) (
            claimed-Grows n session s' around start r (omega arith) (λ next es h.
              let k =
                claim_script-length s env.owner session.lease.owner stream (consumer_of session)
                  env.now settings.reclaim_idle_ms start count next es
                  (over-ok env.network s script (some (next, es)) h) in
              ground (arith, k)))
      ]

  read-Kept :
      (session : Session) (s : Store) (around : Circumstances)
      (r : Result Error (Option (List Entry)))
      → ((es : List Entry) → r ≡ ok (some es) → length es ≤ available_capacity settings session)
      → Kept settings session (read ext settings session s around r).1
  unfolding read
  read-Kept session s around (err x) bound = Kept-same settings session
  read-Kept session s around (ok none) bound = Kept-same settings session
  read-Kept session s around (ok (some es)) bound =
      Grows-Kept settings (length es) session _
        (deliver_read-Grows ext settings session s around es (bound es refl))

  read_streams-Kept :
      (session : Session) (s : Store) (env : Conditions) (around : Circumstances)
      (streams : List String)
      → 0 < length streams
      → Kept settings session (read_streams ext settings session s env around streams).1
  unfolding read_streams
  read_streams-Kept session s env around streams some' =
      let n = available_capacity settings session in
      let selected = first_streams n streams in
      let count = min 50 (n / length selected) in
      let script =
        read_script s env.owner session.lease.owner selected (consumer_of session) count env.now in
      let (r, s') = over env.network s (stored s script) in
      elim (Bool-cases (n == 0)) [
        | inl full ↦ rw (full) (Kept-same settings session)
        | inr roomy ↦ rw (roomy) (
            read-Kept session s' around r (λ es h.
              let (s2, q) =
                stored-ok s script (some es)
                  (over-ok env.network s (stored s script) (some es) h) in
              let (positive, within) =
                share n (length selected)
                  (first_streams-some n streams (ground (arith, roomy)) some')
                  (first_streams-length n streams) in
              let k =
                read_script-length s s2 env.owner session.lease.owner (consumer_of session) selected
                  count env.now es positive q in
              omega (arith, k, within)))
      ]

  reclaim_both-Kept :
      (session : Session) (s : Store) (loop : LoopState) (first second : Conditions)
      (around : Circumstances) (now : ℕ)
      → Kept settings session (reclaim_both ext settings session s loop first second around now).1
  unfolding reclaim_both
  reclaim_both-Kept session s loop first second around now =
      chain-Kept settings session
        (reclaim_pending ext settings session s first around (shared_stream session)
          loop.shared_start)
        _
        (Grows-Kept settings (available_capacity settings session) session _
          (reclaim_pending-Grows session s first around (shared_stream session) loop.shared_start))
        (λ shared session' s'.
          chain-Kept settings session'
            (reclaim_pending ext settings session' s' second around (instance_stream session)
              loop.instance_start)
            _
            (Grows-Kept settings (available_capacity settings session') session' _ (
              reclaim_pending-Grows session' s' second around (instance_stream session)
                loop.instance_start))
            (λ own session'' s''. Kept-same settings session''))

  reclaim_due-Kept :
      (due : Bool) (session : Session) (s : Store) (loop : LoopState) (first second : Conditions)
      (around : Circumstances) (now : ℕ)
      → Kept settings session
          (if due
            then reclaim_both ext settings session s loop first second around now
            else (ok loop, session, s)).1
  reclaim_due-Kept true session s loop first second around now =
      reclaim_both-Kept session s loop first second around now
  reclaim_due-Kept false session s loop first second around now = Kept-same settings session

  turn_from-Kept :
      (session : Session) (s : Store) (loop : LoopState) (now : ℕ)
      (first second reading : Conditions) (around : Circumstances)
      → 0 < length loop.stream_names
      → Kept settings session
          (turn_from ext settings session s loop now first second reading around).1
  unfolding turn_from
  turn_from-Kept session s loop now first second reading around some' =
      elim (Bool-cases (available_capacity settings session == 0)) [
        | inl full ↦ rw (full) (Kept-same settings session)
        | inr roomy ↦ rw (roomy) (
            chain-Kept {A = LoopState} {B = LoopState} settings session _ _
              (reclaim_due-Kept _ session s loop first second around now)
              (λ loop' session' s'.
                chain-Kept {A = Unit {0}} {B = LoopState} settings session'
                  (read_streams ext settings session' s' reading around loop.stream_names) _
                  (read_streams-Kept session' s' reading around loop.stream_names some')
                  (λ u session'' s''. Kept-same settings session'')))
      ]

  turn-Kept :
      (session : Session) (s : Store) (loop : LoopState) (live : Bool) (now : ℕ)
      (first second reading : Conditions) (around : Circumstances)
      → 0 < length loop.stream_names
      → Kept settings session
          (turn ext settings session s loop live now first second reading around).1
  unfolding turn
  turn-Kept session s loop live now first second reading around some' = elim (Bool-cases live) [
    | inr dead ↦ rw (dead) (Kept-same settings session)
    | inl alive ↦ rw (alive) (
        turn_from-Kept (record session { capacity_changed = false }) s loop now first second reading
          around some')
  ]

  -- A turn of the delivery loop of a session within its bounds, that has streams to read, only
  -- adds to the end of the queue of deliveries, dropping none of it, and leaves the session within
  -- its bounds, whatever its scripts meet.
  pub turn_bounded :
      (session : Session) (s : Store) (loop : LoopState) (live : Bool) (now : ℕ)
      (first second reading : Conditions) (around : Circumstances)
      → 0 < length loop.stream_names
      → Within settings session
      → let session' = (turn ext settings session s loop live now first second reading around).1 in
        ((names : List String) × (session'.outbound ≡ session.outbound ++ names))
        × Within settings session'
  turn_bounded session s loop live now first second reading around some' w =
      let (queue, bounds) = turn-Kept session s loop live now first second reading around some' in
      (queue, bounds w)
