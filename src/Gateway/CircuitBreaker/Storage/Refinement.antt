-- ===== src/Gateway/CircuitBreaker/Storage/Refinement.antt =====
-- The circuit in Redis against the pure rules: events that are applied one after the other to a key
-- that expires, and a status that is forgotten.
use mas_framework.Common.{
  ℕ, ◌+◌, ◌-◌, ◌*◌, ◌≤◌, ◌<◌, ◌≡◌, refl, ◌⊎◌, inl, inr, true, false, Option, none, some, List, [],
  ◌∷◌, arith, Bool-cases, not, leb, if◌then◌else◌,
}
use mas_framework.Common.Dict.{lookup}
use mas_framework.Common.Results.{Result, ok, ◌>>=◌}
use mas_framework.Gateway.CircuitBreaker.{
  Config, CircuitStatus, Event, check, is_open, default_status, transition, status_eq,
}
use mas_framework.Gateway.CircuitBreaker.Storage.{
  Error, Codec, Stored, missing, elapse, status_from_data, expiry, persist, watch_loop, apply_event,
  resolve_check,
}
use mas_framework.Gateway.CircuitBreaker.Storage.RoundTrip.{Holds, persist-Holds}
use mas_framework.Gateway.CircuitBreaker.Storage.Retry.{attempt_lem}

derived :
    (c : Config) (now : ℕ) (e : Event) (s : CircuitStatus)
    → (transition c now e s).1.allowed ≡ not (is_open (transition c now e s).1.state)
unfolding transition
derived c now e s = refl

-- A circuit of the abstract rules: nothing, or the last status that was recorded and when.
abbrev pub Circuit : Type 0
Circuit = Option (CircuitStatus × ℕ)

abbrev pub status_of : Circuit → CircuitStatus
status_of none = default_status
status_of (some (s, written)) = s

-- A status is forgotten once it has not been recorded again for the life of its record.
unfoldable pub kept : ℕ → ℕ → Circuit → Circuit
kept life now none = none
kept life now (some (s, written)) = if leb (written + life) now then none else some (s, written)

unfoldable pub recorded_at : Config → ℕ → ℕ → Event → Circuit → Circuit
recorded_at c life now e m =
    let r = (transition c now e (status_of (kept life now m))).1 in
    if status_eq r (status_of (kept life now m)) then kept life now m else some (r, now)

unfoldable pub run_kept : Config → ℕ → Circuit → List (ℕ × Event) → Circuit
run_kept c life m [] = m
run_kept c life m ((now, e) ∷ rest) = run_kept c life (recorded_at c life now e m) rest

-- The clock readings from one time to another do not go back.
abbrev pub InOrder : ℕ → List (ℕ × Event) → ℕ → Type 0
InOrder before [] last = before ≤ last
InOrder before ((now, e) ∷ rest) last = (before ≤ now) × InOrder now rest last

module _ (codec : Codec) (c : Config) (second : ℕ) where
  abbrev pub life : ℕ
  life = expiry codec c second * second

  apply_event-eq :
      (now : ℕ) (e : Event) (base : Stored) (s : CircuitStatus)
      → Holds codec base s
      → let (checked, recorded) = transition c now e s in
        apply_event codec c second e now base base [] now
        ≡ ok (
          checked,
          recorded,
          if status_eq recorded s then base else persist codec c second base recorded,
        )
  unfolding apply_event watch_loop
  apply_event-eq now e base s h = elim (Bool-cases (status_eq (transition c now e s).1 s)) [
    | inl same ↦ rw (attempt_lem codec c second now e base s h.reads, same) refl
    | inr new ↦ rw (attempt_lem codec c second now e base s h.reads, new) refl
  ]

  -- The events that one broker applies to a circuit's key, one after the other, each at its time,
  -- and what the key holds at the time `last`; the key is as given at the time `before`.
  unfoldable pub serve : ℕ → Stored → List (ℕ × Event) → ℕ → Result Error Stored
  serve before base [] last = ok (elapse (last - before) base)
  serve before base ((now, e) ∷ rest) last = do
    let held = elapse (now - before) base
    (_, _, after) ← apply_event codec c second e now held held [] now
    serve now after rest last

  pub missing-Holds : Holds codec missing default_status
  unfolding status_from_data lookup
  missing-Holds = record { reads = refl; derives = refl; plain = refl }

  -- At a time, the key holds the circuit.
  abbrev pub Stands : ℕ → Stored → Circuit → Type 0
  Stands now base none = base ≡ missing
  Stands now base (some (s, written)) =
      Holds codec base s × ((left : ℕ) × (base.ttl ≡ some left) × (now + left ≡ written + life))

  elapse-Stands :
      (before now : ℕ) (base : Stored) (m : Circuit)
      → before ≤ now
      → Stands before base m
      → Stands now (elapse (now - before) base) (kept life now m)
  unfolding elapse kept
  elapse-Stands before now base none l h = rw (h) refl
  elapse-Stands before now base (some (s, written)) l (h, (left, t, e)) =
      elim (Bool-cases (leb (written + life) now)) [
        | inl over ↦
            let gone : leb left (now - before) ≡ true = ground arith in rw (over, t, gone) refl
        | inr alive ↦
            let lives : leb left (now - before) ≡ false = ground arith in
            rw (alive, t, lives)
              (
                record { reads = h.reads; derives = h.derives; plain = h.plain },
                (left - (now - before), refl, ground arith),
              )
      ]

  pub Stands-Holds :
      (now : ℕ) (base : Stored) (m : Circuit) → Stands now base m → Holds codec base (status_of m)
  Stands-Holds now base none h = rw (h) missing-Holds
  Stands-Holds now base (some (s, written)) h = h.0

  -- What an event leaves at a key that holds the circuit.
  apply_event-Stands :
      (now : ℕ) (e : Event) (base : Stored) (m : Circuit)
      → Stands now base m
      → let (checked, recorded) = transition c now e (status_of m) in
        (after : Stored) × (apply_event codec c second e now base base [] now
          ≡ ok (checked, recorded, after))
        × Stands now after (if status_eq recorded (status_of m) then m else some (recorded, now))
  apply_event-Stands now e base m h =
      let s = status_of m in
      let (checked, recorded) = transition c now e s in
      let holds = Stands-Holds now base m h in
      elim (Bool-cases (status_eq recorded s)) [
        | inl same ↦ (base, rw (apply_event-eq now e base s holds, same) refl, rw (same) h)
        | inr new ↦ (
          persist codec c second base recorded,
          rw (apply_event-eq now e base s holds, new) refl,
          rw (new) (
            persist-Holds codec c second base recorded (derived c now e s) holds.plain,
            (life, unfold persist in refl, refl),
          ),
        )
      ]

  -- Served in the order of their times, events leave a key that holds what the rules keep.
  pub serve-Stands :
      (before last : ℕ) (base : Stored) (m : Circuit) (es : List (ℕ × Event))
      → InOrder before es last
      → Stands before base m
      → (after : Stored) × (serve before base es last ≡ ok after)
        × Stands last after (kept life last (run_kept c life m es))
  unfolding serve run_kept
  serve-Stands before last base m [] order h =
      (elapse (last - before) base, refl, elapse-Stands before last base m order h)
  serve-Stands before last base m ((now, e) ∷ rest) (l, order) h =
      let held = elapse-Stands before now base m l h in
      let (mid, q, stands) =
        apply_event-Stands now e (elapse (now - before) base) (kept life now m) held in
      let (after, p, g) =
        serve-Stands now last mid (recorded_at c life now e m) rest order
          (unfold recorded_at in stands) in
      (after, rw (q) p, g)

  -- Where a second is at least one tick, a circuit that is not recorded again is kept for its
  -- window and twice its timeout at least, and for less than a second more than the longer of
  -- them. Applied in the order of their times to a key that does not exist, any events succeed,
  -- and at any time that is not before them the key is read as the status that the rules keep of
  -- them, or as the default once it is forgotten.
  pub serve-run_kept :
      (before last : ℕ) (es : List (ℕ × Event))
      → 0 < second
      → InOrder before es last
      → (c.window ≤ life)
        × (c.timeout * 2 ≤ life)
        × ((life < c.window + second) ⊎ (life < c.timeout * 2 + second))
        × ((after : Stored) × (serve before missing es last ≡ ok after)
            × (status_from_data codec after.hash
                ≡ ok (status_of (kept life last (run_kept c life none es)))))
  serve-run_kept before last es positive order =
      let (after, q, h) = serve-Stands before last missing none es order refl in
      let reads = (Stands-Holds last after (kept life last (run_kept c life none es)) h).reads in
      (
        unfold expiry in ground arith,
        unfold expiry in ground arith,
        unfold expiry in ground arith,
        (after, q, reads),
      )

  -- The admission check that is queued as a read gives the answer of a full check, or its error,
  -- and leaves the key as the full check does, at the same reading of the key and of the clock.
  pub resolve_check-eq-apply_event :
      (now : ℕ) (base : Stored)
      → resolve_check codec c second now base now base base [] now ≡ (do
        (checked, _, after) ← apply_event codec c second check now base base [] now
        ok (checked, after))
  unfolding resolve_check apply_event
  resolve_check-eq-apply_event now base = ground arith
