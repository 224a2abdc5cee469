-- ===== src/Server/Delivery/WellFormed.antt =====
-- The entries of the streams are told apart by their names, and what is pending is there.
use mas_framework.Common.{
  ℕ, suc, ◌<◌, ◌≡◌, refl, ap, ◌∙◌, ◌==◌, Bool, true, false, ◌&&◌, none, some, List, [], ◌∷◌, ◌++◌,
  String, str_eq, str_eq_iff, if◌then◌else◌, is_some, arith, inl, inr, Bool-cases, All, All-append,
}
use mas_framework.Server.Delivery.{
  RawFields, Entry, Unacknowledged, Store, xadd, pending_for, xack, xdel, ack_entry, find_entry,
}

-- The names in a stream differ.
abbrev pub Distinct : List Entry → Type 0
Distinct [] = Unit {0}
Distinct (e ∷ es) = (find_entry e.stream e.id es ≡ none) × Distinct es

abbrev pub Present : List Entry → Unacknowledged → Type 0
Present es p = is_some (find_entry p.stream p.entry es) ≡ true

abbrev pub WellFormed : Store → Type 0
WellFormed s =
    All (λ e. e.id < s.next) s.entries × Distinct s.entries × All (Present s.entries) s.pending

abbrev pub names : String → ℕ → Entry → Bool
names stream id e = str_eq e.stream stream && e.id == id

pub find_entry-append :
    (stream : String) (id : ℕ) (es : List Entry) (new : Entry)
    → find_entry stream id (es ++ new ∷ []) ≡ (
        if is_some (find_entry stream id es)
        then find_entry stream id es
        else (if names stream id new then some new else none))
unfolding find_entry
find_entry-append stream id [] new = refl
find_entry-append stream id (e ∷ es) new = ground (arith, find_entry-append stream id es new)

find_entry-fresh :
    (stream : String) (id : ℕ) (es : List Entry)
    → All (λ e. e.id < id) es
    → find_entry stream id es ≡ none
unfolding find_entry
find_entry-fresh stream id [] f = refl
find_entry-fresh stream id (e ∷ es) f = ground (arith, f.0, find_entry-fresh stream id es f.1)

pub Distinct-append :
    (es : List Entry) (new : Entry)
    → Distinct es
    → All (λ e. e.id < new.id) es
    → Distinct (es ++ new ∷ [])
unfolding find_entry
Distinct-append [] new d f = (refl, tt)
Distinct-append (e ∷ es) new d f = (
  ground (arith, d.0, f.0, find_entry-append e.stream e.id es new),
  Distinct-append es new d.1 f.1,
)

pub xdel-absent :
    (stream : String) (id : ℕ) (es : List Entry)
    → find_entry stream id es ≡ none
    → xdel stream id es ≡ es
unfolding find_entry xdel
xdel-absent stream id [] h = refl
xdel-absent stream id (e ∷ es) h = elim (Bool-cases (names stream id e)) [
  | inl same ↦ absurd (ground arith)
  | inr other ↦ ground (arith, xdel-absent stream id es (ground arith))
]

-- Only the named entry is deleted.
pub find_entry-xdel :
    (stream : String) (id : ℕ) (stream' : String) (id' : ℕ) (es : List Entry)
    → str_eq stream stream' && id == id' ≡ false
    → find_entry stream' id' (xdel stream id es) ≡ find_entry stream' id' es
unfolding find_entry xdel
find_entry-xdel stream id stream' id' [] h = refl
find_entry-xdel stream id stream' id' (e ∷ es) h = ground (
  arith,
  find_entry-xdel stream id stream' id' es h,
  str_eq_iff e.stream stream,
  str_eq_iff stream stream',
  str_eq_iff e.stream stream',
)

xdel-Distinct :
    (stream : String) (id : ℕ) (es : List Entry) → Distinct es → Distinct (xdel stream id es)
unfolding xdel
xdel-Distinct stream id [] d = tt
xdel-Distinct stream id (e ∷ es) d =
    let rest = xdel-Distinct stream id es d.1 in
    elim (Bool-cases (names stream id e)) [
      | inl same ↦ rw (same) rest
      | inr other ↦
          let apart : str_eq stream e.stream && id == e.id ≡ false =
            ground (arith, other, str_eq_iff e.stream stream, str_eq_iff stream e.stream) in
          rw (other) (find_entry-xdel stream id e.stream e.id es apart ∙ d.0, rest)
    ]

pub xdel-All :
    (P : Entry → Type 0) (stream : String) (id : ℕ) (es : List Entry)
    → All P es
    → All P (xdel stream id es)
unfolding xdel
xdel-All P stream id [] a = tt
xdel-All P stream id (e ∷ es) a = elim (Bool-cases (names stream id e)) [
  | inl same ↦ rw (same) (xdel-All P stream id es a.1)
  | inr other ↦ rw (other) (a.0, xdel-All P stream id es a.1)
]

xack-Present :
    (stream : String) (id : ℕ) (es : List Entry) (ps : List Unacknowledged)
    → All (Present es) ps
    → All (Present (xdel stream id es)) (xack stream id ps)
unfolding xack
xack-Present stream id es [] a = tt
xack-Present stream id es (p ∷ ps) a =
    let rest = xack-Present stream id es ps a.1 in
    elim (Bool-cases (str_eq p.stream stream && p.entry == id)) [
      | inl same ↦ rw (same) rest
      | inr other ↦
          let apart : str_eq stream p.stream && id == p.entry ≡ false =
            ground (arith, other, str_eq_iff p.stream stream, str_eq_iff stream p.stream) in
          let found = find_entry-xdel stream id p.stream p.entry es apart in
          rw (other) (ap is_some found ∙ a.0, rest)
    ]

pub ack_entry-WellFormed :
    (stream : String) (id : ℕ) (s : Store) → WellFormed s → WellFormed (ack_entry stream id s)
unfolding ack_entry
ack_entry-WellFormed stream id s (below, distinct, present) = (
  xdel-All (λ e. e.id < s.next) stream id s.entries below,
  xdel-Distinct stream id s.entries distinct,
  xack-Present stream id s.entries s.pending present,
)

Present-append :
    (es : List Entry) (new : Entry) (p : Unacknowledged) → Present es p → Present (es ++ new ∷ []) p
Present-append es new p h = ground (arith, find_entry-append p.stream p.entry es new)

pub All-map :
    {A : Type 0} {P Q : A → Type 0} (xs : List A) → ((x : A) → P x → Q x) → All P xs → All Q xs
All-map [] f a = tt
All-map (x ∷ xs) f (p, a) = (f x p, All-map xs f a)

pub xadd-WellFormed :
    (stream : String) (fields : RawFields) (s : Store)
    → WellFormed s
    → WellFormed (xadd stream fields s)
unfolding xadd
xadd-WellFormed stream fields s (below, distinct, present) =
    let new : Entry = record { id = s.next; stream = stream; fields = fields } in
    (
      All-append (λ e. e.id < suc s.next) s.entries (new ∷ [])
          (All-map s.entries (λ e lt. omega (arith, lt)) below) (omega arith, tt),
      Distinct-append s.entries new distinct below,
      All-map s.pending (Present-append s.entries new) present,
    )

-- What is pending for a consumer is there.
pub pending_for-found :
    (stream consumer : String) (id : ℕ) (es : List Entry) (ps : List Unacknowledged)
    → All (Present es) ps
    → pending_for stream id ps ≡ some consumer
    → is_some (find_entry stream id es) ≡ true
unfolding pending_for
pending_for-found stream consumer id es [] a h = absurd (ground arith)
pending_for-found stream consumer id es (p ∷ ps) a h =
    elim (Bool-cases (str_eq p.stream stream && p.entry == id)) [
      | inr other ↦ pending_for-found stream consumer id es ps a.1 (ground arith)
      | inl same ↦
          let q : p.stream ≡ stream = (str_eq_iff p.stream stream).0 (ground arith) in
          let r : p.entry ≡ id = ground arith in rw (← q, ← r) a.0
    ]
