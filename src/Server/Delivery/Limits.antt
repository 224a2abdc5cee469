-- ===== src/Server/Delivery/Limits.antt =====
-- The scripts return no more entries than they are asked for.
use mas_framework.Common.{
  ℕ, zero, suc, ◌-◌, ◌*◌, ◌≤◌, ◌<◌, ◌≡◌, Option, some, List, [], ◌∷◌, ◌++◌, String, length,
  length-append, arith, inl, inr, Bool-cases, Option-cases,
}
use mas_framework.Common.Dict.{lookup, insert}
use mas_framework.Common.Results.{ok, Result-cases}
use mas_framework.Server.Delivery.{
  Entry, Unacknowledged, Store, entries_after, take, limited, xreadgroup, read_script, is_text,
  last_id, deliver_to, find_entry,
}
use mas_framework.Server.Delivery.Claim.{xautoclaim, found_entries, claim_script}

xautoclaim-length :
    (stream : String) (now min_idle start attempts count : ℕ) (ps : List Unacknowledged)
    → length (xautoclaim stream now min_idle start attempts count ps).0 ≤ count
unfolding xautoclaim
xautoclaim-length stream now min_idle start attempts count [] = omega arith
xautoclaim-length stream now min_idle start attempts count (p ∷ ps) = ground (
  arith,
  xautoclaim-length stream now min_idle start attempts count ps,
  xautoclaim-length stream now min_idle start (attempts - 1) count ps,
  xautoclaim-length stream now min_idle start (attempts - 1) (count - 1) ps,
)

found_entries-length :
    (stream : String) (ids : List ℕ) (es : List Entry)
    → length (found_entries stream ids es) ≤ length ids
unfolding found_entries
found_entries-length stream [] es = omega arith
found_entries-length stream (id ∷ ids) es = elim (Option-cases (find_entry stream id es)) [
  | inl q ↦ ground (arith, found_entries-length stream ids es)
  | inr (e, q) ↦ ground (arith, found_entries-length stream ids es)
]

pub claim_script-length :
    (s : Store) (current : Option String) (owner stream consumer : String)
    (now min_idle start count next : ℕ) (es : List Entry)
    → (claim_script s current owner stream consumer now min_idle start count).0
      ≡ ok (some (next, es))
    → length es ≤ count
unfolding claim_script
claim_script-length s current owner stream consumer now min_idle start count next es h =
    let (ids, cursor) = xautoclaim stream now min_idle start (count * 10) count s.pending in
    let a = xautoclaim-length stream now min_idle start (count * 10) count s.pending in
    let b = found_entries-length stream ids s.entries in
    elim (Bool-cases (is_text owner current)) [
      | inr other ↦ absurd (ground arith)
      | inl same ↦ elim (Option-cases (lookup stream s.positions)) [
        | inl no_group ↦ absurd (ground arith)
        | inr (position, group) ↦
            let e : es ≡ found_entries stream ids s.entries = ground arith in
            rw (e) (omega (arith, a, b))
      ]
    ]

take-length : (n : ℕ) (es : List Entry) → length (take n es) ≤ n
unfolding take
take-length zero es = omega arith
take-length (suc n) [] = omega arith
take-length (suc n) (e ∷ es) = omega (arith, take-length n es)

limited-length : (n : ℕ) (es : List Entry) → 0 < n → length (limited n es) ≤ n
unfolding limited
limited-length zero es h = absurd (omega (arith, h))
limited-length (suc n) es h = take-length (suc n) es

xreadgroup-length :
    (s s' : Store) (consumer : String) (count now : ℕ) (streams : List String) (es : List Entry)
    → 0 < count
    → xreadgroup s consumer count now streams ≡ ok (es, s')
    → length es ≤ length streams * count
unfolding xreadgroup
xreadgroup-length s s' consumer count now [] es h q = ground arith
xreadgroup-length s s' consumer count now (stream ∷ streams) es h q =
    elim (Option-cases (lookup stream s.positions)) [
      | inl none' ↦ absurd (ground arith)
      | inr (position, g) ↦
          let found = limited count (entries_after stream position s.entries) in
          let s2 = record s {
            positions = insert stream (last_id position found) s.positions;
            pending = s.pending ++ deliver_to consumer now found;
          } in
          elim (Result-cases (xreadgroup s2 consumer count now streams)) [
            | inr (x, f) ↦ absurd (ground arith)
            | inl ((more, s3), f) ↦
                let e : es ≡ found ++ more = ground arith in
                let a = limited-length count (entries_after stream position s.entries) h in
                let b = xreadgroup-length s2 s3 consumer count now streams more h f in
                let c = length-append found more in rw (e) (omega (arith, a, b, c))
          ]
    ]

-- Whatever the script reads is within the number for each stream.
pub read_script-length :
    (s s' : Store) (current : Option String) (owner consumer : String) (streams : List String)
    (count now : ℕ) (es : List Entry)
    → 0 < count
    → read_script s current owner streams consumer count now ≡ ok (some es, s')
    → length es ≤ length streams * count
unfolding read_script
read_script-length s s' current owner consumer streams count now es h q =
    elim (Bool-cases (is_text owner current)) [
      | inr other ↦ absurd (ground arith)
      | inl same ↦ elim (Result-cases (xreadgroup s consumer count now streams)) [
        | inr (x, f) ↦ absurd (ground arith)
        | inl ((more, s2), f) ↦
            let e : es ≡ more = ground arith in
            rw (e) (xreadgroup-length s s2 consumer count now streams more h f)
      ]
    ]
