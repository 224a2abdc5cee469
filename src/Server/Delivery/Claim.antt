-- ===== src/Server/Delivery/Claim.antt =====
-- packages/mas-server/src/mas_server/delivery.py: the script that takes over entries that have been
-- pending for long. XAUTOCLAIM scans at most ten times the entries that it is to claim.
use mas_framework.Common.{
  ℕ, ◌-◌, ◌*◌, ◌==◌, ltb, leb, Bool, false, not, ◌&&◌, ◌||◌, Option, none, some, List, [], ◌∷◌,
  String, str_eq, if◌then◌else◌, is_some,
}
use mas_framework.Common.Dict.{lookup}
use mas_framework.Common.Results.{Result, ok, err}
use mas_framework.Server.Delivery.{
  Error, no_group, Entry, Unacknowledged, Store, is_text, find_entry,
}

abbrev ids_with : ℕ → List ℕ × ℕ → List ℕ × ℕ
ids_with id (ids, cursor) = (id ∷ ids, cursor)

-- What the scan claims and where it stops, 0 at the end: the entries of the stream from `start`
-- that have been pending for the time.
unfoldable pub xautoclaim : String → ℕ → ℕ → ℕ → ℕ → ℕ → List Unacknowledged → List ℕ × ℕ
xautoclaim stream now min_idle start attempts count [] = ([], 0)
xautoclaim stream now min_idle start attempts count (p ∷ ps) =
    let skip = xautoclaim stream now min_idle start attempts count ps in
    let pass = xautoclaim stream now min_idle start (attempts - 1) count ps in
    let claim = xautoclaim stream now min_idle start (attempts - 1) (count - 1) ps in
    if not (str_eq p.stream stream) || ltb p.entry start
    then skip
    else if attempts == 0 || count == 0
    then ([], p.entry)
    else if leb min_idle (now - p.since)
    then ids_with p.entry claim
    else pass

pub has_id : ℕ → List ℕ → Bool
has_id id [] = false
has_id id (x ∷ xs) = x == id || has_id id xs

-- The claimed entries change their consumer, and those that are gone from the stream are dropped.
unfoldable pub reassign :
    String → String → ℕ → List ℕ → List Entry → List Unacknowledged → List Unacknowledged
reassign stream consumer now ids entries [] = []
reassign stream consumer now ids entries (p ∷ ps) =
    let rest = reassign stream consumer now ids entries ps in
    if not (str_eq p.stream stream && has_id p.entry ids)
    then p ∷ rest
    else if is_some (find_entry stream p.entry entries)
    then record p { consumer = consumer; since = now } ∷ rest
    else rest

unfoldable pub found_entries : String → List ℕ → List Entry → List Entry
found_entries stream [] entries = []
found_entries stream (id ∷ ids) entries =
    let rest = found_entries stream ids entries in
    elim (find_entry stream id entries) [ none ↦ rest | some e ↦ e ∷ rest ]

-- _CLAIM_SCRIPT: nothing where the owner is another, or where to go on and the entries.
unfoldable pub claim_script :
    Store
    → Option String
    → String
    → String
    → String
    → ℕ
    → ℕ
    → ℕ
    → ℕ
    → Result Error (Option (ℕ × List Entry)) × Store
claim_script s current owner stream consumer now min_idle start count =
    if not (is_text owner current)
    then (ok none, s)
    else if not (is_some (lookup stream s.positions))
    then (err no_group, s)
    else let (ids, cursor) = xautoclaim stream now min_idle start (count * 10) count s.pending in
      (
        ok (some (cursor, found_entries stream ids s.entries)),
        record s { pending = reassign stream consumer now ids s.entries s.pending },
      )
