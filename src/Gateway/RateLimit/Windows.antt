-- ===== src/Gateway/RateLimit/Windows.antt =====
-- The sliding windows: what a sorted set keeps of the admissions, and that no window ever holds more
-- admissions than its limit.
use mas_framework.Common.{
  ℕ, ◌+◌, ◌≤◌, ◌≡◌, refl, ap, ◌∙◌, inl, inr, false, none, some, String, [], ◌∷◌, arith, leb,
  if◌then◌else◌, All, Bool-cases,
}
use mas_framework.Gateway.RateLimit.{
  Zset, Slot, missing, foreign, holds, is_foreign, entries, prune, zadd, refill,
}
use mas_framework.Gateway.RateLimit.Script.{NotIn, without_of_NotIn, prune-NotIn}

prune_later : (w now n : ℕ) (z : Zset) → now ≤ n → prune w n (prune w now z) ≡ prune w n z
unfolding prune
prune_later w now n [] h = refl
prune_later w now n ((score, member) ∷ z) h = ground (arith, prune_later w now n z)

-- No entry is later than the time.
abbrev pub UpTo : ℕ → Zset → Type 0
UpTo last = All (λ (score, member). score ≤ last)

pub UpTo-mono : (a b : ℕ) (z : Zset) → a ≤ b → UpTo a z → UpTo b z
UpTo-mono a b [] h u = tt
UpTo-mono a b ((score, member) ∷ z) h u = (omega arith, UpTo-mono a b z h u.1)

prune_past : (w last n : ℕ) (z : Zset) → UpTo last z → last + w ≤ n → prune w n z ≡ []
unfolding prune
prune_past w last n [] u h = refl
prune_past w last n ((score, member) ∷ z) u h = ground (arith, prune_past w last n z u.1)

-- From `last` on, the key shows the admissions in its window.
abbrev pub Tracks : ℕ → ℕ → Slot Zset → Zset → Type 0
Tracks w last slot admitted = (n : ℕ) → last ≤ n → prune w n (entries n slot) ≡ prune w n admitted

pub refill-types : (slot : Slot Zset) (z : Zset) → is_foreign (refill slot z) ≡ false
unfolding refill
refill-types missing [] = refl
refill-types missing (e ∷ z) = refl
refill-types foreign [] = refl
refill-types foreign (e ∷ z) = refl
refill-types (holds old d) [] = refl
refill-types (holds old d) (e ∷ z) = refl

refill-none : (w n : ℕ) (z p : Zset) → prune w n (entries n (refill (holds z none) p)) ≡ prune w n p
unfolding entries refill
refill-none w n z [] = refl
refill-none w n z (e ∷ p) = refl

refill-some :
    (w n d : ℕ) (z p : Zset)
    → prune w n (entries n (refill (holds z (some d)) p)) ≡ (if leb d n then [] else prune w n p)
unfolding entries refill prune
refill-some w n d z [] = ground arith
refill-some w n d z (e ∷ p) = ground arith

-- Removing what has left the window at `now` shows nothing less at a later time.
pub entries-refill :
    (w now n : ℕ) (slot : Slot Zset)
    → now ≤ n
    → prune w n (entries n (refill slot (prune w now (entries now slot))))
      ≡ prune w n (entries n slot)
entries-refill w now n missing h = unfold prune entries refill in refl
entries-refill w now n foreign h = unfold prune entries refill in refl
entries-refill w now n (holds z none) h =
    refill-none w n z (prune w now (entries now (holds z none)))
    ∙ unfold entries in prune_later w now n z h
entries-refill w now n (holds z (some d)) h =
    refill-some w n d z (prune w now (entries now (holds z (some d))))
    ∙ unfold entries prune in ground (arith, prune_later w now n z h)

pub Tracks-refill :
    (w last now : ℕ) (slot : Slot Zset) (admitted : Zset)
    → last ≤ now
    → Tracks w last slot admitted
    → Tracks w now (refill slot (prune w now (entries now slot))) admitted
Tracks-refill w last now slot admitted h t n k = entries-refill w now n slot k ∙ t n (omega arith)

pub Tracks-zadd :
    (w last now : ℕ) (id : String) (slot : Slot Zset) (admitted : Zset)
    → last ≤ now
    → UpTo last admitted
    → NotIn id admitted
    → Tracks w last slot admitted
    → Tracks w now
        (holds (zadd now id (prune w now (entries now slot))) (some (now + w)))
        ((now, id) ∷ admitted)
unfolding entries prune zadd
Tracks-zadd w last now id slot admitted h u f t n k = rw kept (elim (Bool-cases (leb (now + w) n)) [
  | inl gone ↦ ground (
    arith,
    prune_past w now n ((now, id) ∷ admitted) (omega arith, UpTo-mono last now admitted h u),
  )
  | inr live ↦ ground (arith, prune_later w now n admitted k)
])
  where
    kept : zadd now id (prune w now (entries now slot)) ≡ (now, id) ∷ prune w now admitted
    kept = rw (t now h) (
        ap (◌∷◌ (now, id))
          (without_of_NotIn id (prune w now admitted) (prune-NotIn w now id admitted f)))
