-- ===== src/Common/Sets.antt =====
-- Sets of texts as lists without repetition: Python's sets and the sets of Redis.
use Prim.Native.Nat.{◌≤◌, ◌<◌}
use Prim.Native.String.{String}
use mathlib.Core.Path.{◌≡◌, refl}
use mathlib.Core.Bool.{Bool, true, false, ◌||◌}
use mathlib.Core.Logic.{inl, inr}
use mathlib.Core.List.{List, [], ◌∷◌, ◌++◌}
use native.Mathlib.Omega.{arith}
use text.Mathlib.Text.{◌==◌ as str_eq}
use text.Mathlib.TextEquality.{eq_iff as str_eq_iff}
use mas_framework.Common.Tests.{if◌then◌else◌, Bool-cases}
use mas_framework.Common.Lists.{length}

unfoldable pub member : String → List String → Bool
member x [] = false
member x (y ∷ ys) = str_eq y x || member x ys

-- SREM, and set.discard
unfoldable pub srem : String → List String → List String
srem x [] = []
srem x (y ∷ ys) = let rest = srem x ys in if str_eq y x then rest else y ∷ rest

-- SADD, and set.add
unfoldable pub sadd : String → List String → List String
sadd x ys = if member x ys then ys else x ∷ ys

unfoldable pub any_of {ℓ} : {A : Type ℓ} → (A → Bool) → List A → Bool
any_of p [] = false
any_of p (x ∷ xs) = p x || any_of p xs

abbrev pub Distinct : List String → Type 0
Distinct [] = Unit {0}
Distinct (x ∷ xs) = (member x xs ≡ false) × Distinct xs

-- Every element of the first list is in the second.
abbrev pub Within : List String → List String → Type 0
Within xs ys = (x : String) → member x xs ≡ true → member x ys ≡ true

pub member-srem :
    (x y : String) (s : List String)
    → member y (srem x s) ≡ (if str_eq x y then false else member y s)
unfolding member srem
member-srem x y [] = ground arith
member-srem x y (z ∷ s) =
    ground (arith, member-srem x y s, str_eq_iff z x, str_eq_iff x y, str_eq_iff z y)

pub member-sadd :
    (x y : String) (s : List String) → member y (sadd x s) ≡ (str_eq x y || member y s)
unfolding member sadd
member-sadd x y s = ground (arith, str_eq_iff x y)

pub member-append :
    (x : String) (s t : List String) → member x (s ++ t) ≡ (member x s || member x t)
unfolding member
member-append x [] t = refl
member-append x (y ∷ s) t = ground (arith, member-append x s t)

pub any_of-append {ℓ} :
    {A : Type ℓ} (p : A → Bool) (xs ys : List A)
    → any_of p (xs ++ ys) ≡ (any_of p xs || any_of p ys)
unfolding any_of
any_of-append p [] ys = refl
any_of-append p (x ∷ xs) ys = ground (arith, any_of-append p xs ys)

pub any_of-intro :
    (p : String → Bool) (x : String) (ys : List String)
    → member x ys ≡ true
    → p x ≡ true
    → any_of p ys ≡ true
unfolding any_of member
any_of-intro p x [] m h = cc
any_of-intro p x (y ∷ ys) m h = elim (Bool-cases (str_eq y x)) [
  | inl same ↦ let e : y ≡ x = (str_eq_iff y x).0 same in rw (e, h)
  | inr other ↦ ground (arith, any_of-intro p x ys (ground arith) h)
]

pub any_of-elim :
    (p : String → Bool) (xs : List String)
    → any_of p xs ≡ true
    → (x : String) × (member x xs ≡ true) × (p x ≡ true)
unfolding any_of member
any_of-elim p [] h = absurd (ground arith)
any_of-elim p (x ∷ xs) h = elim (Bool-cases (p x)) [
  | inl yes' ↦ (x, ground (arith, str_eq_iff x x), yes')
  | inr no' ↦ let (y, m, q) = any_of-elim p xs (ground arith) in (y, ground (arith, m), q)
]

-- A property that an element of a set has is had by an element of any larger set.
pub any_of-Within :
    (p : String → Bool) (xs ys : List String)
    → Within xs ys
    → any_of p xs ≡ true
    → any_of p ys ≡ true
any_of-Within p xs ys w h = let (x, m, q) = any_of-elim p xs h in any_of-intro p x ys (w x m) q

length-srem-le : (x : String) (ys : List String) → length (srem x ys) ≤ length ys
unfolding srem
length-srem-le x [] = omega arith
length-srem-le x (y ∷ ys) = ground (arith, length-srem-le x ys)

length-srem : (x : String) (ys : List String) → member x ys ≡ true → length (srem x ys) < length ys
unfolding srem member
length-srem x [] m = absurd (ground arith)
length-srem x (y ∷ ys) m = ground (arith, length-srem x ys, length-srem-le x ys)

member_self : (x : String) (xs : List String) → member x (x ∷ xs) ≡ true
unfolding member
member_self x xs = ground (arith, str_eq_iff x x)

member_tail : (x y : String) (xs : List String) → member y xs ≡ true → member y (x ∷ xs) ≡ true
unfolding member
member_tail x y xs h = ground arith

srem-Within :
    (x : String) (xs ys : List String)
    → member x xs ≡ false
    → Within (x ∷ xs) ys
    → Within xs (srem x ys)
srem-Within x xs ys f w z k = elim (Bool-cases (str_eq x z)) [
  | inl same ↦ let e : x ≡ z = (str_eq_iff x z).0 same in absurd (ground (arith, e, f, k))
  | inr other ↦ rw (member-srem x z ys, other) (w z (member_tail x z xs k))
]

-- A set within one that is no larger is all of it.
pub Within-antisymm :
    (xs ys : List String) → Distinct xs → Within xs ys → length ys ≤ length xs → Within ys xs
Within-antisymm [] [] d w h y m = m
Within-antisymm [] (z ∷ ys) d w h y m = absurd (omega arith)
Within-antisymm (x ∷ xs) ys d w h y m = elim (Bool-cases (str_eq x y)) [
  | inl same ↦ rw (← (str_eq_iff x y).0 same) (member_self x xs)
  | inr other ↦ member_tail x y xs (
      Within-antisymm xs (srem x ys) d.1 (srem-Within x xs ys d.0 w)
        (omega (arith, length-srem x ys (w x (member_self x xs)))) y
        (rw (member-srem x y ys, other) m))
]
