-- ===== src/Common/Tally.antt =====
-- A number format with which the tests instantiate the number formats of Python and Redis.
use Prim.Native.Nat.{ℕ, zero, suc}
use Prim.Native.String.{String}
use text.Mathlib.Text.{◌==◌ as str_eq}
use text.Mathlib.TextEquality.{eq_iff as str_eq_iff}
use text.Mathlib.TextLemmas.{cons-ne-nil}
use mathlib.Core.Path.{◌≡◌, refl}
use mathlib.Core.Bool.{false}
use mathlib.Core.Logic.{inl, inr}
use mathlib.Core.Option.{Option, none, some}
use native.Mathlib.Omega.{arith}
use mas_framework.Common.Tests.{Bool-cases}

-- Tally marks as a number format: a mark more than the number, so that no number prints as "".
abbrev pub tally : ℕ → String
tally zero = "1"
tally (suc n) = String.◌∷◌ "1" (tally n)

abbrev pub count_tally : String → ℕ
count_tally String.[] = 0
count_tally (String.◌∷◌ c s) = suc (count_tally s)

abbrev pub parse_tally : String → Option ℕ
parse_tally String.[] = none
parse_tally (String.◌∷◌ c s) = some (count_tally s)

count-tally : (n : ℕ) → count_tally (tally n) ≡ suc n
count-tally zero = refl
count-tally (suc n) = ground (arith, count-tally n)

pub parse-tally : (n : ℕ) → parse_tally (tally n) ≡ some n
parse-tally zero = refl
parse-tally (suc n) = ground (arith, count-tally n)

pub tally-ne_empty : (n : ℕ) → str_eq (tally n) "" ≡ false
tally-ne_empty zero = refl
tally-ne_empty (suc n) = elim (Bool-cases (str_eq (tally (suc n)) "")) [
  | inl same ↦ absurd (cons-ne-nil "1" (tally n) ((str_eq_iff (tally (suc n)) "").0 same))
  | inr other ↦ other
]
