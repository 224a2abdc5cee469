-- ===== src/Common/Dict.antt =====
-- Dictionaries with text keys as association lists: Python's dict, and a Redis hash or keyspace.
-- Their order is that of first insertion, which is the order of Python's dict.
use mathlib.Core.Path.{◌≡◌, refl}
use mathlib.Core.Option.{Option, none, some}
use mathlib.Core.List.{List, [], ◌∷◌}
use native.Mathlib.Omega.{arith}
use Prim.Native.String.{String}
use text.Mathlib.Text.{◌==◌ as str_eq}
use text.Mathlib.TextEquality.{eq_iff as str_eq_iff}
use mas_framework.Common.Tests.{if◌then◌else◌}

abbrev pub Dict {ℓ} : Type ℓ → Type ℓ
Dict V = List (String × V)

-- dict.pop(name, None)
unfoldable pub remove {ℓ} : {V : Type ℓ} → String → Dict V → Dict V
remove name [] = []
remove name ((field, value) ∷ rest) =
    let others = remove name rest in if str_eq field name then others else (field, value) ∷ others

-- dict.get(name)
unfoldable pub lookup {ℓ} : {V : Type ℓ} → String → Dict V → Option V
lookup name [] = none
lookup name ((field, value) ∷ rest) =
    let later = lookup name rest in if str_eq field name then some value else later

-- dict[name] = value keeps the place of a name that is there.
unfoldable pub insert {ℓ} : {V : Type ℓ} → String → V → Dict V → Dict V
insert name new [] = (name, new) ∷ []
insert name new ((field, value) ∷ rest) =
    let below = insert name new rest in
    if str_eq field name then (name, new) ∷ rest else (field, value) ∷ below

pub lookup-remove {ℓ} :
    {V : Type ℓ} (gone name : String) (d : Dict V)
    → lookup name (remove gone d) ≡ (if str_eq gone name then none else lookup name d)
unfolding remove lookup
lookup-remove gone name [] = ground arith
lookup-remove gone name ((field, value) ∷ rest) = ground (
  arith,
  lookup-remove gone name rest,
  str_eq_iff field gone,
  str_eq_iff gone name,
  str_eq_iff field name,
)

pub lookup-insert {ℓ} :
    {V : Type ℓ} (set name : String) (new : V) (d : Dict V)
    → lookup name (insert set new d) ≡ (if str_eq set name then some new else lookup name d)
unfolding insert lookup
lookup-insert set name new [] = refl
lookup-insert set name new ((field, value) ∷ rest) = ground (
  arith,
  lookup-insert set name new rest,
  str_eq_iff field set,
  str_eq_iff set name,
  str_eq_iff field name,
)
