-- ===== src/Gateway/Authorization/Glob.antt =====
-- `_matches_permission` of authorization.py: the permission pattern as the regular expression that
-- the code builds from it, over the code points of the texts.
pub mod Meaning
use Prim.Native.Char.{code}
use mas_framework.Common.{
  ℕ, ◌==◌, Bool, true, false, not, ◌&&◌, ◌||◌, List, [], ◌∷◌, String, str_eq, if◌then◌else◌,
}

abbrev pub star : ℕ
star = b'*'

abbrev pub newline : ℕ
newline = 10

-- The end of the text, or before a newline at the end: `$`.
unfoldable pub at_end : List ℕ → Bool
at_end [] = true
at_end (c ∷ []) = c == newline
at_end (c ∷ d ∷ rest) = false

-- `.*` and what follows it.
unfoldable pub any_run : (List ℕ → Bool) → List ℕ → Bool
any_run rest [] = rest []
any_run rest (c ∷ s) = let more = any_run rest s in rest (c ∷ s) || (not (c == newline) && more)

unfoldable pub literal : ℕ → (List ℕ → Bool) → List ℕ → Bool
literal x rest [] = false
literal x rest (c ∷ s) = x == c && rest s

-- The escaped pattern with `.*` for each star, between `^` and `$`.
unfoldable pub glob : List ℕ → List ℕ → Bool
glob [] s = at_end s
glob (x ∷ pattern') s = if x == star then any_run (glob pattern') s else literal x (glob pattern') s

abbrev pub codes : String → List ℕ
codes String.[] = []
codes (String.◌∷◌ c s) = code c ∷ codes s

unfoldable pub matches_permission : String → String → Bool
matches_permission required granted =
    if str_eq granted "*"
    then true
    else if str_eq granted required
    then true
    else glob (codes granted) (codes required)
