-- ===== src/Gateway/Authorization/Glob/Meaning.antt =====
-- What a permission pattern matches.
use mas_framework.Common.{
  ℕ, ◌==◌, ◌≡◌, refl, ◌≢◌, ◌↔◌, inl, inr, Bool, true, List, [], ◌∷◌, String, str_eq, str_eq_iff,
  arith, Bool-cases, ==_iff,
}
use mas_framework.Gateway.Authorization.Glob.{
  star, newline, at_end, any_run, literal, glob, codes, matches_permission,
}

-- A star stands for any text, and any other character for itself.
pub data Glob : List ℕ → List ℕ → Type 0 where
  done : Glob [] []
  skip : {p s : List ℕ} {x : ℕ} → x ≡ star → Glob p s → Glob (x ∷ p) s
  more : {p s : List ℕ} {x c : ℕ} → x ≡ star → Glob (x ∷ p) s → Glob (x ∷ p) (c ∷ s)
  same : {p s : List ℕ} {x c : ℕ} → x ≢ star → x ≡ c → Glob p s → Glob (x ∷ p) (c ∷ s)

-- The text is one line.
abbrev pub OneLine : List ℕ → Type 0
OneLine [] = Unit {0}
OneLine (c ∷ s) = (c ≢ newline) × OneLine s

-- The continuation of a match decides the pattern that is left.
abbrev Decides : (List ℕ → Bool) → List ℕ → Type 0
Decides rest p = (s : List ℕ) → OneLine s → (rest s ≡ true) ↔ Glob p s

any_run-Glob :
    (rest : List ℕ → Bool) (x : ℕ) (p s : List ℕ)
    → Decides rest p
    → x ≡ star
    → OneLine s
    → any_run rest s ≡ true
    → Glob (x ∷ p) s
unfolding any_run
any_run-Glob rest x p [] d e l h = Glob.skip e ((d [] l).0 h)
any_run-Glob rest x p (c ∷ s) d e l h = elim (Bool-cases (rest (c ∷ s))) [
  | inl here ↦ Glob.skip e ((d (c ∷ s) l).0 here)
  | inr there ↦ Glob.more e (any_run-Glob rest x p s d e l.1 (ground arith))
]

Glob-any_run :
    (rest : List ℕ → Bool) (x : ℕ) (p s : List ℕ)
    → Decides rest p
    → x ≡ star
    → OneLine s
    → Glob (x ∷ p) s
    → any_run rest s ≡ true
unfolding any_run
Glob-any_run rest x p [] d e l (Glob.skip f g) = (d [] l).1 g
Glob-any_run rest x p (c ∷ s) d e l (Glob.skip f g) = ground (arith, (d (c ∷ s) l).1 g)
Glob-any_run rest x p (c ∷ s) d e l (Glob.more f g) =
    ground (arith, l.0, Glob-any_run rest x p s d e l.1 g)
Glob-any_run rest x p (c ∷ s) d e l (Glob.same n q g) = absurd (n e)

literal-Glob :
    (rest : List ℕ → Bool) (x : ℕ) (p s : List ℕ)
    → Decides rest p
    → x ≢ star
    → OneLine s
    → literal x rest s ≡ true
    → Glob (x ∷ p) s
unfolding literal
literal-Glob rest x p [] d n l h = absurd (ground arith)
literal-Glob rest x p (c ∷ s) d n l h = Glob.same n (ground arith) ((d s l.1).0 (ground arith))

Glob-literal :
    (rest : List ℕ → Bool) (x : ℕ) (p s : List ℕ)
    → Decides rest p
    → x ≢ star
    → OneLine s
    → Glob (x ∷ p) s
    → literal x rest s ≡ true
unfolding literal
Glob-literal rest x p [] d n l (Glob.skip f g) = absurd (n f)
Glob-literal rest x p (c ∷ s) d n l (Glob.skip f g) = absurd (n f)
Glob-literal rest x p (c ∷ s) d n l (Glob.more f g) = absurd (n f)
Glob-literal rest x p (c ∷ s) d n l (Glob.same f q g) = ground (arith, (d s l.1).1 g)

Glob-nil : (c : ℕ) (s : List ℕ) → Glob [] (c ∷ s) → ⊥
Glob-nil c s g = elim g [ ]

glob-Decides : (p : List ℕ) → Decides (glob p) p
unfolding glob at_end
glob-Decides [] [] l = (λ h. Glob.done, λ g. refl)
glob-Decides [] (c ∷ []) l = (λ h. absurd (ground (arith, l.0)), λ g. absurd (Glob-nil c [] g))
glob-Decides [] (c ∷ d ∷ s) l = (λ h. absurd (ground arith), λ g. absurd (Glob-nil c (d ∷ s) g))
glob-Decides (x ∷ p) s l = elim (Bool-cases (x == star)) [
  | inl e ↦ rw e (
    any_run-Glob (glob p) x p s (glob-Decides p) ((==_iff x star).0 e) l,
    Glob-any_run (glob p) x p s (glob-Decides p) ((==_iff x star).0 e) l,
  )
  | inr n ↦ rw n (
    literal-Glob (glob p) x p s (glob-Decides p) (ground arith) l,
    Glob-literal (glob p) x p s (glob-Decides p) (ground arith) l,
  )
]

Glob-refl : (p : List ℕ) → Glob p p
Glob-refl [] = Glob.done
Glob-refl (x ∷ p) = elim (Bool-cases (x == star)) [
  | inl e ↦ let q : x ≡ star = (==_iff x star).0 e in Glob.more q (Glob.skip q (Glob-refl p))
  | inr n ↦ Glob.same (ground arith) refl (Glob-refl p)
]

Glob-star : (s : List ℕ) → Glob (star ∷ []) s
Glob-star [] = Glob.skip refl Glob.done
Glob-star (c ∷ s) = Glob.more refl (Glob-star s)

matches-Glob :
    (required granted : String)
    → OneLine (codes required)
    → matches_permission required granted ≡ true
    → Glob (codes granted) (codes required)
unfolding matches_permission
matches-Glob required granted l h = elim (Bool-cases (str_eq granted "*")) [
  | inl e ↦
      let q : granted ≡ "*" = (str_eq_iff granted "*").0 e in rw q (Glob-star (codes required))
  | inr n ↦ elim (Bool-cases (str_eq granted required)) [
    | inl e ↦
        let q : granted ≡ required = (str_eq_iff granted required).0 e in
        rw q (Glob-refl (codes required))
    | inr m ↦ (glob-Decides (codes granted) (codes required) l).0 (ground arith)
  ]
]

-- A granted permission matches a required one, written on one line, exactly when the required text
-- is the granted one with each star replaced by some text.
pub matches_permission-Glob :
    (required granted : String)
    → OneLine (codes required)
    → (matches_permission required granted ≡ true) ↔ Glob (codes granted) (codes required)
unfolding matches_permission
matches_permission-Glob required granted l = (
  matches-Glob required granted l,
  λ g. ground (arith, (glob-Decides (codes granted) (codes required) l).1 g),
)
