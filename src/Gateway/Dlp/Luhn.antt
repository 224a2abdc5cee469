-- ===== src/Gateway/Dlp/Luhn.antt =====
-- The Luhn check against the rule that it implements.
use mas_framework.Common.{
  ℕ, suc, ◌+◌, ◌*◌, ◌/◌, ◌%◌, ◌==◌, ◌≤◌, ◌≡◌, ◌≢◌, ◌↔◌, refl, ap, sym, inl, inr, true, Option, some,
  List, [], ◌∷◌, ◌++◌, arith, length, map, All, Option-cases, if◌then◌else◌,
}
use mas_framework.Gateway.Dlp.{luhn_digit, checksum, reverse_onto, digits_of, validate_luhn}

-- The sum of the decimal digits of a number below 100.
unfoldable pub digit_sum : ℕ → ℕ
digit_sum n = n / 10 + n % 10

-- The rule: the digits that have an even number of digits after them count as they are, and the
-- others with the digit sum of their double.
unfoldable pub luhn_sum : List ℕ → ℕ
luhn_sum [] = 0
luhn_sum (d ∷ rest) = (if length rest % 2 == 0 then d else digit_sum (2 * d)) + luhn_sum rest

checksum-append :
    (position digit : ℕ) (us vs : List ℕ)
    → checksum position (us ++ digit ∷ vs)
      ≡ checksum position us
        + luhn_digit (position + length us) digit
        + checksum (suc (position + length us)) vs
unfolding checksum
checksum-append position digit [] vs =
    let e : position + 0 ≡ position = omega arith in rw e (omega arith)
checksum-append position digit (u ∷ us) vs =
    ground (arith, checksum-append (suc position) digit us vs)

reverse_onto-append :
    (done xs ys : List ℕ) → reverse_onto done (xs ++ ys) ≡ reverse_onto (reverse_onto done xs) ys
unfolding reverse_onto
reverse_onto-append done [] ys = refl
reverse_onto-append done (x ∷ xs) ys = reverse_onto-append (x ∷ done) xs ys

append_assoc : (xs ys zs : List ℕ) → (xs ++ ys) ++ zs ≡ xs ++ (ys ++ zs)
append_assoc [] ys zs = refl
append_assoc (x ∷ xs) ys zs = ap (λ r. x ∷ r) (append_assoc xs ys zs)

reverse_onto_lem : (done xs : List ℕ) → reverse_onto done xs ≡ reverse_onto [] xs ++ done
unfolding reverse_onto
reverse_onto_lem done [] = refl
reverse_onto_lem done (x ∷ xs) =
    rw (reverse_onto_lem (x ∷ done) xs, reverse_onto_lem (x ∷ []) xs)
      (sym (append_assoc (reverse_onto [] xs) (x ∷ []) done))

length-append : (xs ys : List ℕ) → length (xs ++ ys) ≡ length xs + length ys
length-append [] ys = omega arith
length-append (x ∷ xs) ys = omega (arith, length-append xs ys)

length-reverse : (xs : List ℕ) → length (reverse_onto [] xs) ≡ length xs
unfolding reverse_onto
length-reverse [] = refl
length-reverse (x ∷ xs) =
    rw (reverse_onto_lem (x ∷ []) xs)
      (omega (arith, length-append (reverse_onto [] xs) (x ∷ []), length-reverse xs))

luhn_digit_lem :
    (n d : ℕ) → d ≤ 9 → luhn_digit (suc n) d ≡ (if n % 2 == 0 then d else digit_sum (2 * d))
unfolding luhn_digit digit_sum
luhn_digit_lem n d h = ground arith

luhn_digit-reverse :
    (d : ℕ) (ds : List ℕ)
    → d ≤ 9
    → luhn_digit (1 + length (reverse_onto [] ds)) d
      ≡ (if length ds % 2 == 0 then d else digit_sum (2 * d))
luhn_digit-reverse d ds h =
    let e : 1 + length (reverse_onto [] ds) ≡ suc (length ds) = omega (arith, length-reverse ds) in
    rw e (luhn_digit_lem (length ds) d h)

checksum-reverse :
    (ds : List ℕ) → All (λ d. d ≤ 9) ds → checksum 1 (reverse_onto [] ds) ≡ luhn_sum ds
unfolding reverse_onto checksum luhn_sum
checksum-reverse [] h = refl
checksum-reverse (d ∷ ds) (h, hs) =
    rw (reverse_onto_lem (d ∷ []) ds, ← luhn_digit-reverse d ds h)
      (omega (arith, checksum-append 1 d (reverse_onto [] ds) [], checksum-reverse ds hs))

module _ (digit_of : ℕ → Option ℕ) where
  digits_of-map : (cs ds : List ℕ) → digits_of digit_of cs ≡ some ds → map digit_of cs ≡ map some ds
  unfolding digits_of
  digits_of-map [] ds h = let e : ds ≡ [] = ground arith in rw (e) refl
  digits_of-map (c ∷ cs) ds h = elim (Option-cases (digit_of c)) [
    | inl none_there ↦ absurd (ground arith)
    | inr (d, q) ↦ elim (Option-cases (digits_of digit_of cs)) [
      | inl none_there ↦ absurd (ground arith)
      | inr (es, r) ↦
          let e : ds ≡ d ∷ es = ground arith in
          rw (e, q) (ap (λ os. some d ∷ os) (digits_of-map cs es r))
    ]
  ]

  map-digits_of : (cs ds : List ℕ) → map digit_of cs ≡ map some ds → digits_of digit_of cs ≡ some ds
  unfolding digits_of
  map-digits_of [] [] h = refl
  map-digits_of [] (d ∷ ds) h = absurd (ground arith)
  map-digits_of (c ∷ cs) [] h = absurd (ground arith)
  map-digits_of (c ∷ cs) (d ∷ ds) h =
      let q : digit_of c ≡ some d = ground arith in
      let r : map digit_of cs ≡ map some ds = ground arith in
      ground (arith, q, map-digits_of cs ds r)

  below_ten :
      (cs ds : List ℕ)
      → ((c d : ℕ) → digit_of c ≡ some d → d ≤ 9)
      → map digit_of cs ≡ map some ds
      → All (λ d. d ≤ 9) ds
  below_ten cs [] law h = tt
  below_ten [] (d ∷ ds) law h = absurd (ground arith)
  below_ten (c ∷ cs) (d ∷ ds) law h = (law c d (ground arith), below_ten cs ds law (ground arith))

  validate_luhn-digits :
      (c : ℕ) (cs ds : List ℕ)
      → digits_of digit_of (c ∷ cs) ≡ some ds
      → validate_luhn digit_of (c ∷ cs) ≡ (checksum 1 (reverse_onto [] ds) % 10 == 0)
  unfolding validate_luhn
  validate_luhn-digits c cs ds h = ground (arith, h)

  validate_luhn-other :
      (cs : List ℕ)
      → validate_luhn digit_of cs ≡ true
      → (cs ≢ []) × ((ds : List ℕ) × (digits_of digit_of cs ≡ some ds))
  unfolding validate_luhn
  validate_luhn-other [] h = absurd (ground arith)
  validate_luhn-other (c ∷ cs) h = elim (Option-cases (digits_of digit_of (c ∷ cs))) [
    | inl none_there ↦ absurd (ground arith)
    | inr (ds, q) ↦ (λ e. absurd (ground arith), (ds, q))
  ]

  -- Where `int` of a digit is at most 9, a number is valid exactly if it is not empty, each of its
  -- characters is a digit, and the sum that the rule gives for the digits is a multiple of 10:
  -- those with an even number of digits after them count as they are, and the others with the
  -- digit sum of their double.
  pub validate_luhn-rule :
      (cs : List ℕ)
      → ((c d : ℕ) → digit_of c ≡ some d → d ≤ 9)
      → (validate_luhn digit_of cs ≡ true)
        ↔ ((cs ≢ []) × ((ds : List ℕ) × (map digit_of cs ≡ map some ds) × (luhn_sum ds % 10 ≡ 0)))
  validate_luhn-rule [] law = (
    λ h. absurd ((validate_luhn-other [] h).0 refl),
    λ (some_left, rest). absurd (some_left refl),
  )
  validate_luhn-rule (c ∷ cs) law = (
    λ h.
        let (full, (ds, q)) = validate_luhn-other (c ∷ cs) h in
        let m = digits_of-map (c ∷ cs) ds q in
        (
          full,
          (
            ds,
            m,
            ground (
              arith,
              validate_luhn-digits c cs ds q,
              checksum-reverse ds (below_ten (c ∷ cs) ds law m),
            ),
          ),
        ),
    λ (full, (ds, m, sum)).
        let q = map-digits_of (c ∷ cs) ds m in
        ground (
          arith,
          validate_luhn-digits c cs ds q,
          checksum-reverse ds (below_ten (c ∷ cs) ds law m),
        ),
  )
