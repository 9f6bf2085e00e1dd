-- ===== src/Text/Laws.antt =====
-- What strtol reads of the numbers that printf writes.
use libedio.Base.{
  ℕ, ◌+◌, ◌*◌, ◌/◌, ◌%◌, ◌^◌, ◌<◌, ◌≡◌, ◌∙◌, refl, ap, arith, some, zero, suc, ◌≢◌, List, [], ◌∷◌,
  ◌++◌,
}
use libedio.Base.{lt→ltb}
use libedio.Text.{length, c_string}
use libedio.Text.Strtol.{digit_value, read_digits, strtol, at_digit}
use libedio.Text.Print.{hex_digit, hex_digits}

-- A printed digit is read back.
pub digit_value-hex_digit : (d : ℕ) → d < 16 → digit_value (hex_digit d) ≡ d
digit_value-hex_digit d h = ground arith

read_digit :
    (d value : ℕ) (rest : List ℕ)
    → d < 16
    → read_digits 16 value (hex_digit d ∷ rest) ≡ read_digits 16 (value * 16 + d) rest
unfolding read_digits
read_digit d value rest h = rw (digit_value-hex_digit d h, lt→ltb d 16 h) refl

read_stop :
    (value c : ℕ) (rest : List ℕ)
    → digit_value c ≡ 16
    → read_digits 16 value (c ∷ rest) ≡ some (value, c ∷ rest)
unfolding read_digits
read_stop value c rest stop = rw (stop) refl

-- Six printed digits are read as the number.
read_digits-hex_digits :
    (n c : ℕ) (rest : List ℕ)
    → n < 2 ^ 24
    → digit_value c ≡ 16
    → read_digits 16 0 (hex_digits 6 n (c ∷ rest)) ≡ some (n, c ∷ rest)
unfolding hex_digits
read_digits-hex_digits n c rest h stop =
    read_digit _ _ _ (omega arith)
    ∙ read_digit _ _ _ (omega arith)
    ∙ read_digit _ _ _ (omega arith)
    ∙ read_digit _ _ _ (omega arith)
    ∙ read_digit _ _ _ (omega arith)
    ∙ read_digit _ _ _ (omega arith)
    ∙ read_stop _ c rest stop
    ∙ ap (λ x. some (x, c ∷ rest)) (omega arith)

-- A printed number of 24 bits is read back, up to the character behind it.
pub strtol-hex_digits :
    (n c : ℕ) (rest : List ℕ)
    → n < 2 ^ 24
    → digit_value c ≡ 16
    → strtol 16 (b'0' ∷ b'x' ∷ hex_digits 6 n (c ∷ rest)) ≡ some (n, c ∷ rest)
unfolding strtol hex_digits
strtol-hex_digits n c rest h stop =
    let d : ℕ = n / 16 / 16 / 16 / 16 / 16 % 16 in
    let small : d < 16 = omega arith in
    rw
      (
        digit_value-hex_digit d small,
        lt→ltb d 16 small,
        read_digits-hex_digits n c rest h stop,
        lt→ltb n (2 ^ 63) (omega arith),
      )
      (rw (at_digit, digit_value-hex_digit d small, lt→ltb d 16 small) refl)

pub length-append {ℓ} : {A : Type ℓ} (xs ys : List A) → length (xs ++ ys) ≡ length xs + length ys
length-append [] ys = omega arith
length-append (x ∷ xs) ys = omega (arith, length-append xs ys)

-- Every character differs from `c`.
abbrev pub Without : ℕ → List ℕ → Type 0
Without c [] = Unit {0}
Without c (x ∷ xs) = (x ≢ c) × Without c xs

pub Without-prefix : (c : ℕ) (xs ys : List ℕ) → Without c (xs ++ ys) → Without c xs
Without-prefix c [] ys w = tt
Without-prefix c (x ∷ xs) ys w = (w.0, Without-prefix c xs ys w.1)

pub Without-suffix : (c : ℕ) (xs ys : List ℕ) → Without c (xs ++ ys) → Without c ys
Without-suffix c [] ys w = w
Without-suffix c (x ∷ xs) ys w = Without-suffix c xs ys w.1

pub Without-append : (c : ℕ) (xs ys : List ℕ) → Without c xs → Without c ys → Without c (xs ++ ys)
Without-append c [] ys w w' = w'
Without-append c (x ∷ xs) ys w w' = (w.0, Without-append c xs ys w.1 w')

-- A string in memory is what stands before its terminator.
pub c_string-append : (s mem : List ℕ) → Without 0 s → c_string (s ++ 0 ∷ mem) ≡ some s
unfolding c_string
c_string-append [] mem w = refl
c_string-append (zero ∷ s) mem w = absurd (w.0 refl)
c_string-append (suc n ∷ s) mem w = rw (c_string-append s mem w.1) refl
