-- ===== src/Text/Printed.antt =====
-- The digits that printf writes, as a part of a text.
use libedio.Base.{
  ℕ, zero, suc, ◌+◌, ◌/◌, ◌%◌, ◌<◌, ◌≤◌, ◌≡◌, ◌≢◌, refl, arith, List, ◌∷◌, ◌++◌, ltb, inl, inr,
  Bool-cases,
}
use libedio.Text.{length}
use libedio.Text.Print.{hex_digit, hex_digits, hex_width, decimal_digits, decimal}
use libedio.Text.Laws.{Without}

pub hex_digits-append :
    (w n : ℕ) (xs ys : List ℕ) → hex_digits w n (xs ++ ys) ≡ hex_digits w n xs ++ ys
unfolding hex_digits
hex_digits-append zero n xs ys = refl
hex_digits-append (suc w) n xs ys = hex_digits-append w (n / 16) (hex_digit (n % 16) ∷ xs) ys

pub length-hex_digits : (w n : ℕ) (xs : List ℕ) → length (hex_digits w n xs) ≡ w + length xs
unfolding hex_digits
length-hex_digits zero n xs = omega arith
length-hex_digits (suc w) n xs =
    omega (arith, length-hex_digits w (n / 16) (hex_digit (n % 16) ∷ xs))

-- No control character is among the digits.
pub Without-hex_digits :
    (c w n : ℕ) (xs : List ℕ) → c < 32 → Without c xs → Without c (hex_digits w n xs)
unfolding hex_digits
Without-hex_digits c zero n xs h k = k
Without-hex_digits c (suc w) n xs h k =
    let d : ℕ = n % 16 in
    let other : hex_digit d ≢ c = ground arith in
    Without-hex_digits c w (n / 16) (hex_digit d ∷ xs) h (other, k)

pub hex_width-le : (n : ℕ) → hex_width n ≤ 8
hex_width-le n = ground arith

decimal_digits-append :
    (fuel n : ℕ) (xs ys : List ℕ)
    → decimal_digits fuel n (xs ++ ys) ≡ decimal_digits fuel n xs ++ ys
unfolding decimal_digits
decimal_digits-append zero n xs ys = refl
decimal_digits-append (suc fuel) n xs ys = elim (Bool-cases (ltb n 10)) [
  | inl small ↦ rw small refl
  | inr large ↦ rw large (decimal_digits-append fuel (n / 10) ((b'0' + n % 10) ∷ xs) ys)
]

pub decimal-append : (n : ℕ) (xs ys : List ℕ) → decimal n (xs ++ ys) ≡ decimal n xs ++ ys
unfolding decimal
decimal-append n xs ys = decimal_digits-append 10 n xs ys

length-decimal_digits :
    (fuel n : ℕ) (xs : List ℕ) → length (decimal_digits fuel n xs) ≤ fuel + length xs
unfolding decimal_digits
length-decimal_digits zero n xs = omega arith
length-decimal_digits (suc fuel) n xs = elim (Bool-cases (ltb n 10)) [
  | inl small ↦ rw small (omega arith)
  | inr large ↦ rw large (omega (arith, length-decimal_digits fuel (n / 10) ((b'0' + n % 10) ∷ xs)))
]

pub length-decimal : (n : ℕ) (xs : List ℕ) → length (decimal n xs) ≤ 10 + length xs
unfolding decimal
length-decimal n xs = length-decimal_digits 10 n xs

Without-decimal_digits :
    (c fuel n : ℕ) (xs : List ℕ) → c < 32 → Without c xs → Without c (decimal_digits fuel n xs)
unfolding decimal_digits
Without-decimal_digits c zero n xs h k = k
Without-decimal_digits c (suc fuel) n xs h k = elim (Bool-cases (ltb n 10)) [
  | inl small ↦ rw small (omega arith, k)
  | inr large ↦
      rw large (Without-decimal_digits c fuel (n / 10) ((b'0' + n % 10) ∷ xs) h (omega arith, k))
]

pub Without-decimal : (c n : ℕ) (xs : List ℕ) → c < 32 → Without c xs → Without c (decimal n xs)
unfolding decimal
Without-decimal c n xs h k = Without-decimal_digits c 10 n xs h k
