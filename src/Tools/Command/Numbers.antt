-- ===== src/Tools/Command/Numbers.antt =====
-- The numbers that utils/gencctcmd.c prints into an argument, as its parser reads them.
use libedio.Base.{
  ℕ, zero, suc, ◌+◌, ◌-◌, ◌*◌, ◌/◌, ◌%◌, ◌^◌, ◌<◌, ◌≤◌, ◌≡◌, ◌∙◌, refl, sym, ap, arith, some, List,
  [], ◌∷◌, ◌++◌,
}
use libedio.Base.{true, false, ltb, ◌==◌, inl, inr, Bool-cases, lt→ltb}
use libedio.Text.{length, is_digit}
use libedio.Text.Print.{decimal_digits, decimal}
use libedio.Text.Printed.{decimal-append}
use libedio.Tools.Command.{Parser, skip, count_digits, atoi, take_value, step, parse}

abbrev AllDigits : List ℕ → Type 0
AllDigits [] = Unit {0}
AllDigits (c ∷ cs) = (is_digit c ≡ true) × AllDigits cs

-- 10 to a power
abbrev power10 : ℕ → ℕ
power10 zero = 1
power10 (suc n) = 10 * power10 n

decimal_digits-AllDigits :
    (fuel n : ℕ) (xs : List ℕ) → AllDigits xs → AllDigits (decimal_digits fuel n xs)
unfolding decimal_digits
decimal_digits-AllDigits zero n xs h = h
decimal_digits-AllDigits (suc fuel) n xs h = elim (Bool-cases (ltb n 10)) [
  | inl small ↦ rw small (ground arith, h)
  | inr large ↦
      rw large (decimal_digits-AllDigits fuel (n / 10) ((b'0' + n % 10) ∷ xs) (ground arith, h))
]

-- atoi of the digits of a number goes on with the number.
atoi-decimal_digits :
    (fuel n : ℕ) (xs : List ℕ) → n < power10 fuel → atoi 0 (decimal_digits fuel n xs) ≡ atoi n xs
unfolding decimal_digits
atoi-decimal_digits zero n xs h = ap (λ (x : ℕ). atoi x xs) (omega arith)
atoi-decimal_digits (suc fuel) n xs h = elim (Bool-cases (ltb n 10)) [
  | inl small ↦
      let digit : is_digit (b'0' + n) ≡ true = ground arith in
      let value : 0 * 10 + (b'0' + n - b'0') ≡ n = omega arith in rw (small, digit, value) refl
  | inr large ↦
      let digit : is_digit (b'0' + n % 10) ≡ true = ground arith in
      let value : n / 10 * 10 + (b'0' + n % 10 - b'0') ≡ n = omega arith in
      rw large (
        atoi-decimal_digits fuel (n / 10) ((b'0' + n % 10) ∷ xs) (omega arith)
        ∙ rw (digit, value) refl)
]

-- A decimal number is digits, at least one.
decimal-AllDigits : (n : ℕ) → AllDigits (decimal n [])
unfolding decimal
decimal-AllDigits n = decimal_digits-AllDigits 10 n [] tt

atoi-decimal : (n : ℕ) (xs : List ℕ) → n < 2 ^ 31 → atoi 0 (decimal n xs) ≡ atoi n xs
unfolding decimal
atoi-decimal n xs h = atoi-decimal_digits 10 n xs (omega arith)

count_digits-append :
    (ds : List ℕ) (c : ℕ) (rest : List ℕ)
    → AllDigits ds
    → is_digit c ≡ false
    → count_digits (ds ++ c ∷ rest) ≡ length ds
count_digits-append [] c rest all stop = rw stop refl
count_digits-append (d ∷ ds) c rest all stop =
    rw (all.0, count_digits-append ds c rest all.1 stop) refl

parse-drop :
    (ds : List ℕ) (c : ℕ) (rest : List ℕ) (p : Parser)
    → parse (suc (length ds)) (ds ++ c ∷ rest) p ≡ parse 0 rest p
unfolding parse
parse-drop [] c rest p = refl
parse-drop (d ∷ ds) c rest p = parse-drop ds c rest p

-- At a digit a number is taken.
step-digit :
    (d : ℕ) (ds : List ℕ) (p p' : Parser)
    → is_digit d ≡ true
    → take_value (atoi 0 (d ∷ ds)) p ≡ some p'
    → step (d ∷ ds) p ≡ some (skip (count_digits (d ∷ ds)) p')
unfolding step
step-digit d ds p p' digit e =
    let not_p : (b'p' == d) ≡ false = ground arith in
    let not_v : (b'v' == d) ≡ false = ground arith in
    let not_a : (b'a' == d) ≡ false = ground arith in
    let not_comma : (b',' == d) ≡ false = ground arith in
    let not_semicolon : (b';' == d) ≡ false = ground arith in
    let some_digit : ltb 0 (count_digits (d ∷ ds)) ≡ true = rw digit (ground arith) in
    rw (not_p, not_v, not_a, not_comma, not_semicolon, some_digit, e) refl

-- A round that skips goes on behind.
parse-skip :
    (n c : ℕ) (cs : List ℕ) (p p' : Parser)
    → step (c ∷ cs) p ≡ some (skip n p')
    → parse 0 (c ∷ cs) p ≡ parse n cs p'
unfolding parse
parse-skip n c cs p p' e = rw (e, parse) refl

parse-digits :
    (ds : List ℕ) (c : ℕ) (rest : List ℕ) (p p' : Parser)
    → AllDigits ds
    → 0 < length ds
    → is_digit c ≡ false
    → take_value (atoi 0 (ds ++ c ∷ rest)) p ≡ some p'
    → parse 0 (ds ++ c ∷ rest) p ≡ parse 0 rest p'
unfolding parse
parse-digits [] c rest p p' all some_digit stop e = absurd (omega arith)
parse-digits (d ∷ ds) c rest p p' all some_digit stop e =
    let n : ℕ = count_digits (d ∷ (ds ++ c ∷ rest)) in
    parse-skip n d (ds ++ c ∷ rest) p p' (step-digit d (ds ++ c ∷ rest) p p' all.0 e)
    ∙ ap (λ (x : ℕ). parse x (ds ++ c ∷ rest) p') (count_digits-append (d ∷ ds) c rest all stop)
    ∙ parse-drop ds c rest p'

length-decimal_digits-ge :
    (fuel n : ℕ) (xs : List ℕ) → length xs ≤ length (decimal_digits fuel n xs)
unfolding decimal_digits
length-decimal_digits-ge zero n xs = omega arith
length-decimal_digits-ge (suc fuel) n xs = elim (Bool-cases (ltb n 10)) [
  | inl small ↦ rw small (omega arith)
  | inr large ↦
      rw large (omega (arith, length-decimal_digits-ge fuel (n / 10) ((b'0' + n % 10) ∷ xs)))
]

length-decimal-pos : (n : ℕ) → 0 < length (decimal n [])
unfolding decimal decimal_digits
length-decimal-pos n = elim (Bool-cases (ltb n 10)) [
  | inl small ↦ rw small (omega arith)
  | inr large ↦ rw large (length-decimal_digits-ge 9 (n / 10) ((b'0' + n % 10) ∷ []))
]

-- A printed number of 31 bits is taken as the value, and the character behind it is skipped.
pub parse-decimal :
    (n c : ℕ) (rest : List ℕ) (p : Parser)
    → n < 2 ^ 31
    → is_digit c ≡ false
    → p.type ≡ 2
    → parse 0 (decimal n (c ∷ rest)) p ≡ parse 0 rest (record p { hval = n; got = true; val = n })
parse-decimal n c rest p h stop kind =
    let value : atoi 0 (decimal n [] ++ c ∷ rest) ≡ n =
      ap (atoi 0) (sym (decimal-append n [] (c ∷ rest)))
      ∙ atoi-decimal n (c ∷ rest) h
      ∙ rw stop refl in
    let taken : take_value n p ≡ some (record p { hval = n; got = true; val = n }) =
      rw (lt→ltb n (2 ^ 31) h, kind) refl in
    ap (λ (x : List ℕ). parse 0 x p) (decimal-append n [] (c ∷ rest))
    ∙ parse-digits (decimal n []) c rest p _ (decimal-AllDigits n) (length-decimal-pos n) stop
        (ap (λ (x : ℕ). take_value x p) value ∙ taken)
