-- ===== src/Text/Print.antt =====
-- printf of the C library, as far as the sources print numbers that they read again: "%06X" of an
-- `unsigned int`, and pairs of hexadecimal digits.
use libedio.Base.{ℕ, zero, suc, ◌+◌, ◌-◌, ◌/◌, ◌%◌, ◌^◌, List, ◌∷◌, ltb, if◌then◌else◌}

-- an upper case hexadecimal digit
abbrev pub hex_digit : ℕ → ℕ
hex_digit n = if ltb n 10 then b'0' + n else b'A' + (n - 10)

-- the last `width` digits of a number, before what stands behind them
unfoldable pub hex_digits : ℕ → ℕ → List ℕ → List ℕ
hex_digits zero n rest = rest
hex_digits (suc width) n rest = hex_digits width (n / 16) (hex_digit (n % 16) ∷ rest)

-- the number of digits of "%06X" for a number of 32 bits
abbrev pub hex_width : ℕ → ℕ
hex_width n = if ltb n (2 ^ 24) then 6 else if ltb n (2 ^ 28) then 7 else 8

-- "%d" of a number, on fuel: as many rounds as the number has digits, and one for the number 0
unfoldable pub decimal_digits : ℕ → ℕ → List ℕ → List ℕ
decimal_digits zero n rest = rest
decimal_digits (suc fuel) n rest =
    let more = decimal_digits fuel (n / 10) ((b'0' + n % 10) ∷ rest) in
    if ltb n 10 then (b'0' + n) ∷ rest else more

-- "%d" of a number of 32 bits that is not negative, which has ten digits at most
unfoldable pub decimal : ℕ → List ℕ → List ℕ
unfolding decimal_digits
decimal n rest = decimal_digits 10 n rest
