-- ===== src/Text/Strtol.antt =====
-- strtol of the C library, in base 10 or 16: spaces, a sign, the prefix "0x" in base 16, the digits.
-- A `long` of 64 bits is written as its two's complement.
use libedio.Base.{ℕ, ◌+◌, ◌-◌, ◌*◌, ◌%◌, ◌^◌, Option, none, some, List, [], ◌∷◌, Bool, true, false}
use libedio.Base.{◌&&◌, ◌||◌, not, ltb, ◌==◌, if◌then◌else◌, ◌>>=◌}
use libedio.Text.{is_space, is_digit}

-- the value of a digit; 16 for any other character
abbrev pub digit_value : ℕ → ℕ
digit_value c =
    if is_digit c
    then c - b'0'
    else if not (ltb c b'A') && ltb c (b'F' + 1)
    then c - b'A' + 10
    else if not (ltb c b'a') && ltb c (b'f' + 1)
    then c - b'a' + 10
    else 16

-- the digits from here on, and the memory behind them
unfoldable pub read_digits : ℕ → ℕ → List ℕ → Option (ℕ × List ℕ)
read_digits base value [] = none
read_digits base value (c ∷ cs) =
    let more = read_digits base (value * base + digit_value c) cs in
    if ltb (digit_value c) base then more else some (value, c ∷ cs)

-- whether the memory begins with a digit of the base
abbrev pub at_digit : ℕ → List ℕ → Bool
at_digit base [] = false
at_digit base (c ∷ cs) = ltb (digit_value c) base

-- The prefix "0x" belongs to the number where a digit follows it.
abbrev pub after_prefix : ℕ → List ℕ → List ℕ
after_prefix base (c ∷ d ∷ cs) =
    if base == 16 && c == b'0' && (d == b'x' || d == b'X') && at_digit 16 cs then cs else c ∷ d ∷ cs
after_prefix base mem = mem

-- the sign, and the memory behind it
abbrev pub after_sign : List ℕ → Bool × List ℕ
after_sign [] = (false, [])
after_sign (c ∷ cs) =
    if c == b'-' then (true, cs) else if c == b'+' then (false, cs) else (false, c ∷ cs)

unfoldable pub skip_spaces : List ℕ → List ℕ
skip_spaces [] = []
skip_spaces (c ∷ cs) = let rest = skip_spaces cs in if is_space c then rest else c ∷ cs

-- the number with its sign, held to LONG_MIN and LONG_MAX
abbrev pub signed : Bool → ℕ → ℕ
signed true n = if ltb (2 ^ 63) n then 2 ^ 63 else (2 ^ 64 - n) % 2 ^ 64
signed false n = if ltb n (2 ^ 63) then n else 2 ^ 63 - 1

-- strtol (mem, &endptr, base): the value, and the memory from `endptr` on. Without digits, `endptr`
-- is where the call began.
unfoldable pub strtol : ℕ → List ℕ → Option (ℕ × List ℕ)
unfolding read_digits skip_spaces
strtol base mem = do
  (negative, signless) ← some (after_sign (skip_spaces mem))
  (n, rest) ← read_digits base 0 (after_prefix base signless)
  some (if at_digit base (after_prefix base signless) then (signed negative n, rest) else (0, mem))
