-- ===== src/Tools/Command.antt =====
-- The arguments of utils/gencctcmd.c and the device commands that it writes for them.
pub mod Laws
pub mod Text
pub mod Printed
pub mod Numbers
pub mod Bounds
use libedio.Base.{
  ℕ, zero, suc, ◌+◌, ◌*◌, ◌-◌, ◌/◌, ◌%◌, ◌^◌, bit_and, bit_or, Option, none, some, List, [], ◌∷◌,
  ◌++◌,
}
use libedio.Base.{
  Bool, true, false, not, ◌&&◌, ◌||◌, ltb, ◌==◌, if◌then◌else◌, ◌>>=◌, ℤ, pos, negsuc,
}
use libedio.Text.{starts_with, is_digit}

-- The local variables of parse_values_atten, with *mask_pin and *val.
pub record Parser : Type 0 where
  pub hval : ℕ
  pub type : ℕ
  pub got : Bool
  pub mask_pin : ℕ
  pub val : ℕ

-- What a call comes to: an error, or the end. Undefined behaviour is `none` around it.
pub data Parsed : Type 0 where
  failed : Parser → Parsed
  ended : Parser → Parsed

-- the number of digits that the string begins with
abbrev pub count_digits : List ℕ → ℕ
count_digits [] = 0
count_digits (c ∷ cs) = let rest = count_digits cs in if is_digit c then suc rest else 0

-- atoi, of a string that begins with digits, onto `value`
abbrev pub atoi : ℕ → List ℕ → ℕ
atoi value [] = value
atoi value (c ∷ cs) =
    let rest = atoi (value * 10 + (c - b'0')) cs in if is_digit c then rest else value

-- *mask_pin |= (0x01 << hval), or *val = hval. A shift by the width of the type is undefined, and so is
-- atoi of a number that no `int` holds.
abbrev pub take_value : ℕ → Parser → Option Parser
take_value hval p =
    if ltb hval (2 ^ 31)
    then (if p.type == 1
        then (if ltb hval 31
            then some
                (record p { hval = hval; got = true; mask_pin = bit_or p.mask_pin (2 ^ hval) })
            else none)
        else if p.type == 2
        then some (record p { hval = hval; got = true; val = hval })
        else some (record p { hval = hval; got = true }))
    else none

-- What one round of the loop does at the string from `p` on.
pub data Round : Type 0 where
  skip : ℕ → Parser → Round
  error : Parser → Round

-- the branches of one round. `skip n` goes on behind this character and the `n` next ones.
unfoldable pub step : List ℕ → Parser → Option Round
step s p =
    if starts_with (b'p' ∷ b'=' ∷ []) s
    then some (skip 1 (record p { type = 1; got = false }))
    else if starts_with (b'v' ∷ b'=' ∷ []) s
    then some (skip 1 (record p { type = 2; got = false }))
    else if starts_with (b'a' ∷ b'l' ∷ b'l' ∷ []) s
    then (if p.type == 1
        then some (skip 3 (record p { mask_pin = 0xFFFFFFFF; type = 0; got = true }))
        else some (error p))
    else if starts_with (b',' ∷ []) s
    then some (skip 0 p)
    else if starts_with (b';' ∷ []) s
    then some (skip 0 (record p { type = 0 }))
    else if ltb 0 (count_digits s)
    then (take_value (atoi 0 s) p >>= λ p'. some (skip (count_digits s) p'))
    else some (error p)

-- for (p = arg; p < arg + len; p ++), where the first `n` characters are skipped
unfoldable pub parse : ℕ → List ℕ → Parser → Option Parsed
parse n [] p = some (ended p)
parse (suc n) (c ∷ cs) p = parse n cs p
parse zero (c ∷ cs) p = elim (step (c ∷ cs) p) [
  | none ↦ none
  | some (error p') ↦ some (failed p')
  | some (skip n p') ↦ parse n cs p'
]

-- the result, *mask_pin and *val
abbrev pub parsed : Parsed → ℤ × ℕ × ℕ
parsed (failed p) = (negsuc 0, p.mask_pin, p.val)
parsed (ended p) =
    if p.type == 2 && not p.got then (negsuc 0, p.mask_pin, p.val) else (pos 0, p.mask_pin, p.val)

-- parse_values_atten: `arg` is a C string without its zero byte
unfoldable pub parse_values_atten : List ℕ → ℕ → Option (ℤ × ℕ × ℕ)
parse_values_atten [] val = some (negsuc 0, 0, val)
parse_values_atten (c ∷ cs) val =
    parse 0 (c ∷ cs) (record { hval = 0; type = 0; got = false; mask_pin = 0; val = val }) >>= λ r.
    some (parsed r)

-- EDIO24_INVALID_INT, as an `unsigned int`
abbrev pub invalid_int : ℕ
invalid_int = 2 ^ 32 - 1

-- what parse_values_power makes of the parser's results
abbrev pub power_result : ℤ → ℕ → ℕ → ℤ × ℕ
power_result (negsuc n) mask_pin val = (negsuc n, mask_pin)
power_result (pos n) mask_pin val =
    if val == invalid_int then (pos 0, mask_pin) else (negsuc 0, mask_pin)

-- parse_values_power
pub parse_values_power : List ℕ → Option (ℤ × ℕ)
parse_values_power arg = parse_values_atten arg invalid_int >>= λ r. some (power_result r.0 r.1 r.2)

-- The lines that the generator writes: commands, empty lines, and before the lines for a device a
-- comment, "# ConnectTo", with the device's row and number.
pub data Line : Type 0 where
  dconfig_w dout_w : ℕ → ℕ → Line
  dout_r blank : Line
  sleep : ℕ → Line
  connect_to : List ℕ → ℕ → Line

abbrev pub power_lines : ℤ → ℕ → ℤ × List Line
power_lines (pos zero) mask_pin = (
  pos 0,
  dconfig_w 0xFFFFFF 0 ∷ dout_w 0x0000FF (bit_and (bit_and mask_pin 0xFF) 0xFF) ∷ blank ∷ [],
)
power_lines ret mask_pin = (pos 1, [])

-- output_power: what it returns, and what it writes
pub output_power : List ℕ → Option (ℤ × List Line)
output_power arg = parse_values_power arg >>= λ r. some (power_lines r.0 r.1)

-- output_power_read
unfoldable pub output_power_read : List ℕ → ℤ × List Line
output_power_read arg = (pos 0, dout_r ∷ blank ∷ [])

abbrev pub atten_lines : ℤ → ℕ → ℕ → ℤ × List Line
atten_lines (pos zero) mask_pin val =
    let pins : ℕ = bit_and (bit_and mask_pin 0x00FF) 0xFF * 2 ^ 8 in
    (
      pos 0,
      dconfig_w 0xFFFFFF 0
          ∷ dout_w pins 0
          ∷ dout_w 0xFF0000 (bit_and val 0xFF * 2 ^ 16)
          ∷ sleep 1
          ∷ dout_w pins pins
          ∷ sleep 1
          ∷ dout_w pins 0
          ∷ dout_w 0xFF0000 0
          ∷ blank
          ∷ [],
    )
atten_lines ret mask_pin val = (pos 1, [])

-- output_atten; `val` is 31 where the argument sets none
unfoldable pub output_atten : List ℕ → Option (ℤ × List Line)
output_atten arg = parse_values_atten arg 31 >>= λ r. some (atten_lines r.0 r.1 r.2)

-- for (j = 0; j < 8; j++) in do_setpower: "%d," for every bit of the mask that is set
pub pin_list : ℕ → ℕ → ℕ → List ℕ
pin_list zero j mask_p = []
pin_list (suc left) j mask_p =
    let rest = pin_list left (j + 1) mask_p in
    if bit_and mask_p (2 ^ j) == 0 then rest else (b'0' + j) ∷ b',' ∷ rest

-- the argument that do_setpower hands to output_power
pub power_arg : ℕ → List ℕ
power_arg mask_p = b'p' ∷ b'=' ∷ pin_list 8 0 mask_p
