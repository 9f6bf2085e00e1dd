-- ===== src/Tools/Generate/Attenuators.antt =====
-- What do_setatten of utils/gencctcmd.c writes.
use libedio.Base.{
  ℕ, zero, suc, ◌+◌, ◌-◌, ◌*◌, ◌/◌, ◌%◌, ◌^◌, ◌<◌, ◌≡◌, ◌∙◌, refl, sym, ap, arith, bit_and,
  bit_and-le, Option, none, some, List, [], ◌∷◌, ◌++◌, true, false, ◌==◌, if◌then◌else◌, ◌>>=◌, inl,
  inr, Bool-cases, ℤ, pos,
}
use mathlib.Core.Option.{some-injective}
use mathlib.Core.Path.{subst}
use libedio.Text.Print.{decimal}
use libedio.Tools.Boards.{BoardList}
use libedio.Tools.Boards.Laws.{IsBoardList, rows}
use libedio.Tools.Command as Command
use libedio.Tools.Command.{
  Line, Parser, Parsed, dconfig_w, dout_w, sleep, blank, parse, parsed, step, parse_values_atten,
  output_atten,
}
use libedio.Tools.Command.Bounds.{parse_values_atten-small}
use libedio.Tools.Command.Numbers.{parse-decimal}
use libedio.Tools.Generate.{
  values_of, half, both_pins, one_pin, atten_arg, atten_lines, clusters, do_setatten,
}
use libedio.Tools.Generate.Laws.{AllRows, for_mask, clusters_lem}

-- the lines that latch a value into the attenuators at these bits of the second port
abbrev pub latch : ℕ → ℕ → List Line
latch pins val =
    dconfig_w 0xFFFFFF 0
    ∷ dout_w (pins * 2 ^ 8) 0
    ∷ dout_w 0xFF0000 (bit_and val 0xFF * 2 ^ 16)
    ∷ sleep 1
    ∷ dout_w (pins * 2 ^ 8) (pins * 2 ^ 8)
    ∷ sleep 1
    ∷ dout_w (pins * 2 ^ 8) 0
    ∷ dout_w 0xFF0000 0
    ∷ blank
    ∷ []

-- the bits of the two attenuators at the positions of a mask, and those of the first or second of each
abbrev pub both_bits : ℕ → ℕ
both_bits mask = mask % 2 * 3 + mask / 2 * 12

abbrev pub one_bits : ℕ → ℕ → ℕ
one_bits k mask = mask % 2 * 2 ^ k + mask / 2 * 2 ^ (2 + k)

-- the parser behind the value
abbrev behind : ℕ → Parser
behind val = record { hval = val; type = 2; got = true; mask_pin = 0; val = val }

abbrev before : Parser
before = record { hval = 0; type = 2; got = false; mask_pin = 0; val = 31 }

abbrev lines_of : Option Parsed → Option (ℤ × List Line)
lines_of r = (r >>= λ p. some (parsed p)) >>= λ x. some (Command.atten_lines x.0 x.1 x.2)

-- The argument's value is read, and its pins after it.
output_atten-value :
    (val : ℕ) (rest : List ℕ)
    → val < 2 ^ 31
    → output_atten (b'v' ∷ b'=' ∷ decimal val (b';' ∷ rest)) ≡ lines_of (parse 0 rest (behind val))
unfolding output_atten parse_values_atten parse step
output_atten-value val rest h =
    ap lines_of {x = parse 0 (decimal val (b';' ∷ rest)) before}
      (parse-decimal val b';' rest before h refl refl)

-- What output_atten makes of the arguments that do_setatten prints.
both_pins-output_atten :
    (mask val : ℕ)
    → mask < 4
    → val < 2 ^ 31
    → output_atten (atten_arg both_pins mask val) ≡ some (pos 0, latch (both_bits mask) val)
unfolding parse step atten_arg
both_pins-output_atten zero val h k = output_atten-value val _ k ∙ refl
both_pins-output_atten (suc zero) val h k = output_atten-value val _ k ∙ refl
both_pins-output_atten (suc (suc zero)) val h k = output_atten-value val _ k ∙ refl
both_pins-output_atten (suc (suc (suc zero))) val h k = output_atten-value val _ k ∙ refl
both_pins-output_atten (suc (suc (suc (suc mask)))) val h k = absurd (omega arith)

first_pin-output_atten :
    (mask val : ℕ)
    → mask < 4
    → val < 2 ^ 31
    → output_atten (atten_arg (one_pin 0) mask val) ≡ some (pos 0, latch (one_bits 0 mask) val)
unfolding parse step atten_arg
first_pin-output_atten zero val h k = output_atten-value val _ k ∙ refl
first_pin-output_atten (suc zero) val h k = output_atten-value val _ k ∙ refl
first_pin-output_atten (suc (suc zero)) val h k = output_atten-value val _ k ∙ refl
first_pin-output_atten (suc (suc (suc zero))) val h k = output_atten-value val _ k ∙ refl
first_pin-output_atten (suc (suc (suc (suc mask)))) val h k = absurd (omega arith)

second_pin-output_atten :
    (mask val : ℕ)
    → mask < 4
    → val < 2 ^ 31
    → output_atten (atten_arg (one_pin 1) mask val) ≡ some (pos 0, latch (one_bits 1 mask) val)
unfolding parse step atten_arg
second_pin-output_atten zero val h k = output_atten-value val _ k ∙ refl
second_pin-output_atten (suc zero) val h k = output_atten-value val _ k ∙ refl
second_pin-output_atten (suc (suc zero)) val h k = output_atten-value val _ k ∙ refl
second_pin-output_atten (suc (suc (suc zero))) val h k = output_atten-value val _ k ∙ refl
second_pin-output_atten (suc (suc (suc (suc mask)))) val h k = absurd (omega arith)

-- what is written for a device: a value and its halves as one, or the halves one after the other
abbrev pub attenuate : ℕ → ℕ → List Line
attenuate mask val =
    if half val == val - half val
    then latch (both_bits mask) (half val)
    else latch (one_bits 0 mask) (half val) ++ latch (one_bits 1 mask) (val - half val)

atten_lines-attenuate :
    (mask val : ℕ) → mask < 4 → val < 2 ^ 31 → atten_lines mask val ≡ some (attenuate mask val)
unfolding atten_lines
atten_lines-attenuate mask val h k = elim (Bool-cases (half val == val - half val)) [
  | inl same ↦ rw (same, both_pins-output_atten mask (half val) h (omega arith)) refl
  | inr other ↦
      rw
        (
          other,
          first_pin-output_atten mask (half val) h (omega arith),
          second_pin-output_atten mask (val - half val) h (omega arith),
        )
        refl
]

value_small :
    (arg : List ℕ) (mask val : ℕ)
    → ◌>>=◌ {B = ℕ × ℕ} (parse_values_atten arg 0) (λ x. some (x.1, x.2)) ≡ some (mask, val)
    → val < 2 ^ 31
value_small arg mask val e = go (parse_values_atten arg 0) refl e
  where
    go :
        (r : Option (ℤ × ℕ × ℕ))
        → parse_values_atten arg 0 ≡ r
        → ◌>>=◌ {B = ℕ × ℕ} r (λ x. some (x.1, x.2)) ≡ some (mask, val)
        → val < 2 ^ 31
    go none e' k = absurd (cc)
    go (some r) e' k = omega (
      arith,
      parse_values_atten-small arg 0 r (omega arith) e',
      ap (λ (x : ℕ × ℕ). x.1) (some-injective _ _ k),
    )

values_of-small :
    (arg : Option (List ℕ)) (mask val : ℕ) → values_of arg ≡ some (mask, val) → val < 2 ^ 31
values_of-small none mask val e = value_small [] mask val e
values_of-small (some arg) mask val e = value_small arg mask val e

-- For a list whose rows begin with no blank and have fewer than 200 characters, and for arguments with
-- these masks and a value, do_setatten writes, for each bit 1 to 16 of the clusters' mask
-- that has a row, in order, the row with its number and the commands that latch the value's halves
-- into the attenuators at the positions of the other mask's bits 0 and 1: both attenuators of a
-- position at once where the halves are the same, else the first ones and then the second ones.
pub do_setatten_lem :
    (lst : BoardList) (buf : ℕ → ℕ) (arg_cluster arg_cmd : Option (List ℕ))
    (mask_c mask_p unused val : ℕ)
    → IsBoardList lst
    → AllRows (rows lst)
    → values_of arg_cluster ≡ some (mask_c, unused)
    → values_of arg_cmd ≡ some (mask_p, val)
    → do_setatten lst buf arg_cluster arg_cmd
      ≡ some
          (for_mask 16 1 (bit_and mask_c 0x1FFFF) (rows lst) (attenuate (bit_and mask_p 0x03) val))
unfolding do_setatten
do_setatten_lem lst buf arg_cluster arg_cmd mask_c mask_p unused val valid all e e' =
    let mask : ℕ = bit_and mask_p 0x03 in
    let lines : List Line = attenuate mask val in
    let small : val < 2 ^ 31 = values_of-small arg_cmd mask_p val e' in
    let written : atten_lines mask val ≡ some lines =
      atten_lines-attenuate mask val (omega (arith, bit_and-le mask_p 0x03)) small in
    rw (e, e')
      (subst
        (λ w.
          clusters lst buf w 16 1 (bit_and mask_c 0x1FFFF)
          ≡ some (for_mask 16 1 (bit_and mask_c 0x1FFFF) (rows lst) lines))
        (sym written) (clusters_lem lst buf valid all lines 16 1 (bit_and mask_c 0x1FFFF)))
