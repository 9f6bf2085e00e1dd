-- ===== src/Tools/Command/Laws.antt =====
-- What the command generator of utils/gencctcmd.c writes for a row of power switches.
use libedio.Base.{
  bit_and, ℕ, zero, suc, ◌<◌, ◌≡◌, refl, ap, arith, Option, none, some, [], ◌∷◌, ℤ, pos, negsuc,
  Bool, true, false, ◌==◌, passes_from, passes_from-elem,
}
use libedio.Tools.Command.{
  dconfig_w, dout_w, blank, step, parse, parse_values_atten, parse_values_power, output_power,
  pin_list, power_arg,
}

-- the parse of the argument succeeds with the mask that it was made of
is_read : ℕ → Option (ℤ × ℕ) → Bool
is_read mask_p (some (pos zero, m)) = m == mask_p
is_read mask_p (some (pos (suc n), m)) = false
is_read mask_p (some (negsuc n, m)) = false
is_read mask_p none = false

is_read_sound :
    (mask_p : ℕ) (r : Option (ℤ × ℕ)) → is_read mask_p r ≡ true → r ≡ some (pos 0, mask_p)
unfolding is_read
is_read_sound mask_p (some (pos zero, m)) h = ap (λ x. some (pos 0, x)) (ground (arith, h))
is_read_sound mask_p (some (pos (suc n), m)) h = ground (arith, h)
is_read_sound mask_p (some (negsuc n, m)) h = ground (arith, h)
is_read_sound mask_p none h = ground (arith, h)

all_read : passes_from (λ m. is_read m (parse_values_power (power_arg m))) 0 256 ≡ true
unfolding passes_from is_read parse_values_power parse_values_atten parse step power_arg pin_list
all_read = refl

-- For every mask of eight switches, the argument that do_setpower makes of it is parsed to the mask.
pub power_arg-parse_values_power :
    (mask_p : ℕ) → mask_p < 256 → parse_values_power (power_arg mask_p) ≡ some (pos 0, mask_p)
power_arg-parse_values_power mask_p h =
    is_read_sound mask_p (parse_values_power (power_arg mask_p)) (
      passes_from-elem (λ m. is_read m (parse_values_power (power_arg m))) 0 256 mask_p
        (omega arith) (omega arith) all_read)

all_masked : passes_from (λ m. bit_and (bit_and m 0xFF) 0xFF == m) 0 256 ≡ true
unfolding passes_from
all_masked = refl

-- For every mask of eight switches, output_power writes for the argument of do_setpower the two
-- commands that make all pins outputs and set the first port to exactly the mask.
pub output_power-power_arg :
    (mask_p : ℕ)
    → mask_p < 256
    → output_power (power_arg mask_p)
      ≡ some (pos 0, dconfig_w 0xFFFFFF 0 ∷ dout_w 0x0000FF mask_p ∷ blank ∷ [])
unfolding output_power
output_power-power_arg mask_p h =
    let masked : bit_and (bit_and mask_p 0xFF) 0xFF ≡ mask_p = ground (
      arith,
      passes_from-elem (λ m. bit_and (bit_and m 0xFF) 0xFF == m) 0 256 mask_p (omega arith)
          (omega arith) all_masked,
    ) in
    rw (power_arg-parse_values_power mask_p h)
      (ap (λ x. some (pos 0, dconfig_w 0xFFFFFF 0 ∷ dout_w 0x0000FF x ∷ blank ∷ [])) masked)
