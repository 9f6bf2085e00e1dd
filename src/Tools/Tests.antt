-- ===== src/Tools/Tests.antt =====
-- The search of utils/utils.c and the generator of utils/gencctcmd.c at concrete inputs.
use libedio.Base.{
  lt→ltb, Option, none, ℕ, ◌≡◌, refl, arith, some, [], ◌∷◌, ℤ, pos, negsuc, ltb, if◌then◌else◌,
  ◌==◌,
}
use libedio.Tools.Search.{pf_bsearch_r}
use libedio.Tools.Search.Laws.{Finds, IsSorted, pf_bsearch_r-Finds}
use libedio.Tools.Search.Overflow.{pf_bsearch_r-overflows}
use libedio.Base.{le→ltb, ◌^◌}
use libedio.Tools.Command.{
  parse_values_atten, parse, step, output_power, power_arg, dconfig_w, dout_w, blank,
}

-- the numbers 0, 1, 2, … compared with 5
abbrev compare_five : ℕ → ℤ
compare_five i = if ltb i 5 then negsuc 0 else if i == 5 then pos 0 else pos 1

compare_five-IsSorted : IsSorted compare_five 26
compare_five-IsSorted i j h k = ground arith

-- the same, where only 26 items may be looked at
abbrev compare_if_item : ℕ → Option ℤ
compare_if_item i = if ltb i 26 then some (compare_five i) else none

pf_bsearch_r-Finds_example : Finds compare_five 26 (pf_bsearch_r 26 (some compare_if_item) (some 9))
pf_bsearch_r-Finds_example =
    pf_bsearch_r-Finds 26 compare_if_item compare_five 9 (omega arith)
      (λ i h. rw (lt→ltb i 26 h) refl) compare_five-IsSorted

-- 2 ^ 63 items, all smaller
abbrev smaller_if_item : ℕ → Option ℤ
smaller_if_item i = if ltb i (2 ^ 63) then some (negsuc 0) else none

pf_bsearch_r-overflows_example : pf_bsearch_r (2 ^ 63) (some smaller_if_item) (some 0) ≡ none
pf_bsearch_r-overflows_example =
    pf_bsearch_r-overflows (2 ^ 63) smaller_if_item (omega arith) (omega arith)
      (λ j h. (0, rw (lt→ltb j (2 ^ 63) h) refl)) (λ j h. rw (le→ltb j (2 ^ 63) h) refl) (some 0)

-- "p=0,1,2;v=11", as the tests of utils/gencctcmd.c have it
atten_pins_and_value :
    parse_values_atten
      (b'p' ∷ b'=' ∷ b'0' ∷ b',' ∷ b'1' ∷ b',' ∷ b'2' ∷ b';' ∷ b'v' ∷ b'=' ∷ b'1' ∷ b'1' ∷ [])
      31
    ≡ some (pos 0, 0x07, 11)
unfolding libedio.Tools.Command.parse_values_atten libedio.Tools.Command.parse
    libedio.Tools.Command.step
atten_pins_and_value = refl
