-- ===== src/Tools/Generator/Tests.antt =====
-- The generator run over a file of three lines.
use libedio.Base.{ℕ, refl, arith, some, true, Option, List, [], ◌∷◌, inr}
use libedio.Tools.Boards.{Memory}
use libedio.Tools.Boards.Config.{ConfigLine, AllConfigLines, config_text}
use libedio.Tools.Samples.{device_row, cluster_one, first_to_31, parsed_one, parsed_first}
use libedio.Tools.Generator.Laws.{Printed, main-Printed}

abbrev plenty : Memory
plenty = record { reallocated = true; duplicated = true }

-- a comment, a blank line, and the row between a blank and a carriage return
abbrev three_lines : List ConfigLine
three_lines =
    record { before = []; text = b'#' ∷ b'x' ∷ []; behind = [] }
    ∷ record { before = b' ' ∷ []; text = []; behind = [] }
    ∷ record { before = b' ' ∷ []; text = device_row; behind = b'\r' ∷ [] }
    ∷ []

-- every file name stands for these lines
abbrev one_file : List ℕ → Option (List ℕ)
one_file name = some (config_text three_lines)

three_lines-AllConfigLines : AllConfigLines three_lines
three_lines-AllConfigLines = (
  record {
    blank_before = tt;
    blank_behind = tt;
    stays = (refl, inr refl, omega arith);
    one_line = omega arith;
    no_zero = omega arith;
    fits = omega arith;
  },
  (
    record {
      blank_before = (refl, tt);
      blank_behind = tt;
      stays = tt;
      one_line = omega arith;
      no_zero = omega arith;
      fits = omega arith;
    },
    (
      record {
        blank_before = (refl, tt);
        blank_behind = (refl, tt);
        stays = (refl, inr refl, omega arith);
        one_line = omega arith;
        no_zero = omega arith;
        fits = omega arith;
      },
      tt,
    ),
  ),
)

main-Printed_example :
    Printed one_file plenty [] (λ _. 0) [] cluster_one first_to_31 three_lines 2 1 31
main-Printed_example =
    main-Printed one_file plenty [] (λ _. 0) [] cluster_one first_to_31 three_lines 2 1 0 31 refl
      refl refl (omega arith) three_lines-AllConfigLines parsed_one parsed_first
