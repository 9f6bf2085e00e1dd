-- ===== src/Tools/Lookup/Tests.antt =====
-- Two boards, looked for by their names.
use libedio.Base.{ℕ, ◌≡◌, refl, arith, some, Bool, true, not, ltb, ◌&&◌, List, [], ◌∷◌, pos}
use libedio.Util.Strip.{is_stripped}
use libedio.Tools.Lookup.Names.{Plain}
use libedio.Text.{literal}
use libedio.Tools.Boards.{BoardList}
use libedio.Tools.Boards.Laws.{IsBoardList}
use libedio.Tools.Command.{parse_values_atten, invalid_int}
use libedio.Tools.Lookup.{argument, board_name, row_line, do_get_all_board}
use libedio.Tools.Lookup.Ordered.{Ascending, rows_of_boards, lookup}
use libedio.Tools.Lookup.Report.{for_clusters, do_get_all_board_lem}

-- their names, and the other columns: the address is the last one
abbrev two_boards : List (List ℕ × List ℕ)
two_boards =
    (literal "CCT_C01-01", literal "a\tb\tc\td\t1.2")
    ∷ (literal "CCT_C01-02", literal "a\tb\tc\td\t3.4")
    ∷ []

abbrev board_list : BoardList
board_list = record { sz_max = 20; sz_cur = 2; list = some (rows_of_boards two_boards) }

board_list-IsBoardList : IsBoardList board_list
board_list-IsBoardList = record { counted = refl; fits = omega arith }

-- "p=1", and "p=2,3"
abbrev cluster_one : List ℕ
cluster_one = b'p' ∷ b'=' ∷ b'1' ∷ []

abbrev boards_two_three : List ℕ
boards_two_three = b'p' ∷ b'=' ∷ b'2' ∷ b',' ∷ b'3' ∷ []

-- a test of names, for concrete ones
abbrev all_plain : List ℕ → Bool
all_plain [] = true
all_plain (c ∷ cs) = let rest = all_plain cs in not (is_stripped c) && (ltb 0 c && rest)

all_plain-Plain : (cs : List ℕ) → all_plain cs ≡ true → Plain cs
all_plain-Plain [] h = tt
all_plain-Plain (c ∷ cs) h =
    (ground (arith, h), ground (arith, h), all_plain-Plain cs (ground (arith, h)))

two_boards-Ascending : Ascending two_boards
two_boards-Ascending = (
  (all_plain-Plain (literal "CCT_C01-01") refl, omega arith),
  (refl, tt),
  ((all_plain-Plain (literal "CCT_C01-02") refl, omega arith), tt, tt),
)

parsed_one :
    parse_values_atten (argument (some cluster_one)) invalid_int ≡ some (pos 0, 2, invalid_int)
unfolding parse_values_atten libedio.Tools.Command.parse libedio.Tools.Command.step
parsed_one = refl

parsed_two_three :
    parse_values_atten (argument (some boards_two_three)) invalid_int
    ≡ some (pos 0, 12, invalid_int)
unfolding parse_values_atten libedio.Tools.Command.parse libedio.Tools.Command.step
parsed_two_three = refl

do_get_all_board_lem_example :
    do_get_all_board board_list (λ _. 0) (some cluster_one) (some boards_two_three)
    ≡ some (for_clusters (λ i j. row_line (lookup (board_name i j) two_boards)) 17 0 2 12)
do_get_all_board_lem_example =
    do_get_all_board_lem board_list two_boards (λ _. 0) (some cluster_one) (some boards_two_three) 2
      12 (pos 0) (pos 0) board_list-IsBoardList refl two_boards-Ascending (omega arith)
      (omega arith) parsed_one parsed_two_three
