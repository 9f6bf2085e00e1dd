-- ===== src/Tools/Samples.antt =====
-- Data that the tests of the generator share: a list of one row, and arguments with their masks.
use libedio.Base.{ℕ, ◌≡◌, refl, arith, some, List, [], ◌∷◌}
use libedio.Tools.Boards.{BoardList}
use libedio.Tools.Boards.Laws.{IsBoardList, rows}
use libedio.Tools.Command.{parse_values_atten, parse, step}
use libedio.Tools.Generate.{values_of}
use libedio.Tools.Generate.Laws.{AllRows}

-- "10.1", a tab, and "m"
abbrev pub device_row : List ℕ
device_row = b'1' ∷ b'0' ∷ b'.' ∷ b'1' ∷ b'\t' ∷ b'm' ∷ []

abbrev pub one_row : BoardList
one_row = record { sz_max = 20; sz_cur = 1; list = some (device_row ∷ []) }

pub one_row-IsBoardList : IsBoardList one_row
one_row-IsBoardList = record { counted = refl; fits = omega arith }

pub one_row-AllRows : AllRows (rows one_row)
one_row-AllRows = ((refl, omega arith), tt)

-- "p=1", "p=1,3", and "p=0;v=31"
abbrev pub cluster_one : List ℕ
cluster_one = b'p' ∷ b'=' ∷ b'1' ∷ []

abbrev pub pins_one_three : List ℕ
pins_one_three = b'p' ∷ b'=' ∷ b'1' ∷ b',' ∷ b'3' ∷ []

abbrev pub first_to_31 : List ℕ
first_to_31 = b'p' ∷ b'=' ∷ b'0' ∷ b';' ∷ b'v' ∷ b'=' ∷ b'3' ∷ b'1' ∷ []

pub parsed_one : values_of (some cluster_one) ≡ some (2, 0)
unfolding parse_values_atten parse step
parsed_one = refl

pub parsed_one_three : values_of (some pins_one_three) ≡ some (10, 0)
unfolding parse_values_atten parse step
parsed_one_three = refl

pub parsed_first : values_of (some first_to_31) ≡ some (1, 31)
unfolding parse_values_atten parse step
parsed_first = refl
