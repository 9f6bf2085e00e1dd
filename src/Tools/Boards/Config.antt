-- ===== src/Tools/Boards/Config.antt =====
-- A configuration file of utils/gencctcmd.c: its lines, and the rows in them.
use libedio.Base.{ℕ, ◌<◌, ◌≡◌, ◌⊎◌, List, [], ◌∷◌, ◌++◌}
use libedio.Base.{◌-◌, if◌then◌else◌, false, ◌==◌}
use libedio.Text.{length}
use libedio.Text.Laws.{Without}
use libedio.Util.Strip.{is_stripped, byte_of}
use libedio.Util.Strip.Laws.{AllStripped}
use libedio.Util.Lines.{szbuf}

-- A line of the file without its newline: a text between blanks, which is empty for a blank line.
pub record ConfigLine : Type 0 where
  pub before : List ℕ
  pub text : List ℕ
  pub behind : List ℕ

abbrev pub line_text : ConfigLine → List ℕ
line_text l = l.before ++ (l.text ++ l.behind)

-- A text that begins and ends with characters that stay.
abbrev pub IsText : List ℕ → Type 0
IsText [] = Unit {0}
IsText (c ∷ cs) =
    (is_stripped c ≡ false)
    × ((length cs ≡ 0) ⊎ (is_stripped (byte_of (c ∷ cs) (length cs)) ≡ false))
    × (length (c ∷ cs) < 200)

pub record IsConfigLine (l : ConfigLine) : Type 0 where
  pub blank_before : AllStripped l.before
  pub blank_behind : AllStripped l.behind
  pub stays : IsText l.text
  pub one_line : Without b'\n' (line_text l)
  pub no_zero : Without 0 (line_text l)
  pub fits : length (line_text l) < szbuf - 1

abbrev pub AllConfigLines : List ConfigLine → Type 0
AllConfigLines [] = Unit {0}
AllConfigLines (l ∷ ls) = IsConfigLine l × AllConfigLines ls

-- the file of such lines
unfoldable pub config_text : List ConfigLine → List ℕ
config_text [] = []
config_text (l ∷ ls) = line_text l ++ b'\n' ∷ config_text ls

-- the row of a line, if it is no comment and no blank line
abbrev pub row_of : List ℕ → List (List ℕ)
row_of [] = []
row_of (c ∷ cs) = if c == b'#' then [] else (c ∷ cs) ∷ []

abbrev pub rows_in : List ConfigLine → List (List ℕ)
rows_in [] = []
rows_in (l ∷ ls) = row_of l.text ++ rows_in ls
