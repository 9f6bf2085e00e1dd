-- ===== src/Util/Lines.antt =====
-- fread_lines and read_file_lines of utils/utils.c: a function called for each line of a file.
pub mod Laws
use libedio.Base.{
  ℕ, zero, suc, ◌+◌, ◌-◌, Option, none, some, List, [], ◌∷◌, ◌++◌, Bool, true, false,
}
use libedio.Base.{◌&&◌, ◌||◌, not, ltb, ◌==◌, if◌then◌else◌, ◌>>=◌, ℤ, pos, negsuc}
use libedio.Text.{length, drop, c_string}

-- szbuf
abbrev pub szbuf : ℕ
szbuf = 5000

-- a character before a line
abbrev pub put_before : ℕ → List ℕ × List ℕ → List ℕ × List ℕ
put_before c (line, rest) = (c ∷ line, rest)

-- what fgets takes of the file: at most `room` characters, up to a newline; and the rest of the file
unfoldable pub take_line : ℕ → List ℕ → List ℕ × List ℕ
take_line zero file = ([], file)
take_line (suc room) [] = ([], [])
take_line (suc room) (c ∷ cs) =
    let more = put_before c (take_line room cs) in if c == b'\n' then (c ∷ [], cs) else more

-- The loop of fread_lines over the rest of the file. fgets leaves the buffer behind the line as it
-- was, `buffer` before the call.
module _ {ℓ} {S : Type ℓ} (process : S → ℕ → List ℕ → ℕ → Option S) where
  unfoldable pub lines_loop : ℕ → S → ℕ → List ℕ → List ℕ → Option S
  lines_loop zero s position buffer file = none
  lines_loop (suc fuel) s position buffer [] = some s
  lines_loop (suc fuel) s position buffer (c ∷ cs) = do
    (line, rest) ← some (take_line (szbuf - 1) (c ∷ cs))
    mem ← some (line ++ 0 ∷ drop (length line + 1) buffer)
    str ← c_string mem
    s' ← process s position mem (length str)
    lines_loop fuel s' (position + length line) mem rest

  -- fread_lines. The buffer from malloc is `none` where memory is short, else it has `szbuf` bytes.
  unfoldable pub fread_lines : Option (List ℕ) → S → ℕ → List ℕ → Option (ℤ × S)
  unfolding lines_loop
  fread_lines none s start file = some (negsuc 0, s)
  fread_lines (some buffer) s start file = do
    s' ← lines_loop (length file + 1) s start buffer file
    some (pos 0, s')

  -- read_file_lines, with a function to call; the file is `none` where fopen fails
  unfoldable pub read_file_lines : Option (List ℕ) → S → Option (List ℕ) → Option (ℤ × S)
  unfolding fread_lines
  read_file_lines buffer s none = some (negsuc 0, s)
  read_file_lines buffer s (some file) = fread_lines buffer s 0 file
