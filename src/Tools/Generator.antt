-- ===== src/Tools/Generator.antt =====
-- main of utils/gencctcmd.c. What getopt_long returns is a list of options, and a file is what it holds;
-- what goes to standard output is text.
pub mod Laws
mod Tests
use libedio.Base.{ℕ, Option, none, some, List, [], ◌∷◌, ◌++◌, ltb, ◌==◌, if◌then◌else◌, ◌>>=◌}
use libedio.Text.{length, literal}
use libedio.Tools.Boards.{BoardList, Memory, brdlst_init, brdlst_clean, read_file_rows}
use libedio.Tools.Command.{Line, output_power, output_power_read, output_atten}
use libedio.Tools.Command.Text.{file_text}
use libedio.Tools.Generate.{do_setatten, do_setpower, do_getpower}
use libedio.Tools.Lookup.{do_get_all_board}

-- what getopt_long returns, and `optarg` where the option has an argument
pub record Opt : Type 0 where
  pub c : ℕ
  pub optarg : List ℕ

-- The local variable `cluster`, the lists of devices and of boards, and what was printed.
pub record Generator : Type 0 where
  pub cluster : List ℕ
  pub g_lst_edio24 : BoardList
  pub g_lst_brd : BoardList
  pub stdout : List ℕ

-- the program as it starts
abbrev pub start : Generator
start = record { cluster = []; g_lst_edio24 = brdlst_init; g_lst_brd = brdlst_init; stdout = [] }

abbrev pub prints : Generator → List ℕ → Generator
prints g text = record g { stdout = g.stdout ++ text }

-- lines that are printed, if they come to be
abbrev pub prints_lines : Generator → Option (List Line) → Option Generator
prints_lines g lines = lines >>= λ ls. some (prints g (file_text ls))

abbrev pub prints_text : Generator → Option (List ℕ) → Option Generator
prints_text g text = text >>= λ t. some (prints g t)

-- What the program is run with: what a file name stands for, `none` where fopen fails; whether there is
-- memory, what fread_lines gets of it; and what an uninitialised local array of 200 bytes holds.
module _ (file_of : List ℕ → Option (List ℕ)) (m : Memory) (buffer : Option (List ℕ))
    (buf : ℕ → ℕ) where
  -- the switch over an option
  unfoldable pub switch : Generator → Opt → Option Generator
  switch g o =
      if o.c == b'w'
      then (if ltb 0 (length o.optarg)
          then prints_lines g (output_power o.optarg >>= λ r. some r.1)
          else some g)
      else if o.c == b'd'
      then prints_lines g (some (output_power_read []).1)
      else if o.c == b'n'
      then (if ltb 0 (length o.optarg)
          then prints_lines g (output_atten o.optarg >>= λ r. some r.1)
          else some g)
      else if o.c == b'c'
      then some (record g { cluster = o.optarg })
      else if o.c == b'b'
      then prints_text g (do_get_all_board g.g_lst_brd buf (some g.cluster) (some o.optarg))
      else if o.c == b'i'
      then (read_file_rows m buffer g.g_lst_edio24 (file_of o.optarg) >>= λ lst.
          some (record g { g_lst_edio24 = lst }))
      else if o.c == b'j'
      then (read_file_rows m buffer g.g_lst_brd (file_of o.optarg) >>= λ lst.
          some (record g { g_lst_brd = lst }))
      else if o.c == b'a'
      then prints_lines g (do_setatten g.g_lst_edio24 buf (some g.cluster) (some o.optarg))
      else if o.c == b'p'
      then prints_lines g (do_setpower g.g_lst_edio24 buf (some g.cluster) (some o.optarg))
      else if o.c == b'r'
      then prints_lines g (do_getpower g.g_lst_edio24 buf (some g.cluster) (some o.optarg))
      else if o.c == b'h'
      then some (prints g (literal "generate CCT control sequence." ++ b'\n' ∷ []))
      else some g

  -- the loop over the options
  unfoldable pub options : List Opt → Generator → Option Generator
  unfolding switch
  options [] g = some g
  options (o ∷ os) g = switch g o >>= λ g'. options os g'

  -- main: what is printed, and the lists behind their end
  unfoldable pub main : List Opt → Option (List ℕ)
  unfolding options
  main os = do
    g ← options os start
    lst_brd ← brdlst_clean g.g_lst_brd
    lst_edio24 ← brdlst_clean g.g_lst_edio24
    some g.stdout
