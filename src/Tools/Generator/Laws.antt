-- ===== src/Tools/Generator/Laws.antt =====
-- What the generator prints for a file of devices.
use libedio.Base.{◌++◌, inl, inr, Bool-cases, ◌==◌}
use libedio.Base.{
  ℕ, ◌/◌, ◌<◌, ◌≡◌, ◌∙◌, refl, ap, sym, arith, true, bit_and, Option, some, List, [], ◌∷◌,
}
use mathlib.Core.Path.{subst}
use libedio.Text.{length}
use libedio.Tools.Boards.{BoardList, Memory, brdlst_init, brdlst_clean, read_file_rows}
use libedio.Tools.Boards.Laws.{IsBoardList, rows}
use libedio.Tools.Boards.Config.{ConfigLine, IsText, AllConfigLines, config_text, row_of, rows_in}
use libedio.Tools.Boards.Rows.{
  read_file_rows-config_text, brdlst_clean-rows, brdlst_clean-brdlst_init,
}
use libedio.Tools.Command.{Line, dconfig_w, dout_w, dout_r, blank}
use libedio.Tools.Command.Text.{file_text}
use libedio.Tools.Generate.{values_of, do_setpower, do_setatten, do_getpower}
use libedio.Tools.Generate.Laws.{AllRows, for_mask, do_setpower_lem, do_getpower_lem}
use libedio.Tools.Generate.Attenuators.{attenuate, do_setatten_lem}
use libedio.Tools.Generator.{Opt, Generator, start, prints, prints_lines, switch, options, main}

row_of-AllRows :
    (text : List ℕ) (rs : List (List ℕ)) → IsText text → AllRows rs → AllRows (row_of text ++ rs)
row_of-AllRows [] rs h all = all
row_of-AllRows (c ∷ cs) rs h all = elim (Bool-cases (c == b'#')) [
  | inl comment ↦ rw comment all
  | inr row ↦ rw row ((h.0, h.2), all)
]

rows_in-AllRows : (ls : List ConfigLine) → AllConfigLines ls → AllRows (rows_in ls)
rows_in-AllRows [] all = tt
rows_in-AllRows (l ∷ ls) all =
    row_of-AllRows l.text (rows_in ls) all.0.stays (rows_in-AllRows ls all.1)

-- "-i" with a file of devices, "-c" with their numbers, and a command for them
abbrev pub command_line : List ℕ → List ℕ → ℕ → List ℕ → List Opt
command_line name arg_cluster c arg_cmd =
    record { c = b'i'; optarg = name }
    ∷ record { c = b'c'; optarg = arg_cluster }
    ∷ record { c = c; optarg = arg_cmd }
    ∷ []

-- the lines for the devices of a mask, where `lines` are those for each
abbrev pub for_devices : ℕ → List (List ℕ) → List Line → List Line
for_devices mask_c rs lines = for_mask 16 1 (bit_and mask_c 0x1FFFF) rs lines

module _ (file_of : List ℕ → Option (List ℕ)) (m : Memory) (buffer : List ℕ) (buf : ℕ → ℕ)
    (name arg_cluster arg_cmd : List ℕ) (ls : List ConfigLine) where
  -- the program behind the options for the file and the devices
  abbrev ready : BoardList → Generator
  ready plst = record start { g_lst_edio24 = plst; cluster = arg_cluster }

  -- what it prints for a command
  abbrev pub printed : ℕ → Option (List ℕ)
  printed c = main file_of m (some buffer) buf (command_line name arg_cluster c arg_cmd)

  -- A command that prints `lines`.
  main-prints :
      (c : ℕ) (lines : List Line) (plst : BoardList)
      → file_of name ≡ some (config_text ls)
      → read_file_rows m (some buffer) brdlst_init (some (config_text ls)) ≡ some plst
      → brdlst_clean plst ≡ some brdlst_init
      → switch file_of m (some buffer) buf (ready plst) (record { c = c; optarg = arg_cmd })
        ≡ some (prints (ready plst) (file_text lines))
      → printed c ≡ some (file_text lines)
  unfolding main options switch
  main-prints c lines plst stored read cleaned e =
      rw (stored, read, e, brdlst_clean-brdlst_init, cleaned) refl

  -- What the three commands for devices print.
  pub record Printed (mask_c mask_p val : ℕ) : Type 0 where
    pub setpower :
        printed b'p'
        ≡ some (
            file_text (
              for_devices mask_c
                (rows_in ls)
                (dconfig_w 0xFFFFFF 0 ∷ dout_w 0x0000FF (bit_and mask_p 0x01FF / 2) ∷ blank ∷ [])))
    pub setatten :
        printed b'a'
        ≡ some (file_text (for_devices mask_c (rows_in ls) (attenuate (bit_and mask_p 0x03) val)))
    pub getpower :
        printed b'r' ≡ some (file_text (for_devices mask_c (rows_in ls) (dout_r ∷ blank ∷ [])))

  module _ (mask_c mask_p unused val : ℕ) (plst : BoardList) (rows_there : rows plst ≡ rows_in ls)
      (valid : IsBoardList plst) (all : AllRows (rows plst))
      (e : values_of (some arg_cluster) ≡ some (mask_c, unused))
      (e' : values_of (some arg_cmd) ≡ some (mask_p, val)) where
    -- lines for the list are lines for its rows
    for_rows :
        (written : Option (List Line)) (lines : List Line)
        → written ≡ some (for_mask 16 1 (bit_and mask_c 0x1FFFF) (rows plst) lines)
        → written ≡ some (for_devices mask_c (rows_in ls) lines)
    for_rows written lines w =
        w ∙ ap (λ (xs : List (List ℕ)). some (for_devices mask_c xs lines)) rows_there

    setpower_written :
        switch file_of m (some buffer) buf (ready plst) (record { c = b'p'; optarg = arg_cmd })
        ≡ some (
            prints (ready plst) (
              file_text (
                for_devices mask_c (rows_in ls) (
                  dconfig_w 0xFFFFFF 0
                  ∷ dout_w 0x0000FF (bit_and mask_p 0x01FF / 2)
                  ∷ blank
                  ∷ []))))
    unfolding switch
    setpower_written = ap (prints_lines (ready plst)) (
        for_rows (do_setpower plst buf (some arg_cluster) (some arg_cmd)) _ (
          do_setpower_lem plst buf (some arg_cluster) (some arg_cmd) mask_c mask_p unused val valid
            all e e'))

    setatten_written :
        switch file_of m (some buffer) buf (ready plst) (record { c = b'a'; optarg = arg_cmd })
        ≡ some (
            prints
              (ready plst)
              (file_text (for_devices mask_c (rows_in ls) (attenuate (bit_and mask_p 0x03) val))))
    unfolding switch
    setatten_written = ap (prints_lines (ready plst)) (
        for_rows (do_setatten plst buf (some arg_cluster) (some arg_cmd)) _ (
          do_setatten_lem plst buf (some arg_cluster) (some arg_cmd) mask_c mask_p unused val valid
            all e e'))

    getpower_written :
        switch file_of m (some buffer) buf (ready plst) (record { c = b'r'; optarg = arg_cmd })
        ≡ some (
            prints (ready plst) (file_text (for_devices mask_c (rows_in ls) (dout_r ∷ blank ∷ []))))
    unfolding switch
    getpower_written = ap (prints_lines (ready plst)) (
        for_rows (do_getpower plst buf (some arg_cluster) (some arg_cmd)) _ (
          do_getpower_lem plst buf (some arg_cluster) (some arg_cmd) mask_c mask_p unused val valid
            all e e'))

  -- Let the program be run with the options -i for a file, -c for its devices and a command for
  -- them, with arguments with these masks and a value, with memory enough. Where the file is
  -- there, and each of its lines, the last one too, is ended by a newline and has fewer than 4999
  -- characters and no zero byte, and a text of fewer than 200 characters between blanks, or none,
  -- the rows are the texts that are no comments, without the blanks. Where there is at least one,
  -- the program ends without a failed assertion, and prints for each bit 1 to 16 of the clusters'
  -- mask that has a row, in order, the row with its number and the commands for the device: for
  -- -p those that set the switches, for -a those that latch the halves of the value into the
  -- attenuators, and for -r the one that reads the pins.
  pub main-Printed :
      (mask_c mask_p unused val : ℕ)
      → m.reallocated ≡ true
      → m.duplicated ≡ true
      → file_of name ≡ some (config_text ls)
      → 0 < length (rows_in ls)
      → AllConfigLines ls
      → values_of (some arg_cluster) ≡ some (mask_c, unused)
      → values_of (some arg_cmd) ≡ some (mask_p, val)
      → Printed mask_c mask_p val
  main-Printed mask_c mask_p unused val there there' stored some_row kept e e' =
      let (plst, read, rows_there, valid) =
        read_file_rows-config_text m there there' ls buffer kept in
      let all : AllRows (rows plst) = subst AllRows (sym rows_there) (rows_in-AllRows ls kept) in
      let cleaned : brdlst_clean plst ≡ some brdlst_init =
        brdlst_clean-rows plst valid (omega (arith, ap length rows_there)) in
      record {
        setpower =
            main-prints b'p' _ plst stored read cleaned
              (setpower_written mask_c mask_p unused val plst rows_there valid all e e');
        setatten =
            main-prints b'a' _ plst stored read cleaned
              (setatten_written mask_c mask_p unused val plst rows_there valid all e e');
        getpower =
            main-prints b'r' _ plst stored read cleaned
              (getpower_written mask_c mask_p unused val plst rows_there valid all e e');
      }
