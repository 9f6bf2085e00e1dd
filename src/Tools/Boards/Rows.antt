-- ===== src/Tools/Boards/Rows.antt =====
-- The rows that a configuration file of utils/gencctcmd.c is read to.
use libedio.Base.{
  ℕ, zero, suc, ◌+◌, ◌<◌, ◌≤◌, ◌≡◌, ◌∙◌, refl, sym, ap, arith, Option, none, some, List, [], ◌∷◌,
  ◌++◌,
}
use libedio.Base.{Buffer, pos, Bool-cases, update, true, lt→ltb, le→ltb, ◌==◌, inl, inr, ◌>>=◌}
use mathlib.Core.List.{append_assoc, append-nil}
use mathlib.Core.Path.{subst}
use libedio.Text.{length, drop}
use libedio.Text.Laws.{
  Without, Without-append, length-append, c_string-append, Without-prefix, Without-suffix,
}
use libedio.Util.Strip.{string_memory}
use libedio.Util.Strip.Laws.{AllStripped, cstr_strip-text, cstr_strip-blank}
use libedio.Util.Lines.{lines_loop, read_file_lines}
use libedio.Util.Lines.Laws.{lines_loop-line}
use libedio.Tools.Boards.{
  BoardList, Memory, rows_of, brdlst_init, string_in, keep_line, cb_process_brdlst_line, collect,
  read_file_rows, brdlst_clean,
}
use libedio.Tools.Boards.Laws.{
  IsBoardList, rows, appended, refused, brdlst_init-IsBoardList, brdlst_append-Appended,
}
use libedio.Tools.Boards.Config.{
  ConfigLine, line_text, IsText, IsConfigLine, AllConfigLines, config_text, row_of, rows_in,
}
use libedio.Tools.Boards.Strings.{string_in-Holds}

AllStripped-append : (xs ys : List ℕ) → AllStripped xs → AllStripped ys → AllStripped (xs ++ ys)
AllStripped-append [] ys a b = b
AllStripped-append (x ∷ xs) ys a b = (a.0, AllStripped-append xs ys a.1 b)

-- What a line comes to: the list with its row, if it has one.
record Collects (r : Option BoardList) (plst : BoardList) (text : List ℕ) : Type 0 where
  plst' : BoardList
  returns : r ≡ some plst'
  more : rows plst' ≡ rows plst ++ row_of text
  valid : IsBoardList plst'

module _ (m : Memory) (there : m.reallocated ≡ true) (there' : m.duplicated ≡ true) where
  -- A blank line is skipped.
  collect-blank :
      (plst : BoardList) (line stale : List ℕ) (position : ℕ)
      → IsBoardList plst
      → AllStripped line
      → Without 0 line
      → 0 < length line
      → Collects (collect m plst position (line ++ 0 ∷ stale) (length line)) plst []
  unfolding cb_process_brdlst_line
  collect-blank plst line stale position valid blank w some_char =
      let mem : Buffer = string_memory line in
      let text : string_in (length line + 1) (update mem.byte 0 0) ≡ some [] =
        string_in-Holds (length line + 1) (update mem.byte 0 0) [] tt (omega arith)
          (ground arith) in
      record {
        plst' = plst;
        returns =
            rw
              (
                c_string-append line stale w,
                cstr_strip-blank line mem (length line) blank some_char (omega arith),
                text,
              )
              refl;
        more = sym (append-nil (rows plst));
        valid = valid;
      }

  -- What is kept of a line is stored, where it is no comment.
  keep_line-Collects :
      (plst : BoardList) (c : ℕ) (cs : List ℕ)
      → IsBoardList plst
      → Collects (keep_line m plst (pos 0) (c ∷ cs) >>= λ r. some r.1) plst (c ∷ cs)
  keep_line-Collects plst c cs valid = elim (Bool-cases (c == b'#')) [
    | inl comment ↦ rw comment (record {
      plst' = plst;
      returns = refl;
      more = rw comment (sym (append-nil (rows plst)));
      valid = valid;
    })
    | inr row ↦ elim (brdlst_append-Appended m plst (c ∷ cs) valid) [
      | appended plst' ok more valid' ↦ record {
        plst' = plst';
        returns = rw (row, ok) refl;
        more = rw row more;
        valid = valid';
      }
      | refused plst' bad same_rows valid' reason ↦
          absurd (elim reason [ inl q ↦ (cc) | inr q ↦ (cc) ])
    ]
  ]

  -- A line with a text.
  collect-text :
      (plst : BoardList) (a : List ℕ) (c : ℕ) (cs b stale : List ℕ) (position : ℕ)
      → IsBoardList plst
      → AllStripped a
      → AllStripped b
      → IsText (c ∷ cs)
      → Without 0 (c ∷ cs)
      → Without 0 (a ++ ((c ∷ cs) ++ b))
      → Collects
          (collect m plst position
            ((a ++ ((c ∷ cs) ++ b)) ++ 0 ∷ stale)
            (length (a ++ ((c ∷ cs) ++ b))))
          plst
          (c ∷ cs)
  unfolding cb_process_brdlst_line
  collect-text plst a c cs b stale position valid blank_a blank_b (first, last, short) w w' =
      let line : List ℕ = a ++ ((c ∷ cs) ++ b) in
      let long : length (c ∷ cs) ≤ length line =
        omega (arith, length-append a ((c ∷ cs) ++ b), length-append (c ∷ cs) b) in
      let (m', stripped, holds) =
        cstr_strip-text a c cs b blank_a blank_b first last (string_memory line) (length line) long
          (omega arith) in
      let text : string_in (length line + 1) m' ≡ some (c ∷ cs) =
        string_in-Holds (length line + 1) m' (c ∷ cs) w (omega arith) holds in
      let kept = keep_line-Collects plst c cs valid in
      record {
        plst' = kept.plst';
        returns = rw (c_string-append line stale w', stripped, text) kept.returns;
        more = kept.more;
        valid = kept.valid;
      }

-- A line of a configuration file.
module _ (m : Memory) (there : m.reallocated ≡ true) (there' : m.duplicated ≡ true) where
  collect-Collects :
      (plst : BoardList) (a text b stale : List ℕ) (position : ℕ)
      → IsBoardList plst
      → AllStripped a
      → AllStripped b
      → IsText text
      → Without 0 (a ++ (text ++ b))
      → Collects
          (collect m plst position
            (((a ++ (text ++ b)) ++ b'\n' ∷ []) ++ 0 ∷ stale)
            (length ((a ++ (text ++ b)) ++ b'\n' ∷ [])))
          plst
          text
  collect-Collects plst a [] b stale position valid blank_a blank_b is_text w =
      collect-blank m there there' plst ((a ++ b) ++ b'\n' ∷ []) stale position valid
        (AllStripped-append (a ++ b) (b'\n' ∷ []) (AllStripped-append a b blank_a blank_b)
          (refl, tt))
        (Without-append 0 (a ++ b) (b'\n' ∷ []) w (omega arith))
        (omega (arith, length-append (a ++ b) (b'\n' ∷ [])))
  collect-Collects plst a (c ∷ cs) b stale position valid blank_a blank_b is_text w =
      let end : List ℕ = b'\n' ∷ [] in
      let whole : (a ++ ((c ∷ cs) ++ b)) ++ end ≡ a ++ ((c ∷ cs) ++ (b ++ end)) =
        append_assoc a ((c ∷ cs) ++ b) end
        ∙ ap (λ (xs : List ℕ). a ++ xs) (append_assoc (c ∷ cs) b end) in
      subst
        (λ (xs : List ℕ).
          Collects (collect m plst position (xs ++ 0 ∷ stale) (length xs)) plst (c ∷ cs))
        (sym whole)
        (collect-text m there there' plst a c cs (b ++ end) stale position valid blank_a
          (AllStripped-append b end blank_b (refl, tt)) is_text
          (Without-prefix 0 (c ∷ cs) b (Without-suffix 0 a ((c ∷ cs) ++ b) w))
          (subst (Without 0) whole (Without-append 0 (a ++ ((c ∷ cs) ++ b)) end w (omega arith))))

  length-config_text : (ls : List ConfigLine) → length ls ≤ length (config_text ls)
  unfolding config_text
  length-config_text [] = omega arith
  length-config_text (l ∷ ls) =
      omega (arith, length-append (line_text l) (b'\n' ∷ config_text ls), length-config_text ls)

  -- What the lines of a file bring to a list.
  lines_loop-rows :
      (ls : List ConfigLine) (fuel : ℕ) (plst : BoardList) (position : ℕ) (buffer : List ℕ)
      → AllConfigLines ls
      → IsBoardList plst
      → length ls < fuel
      → (plst' : BoardList) × (lines_loop (collect m) fuel plst position buffer (config_text ls)
          ≡ some plst')
        × (rows plst' ≡ rows plst ++ rows_in ls)
        × IsBoardList plst'
  unfolding config_text
  lines_loop-rows ls zero plst position buffer all valid h = absurd (omega arith)
  lines_loop-rows [] (suc fuel) plst position buffer all valid h =
      (plst, unfold lines_loop in refl, sym (append-nil (rows plst)), valid)
  lines_loop-rows (l ∷ ls) (suc fuel) plst position buffer all valid h =
      let v : IsConfigLine l = all.0 in
      let text : List ℕ = line_text l ++ b'\n' ∷ [] in
      let here =
        collect-Collects plst l.before l.text l.behind (drop (length text + 1) buffer) position
          valid v.blank_before v.blank_behind v.stays v.no_zero in
      let (last, e, all_rows, valid') =
        lines_loop-rows ls fuel here.plst' (position + length text)
          (text ++ 0 ∷ drop (length text + 1) buffer) all.1 here.valid (omega arith) in
      (
        last,
        lines_loop-line (collect m) fuel plst here.plst' position buffer (line_text l)
              (config_text ls) v.one_line v.no_zero v.fits here.returns
            ∙ e,
        all_rows
            ∙ ap (λ (xs : List (List ℕ)). xs ++ rows_in ls) here.more
            ∙ append_assoc (rows plst) (row_of l.text) (rows_in ls),
        valid',
      )

  -- A file is read to a list of exactly the rows in it.
  pub read_file_rows-config_text :
      (ls : List ConfigLine) (buffer : List ℕ)
      → AllConfigLines ls
      → (plst : BoardList) × (read_file_rows m (some buffer) brdlst_init (some (config_text ls))
          ≡ some plst)
        × (rows plst ≡ rows_in ls)
        × IsBoardList plst
  unfolding read_file_rows read_file_lines brdlst_clean
  read_file_rows-config_text ls buffer all =
      let (plst, e, all_rows, valid) =
        lines_loop-rows ls (length (config_text ls) + 1) brdlst_init 0 buffer all
          brdlst_init-IsBoardList (omega (arith, length-config_text ls)) in
      (plst, rw e refl, all_rows, valid)

clean_lem :
    (sz_max sz_cur : ℕ) (list : Option (List (List ℕ)))
    → length (rows_of list) ≡ sz_cur
    → sz_cur ≤ sz_max
    → 0 < sz_cur
    → brdlst_clean (record { sz_max = sz_max; sz_cur = sz_cur; list = list }) ≡ some brdlst_init
unfolding brdlst_clean
clean_lem sz_max sz_cur none counted fits some_row = absurd (omega arith)
clean_lem sz_max sz_cur (some xs) counted fits some_row =
    rw (lt→ltb 0 sz_cur some_row, le→ltb sz_max sz_cur fits) refl

-- A list with rows can be cleaned.
pub brdlst_clean-rows :
    (plst : BoardList)
    → IsBoardList plst
    → 0 < length (rows plst)
    → brdlst_clean plst ≡ some brdlst_init
brdlst_clean-rows plst valid some_row =
    clean_lem plst.sz_max plst.sz_cur plst.list valid.counted valid.fits
      (omega (arith, valid.counted))

pub brdlst_clean-brdlst_init : brdlst_clean brdlst_init ≡ some brdlst_init
unfolding brdlst_clean
brdlst_clean-brdlst_init = refl
