-- ===== src/Tools/Boards.antt =====
-- The lists of rows of utils/gencctcmd.c (board_list_t, brdlst_*), and the function that fills one from
-- the lines of a file. The addresses of the rows are not modelled: a row is its string.
pub mod Laws
pub mod Config
pub mod Strings
pub mod Rows
use libedio.Base.{
  ℕ, zero, suc, ◌+◌, ◌*◌, Option, none, some, List, [], ◌∷◌, ◌++◌, Bool, true, false,
}
use libedio.Base.{not, ltb, ◌==◌, if◌then◌else◌, ◌>>=◌, ℤ, pos, negsuc, Buffer}
use libedio.Text.{length, c_string}
use libedio.Util.Strip.{cstr_strip, string_memory}
use libedio.Util.Lines.{read_file_lines}

-- `list` is NULL, or holds the rows that were stored so far, `sz_cur` of them
pub record BoardList : Type 0 where
  pub sz_max : ℕ
  pub sz_cur : ℕ
  pub list : Option (List (List ℕ))

-- brdlst_init
abbrev pub brdlst_init : BoardList
brdlst_init = record { sz_max = 0; sz_cur = 0; list = none }

-- brdlst_clean; `none` is an assertion that fails
unfoldable pub brdlst_clean : BoardList → Option BoardList
brdlst_clean plst = elim plst.list [
  | none ↦ some brdlst_init
  | some rows ↦
      if not (ltb 0 plst.sz_cur)
      then none
      else if ltb plst.sz_max plst.sz_cur
      then none
      else some brdlst_init
]

-- brdlst_length and brdlst_maxsize
abbrev pub brdlst_length : BoardList → ℕ
brdlst_length plst = plst.sz_cur

abbrev pub brdlst_maxsize : BoardList → ℕ
brdlst_maxsize plst = plst.sz_max

abbrev pub row_at : List (List ℕ) → ℕ → Option (List ℕ)
row_at [] i = none
row_at (x ∷ xs) zero = some x
row_at (x ∷ xs) (suc i) = row_at xs i

-- a row that was stored
abbrev pub stored_row : Option (List (List ℕ)) → ℕ → Option (Option (List ℕ))
stored_row none i = none
stored_row (some rows) i = row_at rows i >>= λ s. some (some s)

-- brdlst_get: a string or NULL. A negative index is a huge one after its conversion to `size_t`.
unfoldable pub brdlst_get : BoardList → ℤ → Option (Option (List ℕ))
brdlst_get plst (negsuc n) = some none
brdlst_get plst (pos id) = if not (ltb id plst.sz_cur) then some none else stored_row plst.list id

-- what realloc and strdup bring: whether there was memory
pub record Memory : Type 0 where
  pub reallocated : Bool
  pub duplicated : Bool

-- the rows that the list holds
abbrev pub rows_of : Option (List (List ℕ)) → List (List ℕ)
rows_of none = []
rows_of (some rows) = rows

-- the size that brdlst_append asks realloc for
abbrev pub new_size : ℕ → ℕ
new_size sz_max = if not (ltb sz_max 20) then sz_max * 2 else 20

-- room for one more row: `inl` where realloc fails
pub data Grown : Type 0 where
  no_memory : Grown
  with_room : BoardList → Grown

unfoldable pub grow : Memory → BoardList → Option Grown
grow m plst =
    if ltb plst.sz_cur plst.sz_max
    then some (with_room plst)
    else if not (plst.sz_cur == plst.sz_max)
    then none
    else if not (ltb plst.sz_max (new_size plst.sz_max))
    then none
    else if m.reallocated
    then some
        (with_room (record plst { sz_max = new_size plst.sz_max; list = some (rows_of plst.list) }))
    else some no_memory

-- the row is stored at `sz_cur`
abbrev pub put_row : Memory → List ℕ → Grown → ℤ × Option BoardList
put_row m cstr no_memory = (negsuc 0, none)
put_row m cstr (with_room plst) =
    if m.duplicated
    then (
      pos 0,
      some (record plst { sz_cur = plst.sz_cur + 1; list = some (rows_of plst.list ++ cstr ∷ []) }),
    )
    else (negsuc 0, some plst)

-- what is left in the list where nothing was changed
abbrev pub or_before : BoardList → ℤ × Option BoardList → ℤ × BoardList
or_before plst (ret, none) = (ret, plst)
or_before plst (ret, some plst') = (ret, plst')

-- brdlst_append
unfoldable pub brdlst_append : Memory → BoardList → Option (List ℕ) → Option (ℤ × BoardList)
unfolding grow
brdlst_append m plst none = some (negsuc 0, plst)
brdlst_append m plst (some cstr) = do
  grown ← grow m plst
  some (or_before plst (put_row m cstr grown))

-- the string at the head of a buffer
abbrev pub string_in : ℕ → (ℕ → ℕ) → Option (List ℕ)
string_in zero m = none
string_in (suc left) m =
    let rest = string_in left (λ i. m (i + 1)) in
    if m 0 == 0 then some [] else (rest >>= λ s. some (m 0 ∷ s))

-- cb_process_brdlst_line from the strip on: comments and empty lines are skipped
abbrev pub keep_line : Memory → BoardList → ℤ → List ℕ → Option (ℤ × BoardList)
keep_line m plst (negsuc n) s = some (negsuc 0, plst)
keep_line m plst (pos (suc n)) s = some (negsuc 0, plst)
keep_line m plst (pos zero) [] = some (pos 0, plst)
keep_line m plst (pos zero) (c ∷ cs) =
    if c == b'#' then some (pos 0, plst) else brdlst_append m plst (some (c ∷ cs))

-- cb_process_brdlst_line: `mem` is memory from `buf` on. The strip writes over the line itself, whose
-- terminator is at `size`.
unfoldable pub cb_process_brdlst_line : Memory → BoardList → List ℕ → ℕ → Option (ℤ × BoardList)
cb_process_brdlst_line m plst mem size = do
  line ← c_string mem
  (ret, stripped) ← cstr_strip (some line) (some (string_memory line)) size
  s ← (stripped >>= λ b. string_in b.cap b.byte)
  keep_line m plst ret s

-- the function that read_file_lines calls, for a list; what it returns is not looked at
abbrev pub collect : Memory → BoardList → ℕ → List ℕ → ℕ → Option BoardList
collect m plst position mem size = cb_process_brdlst_line m plst mem size >>= λ r. some r.1

-- read_file_edio24 and read_file_board, for the list that each fills
unfoldable pub read_file_rows :
    Memory → Option (List ℕ) → BoardList → Option (List ℕ) → Option BoardList
read_file_rows m buffer plst file = do
  empty ← brdlst_clean plst
  (ret, filled) ← read_file_lines (collect m) buffer brdlst_init file
  some filled
