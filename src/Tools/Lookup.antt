-- ===== src/Tools/Lookup.antt =====
-- The boards of utils/gencctcmd.c by their name: get_ip_of_board, get_mac_of_board and
-- get_ngcmac_of_board, and the reports of do_get_ip_board and do_get_all_board. What they write is text.
pub mod Laws
pub mod Names
pub mod Ordered
pub mod Report
mod Tests
use libedio.Base.{
  ℕ, zero, suc, ◌+◌, ◌/◌, ◌%◌, ◌^◌, bit_and, Option, none, some, List, [], ◌∷◌, ◌++◌, Bool, true,
  false,
}
use libedio.Base.{not, ltb, ◌==◌, if◌then◌else◌, ◌>>=◌, ℤ, pos, negsuc, Buffer, memmove}
use libedio.Text.{literal, strcmp}
use libedio.Util.Strip.{string_memory}
use libedio.Tools.Search.{pf_bsearch_r}
use libedio.Tools.Boards.{BoardList, brdlst_get, string_in}
use libedio.Tools.Column.{cstr_line_get_column}
use libedio.Tools.Command.{parse_values_atten, invalid_int}

-- the string in `buf`, behind the assertion that the column was found
abbrev pub asserted : ℤ × Buffer → Option (List ℕ)
asserted (negsuc n, b) = none
asserted (pos n, b) = string_in b.cap b.byte

-- The name of the row at `idx`, as pf_bsearch_cb_comp_brdlst_board_name reads it into its buffer of
-- 100 bytes. A list of 2 ^ 31 rows, where the index changes as an `int`, is not modelled.
unfoldable pub name_at : BoardList → ℕ → Option (List ℕ)
name_at plst idx = if not (ltb idx plst.sz_cur) then none else do
  row ← brdlst_get plst (pos idx)
  line ← row
  read ← cstr_line_get_column line 0 (record { cap = 100; byte = λ _. 0 }) 100
  asserted read

-- pf_bsearch_cb_comp_brdlst_board_name
abbrev pub compare_name : BoardList → List ℕ → ℕ → Option ℤ
compare_name plst name idx = name_at plst idx >>= λ buf. some (strcmp buf name)

-- `idx` behind the search; it begins as 0
abbrev pub index_of : Option ℕ → ℕ
index_of none = 0
index_of (some idx) = idx

-- the row that a search comes to, if it found one
abbrev pub row_found : BoardList → ℤ × Option ℕ → Option (Option (List ℕ))
row_found plst (negsuc n, idx) = some none
row_found plst (pos n, idx) = brdlst_get plst (pos (index_of idx))

-- the row of a name: the search and brdlst_get
unfoldable pub find_row : BoardList → List ℕ → Option (Option (List ℕ))
unfolding name_at
find_row plst name =
    pf_bsearch_r plst.sz_cur (some (compare_name plst name)) (some 0) >>= λ r. row_found plst r

-- one column of a row, if there is a row
abbrev pub column_from : ℕ → Buffer → ℕ → Option (List ℕ) → Option (ℤ × Buffer)
column_from column ret_buf sz_buf none = some (negsuc 0, ret_buf)
column_from column ret_buf sz_buf (some line) = cstr_line_get_column line column ret_buf sz_buf

unfoldable pub get_ip_of_board : BoardList → List ℕ → Buffer → ℕ → Option (ℤ × Buffer)
unfolding find_row
get_ip_of_board lst name ret_buf sz_buf =
    find_row lst name >>= λ row. column_from 5 ret_buf sz_buf row

unfoldable pub get_mac_of_board : BoardList → List ℕ → Buffer → ℕ → Option (ℤ × Buffer)
unfolding find_row
get_mac_of_board lst name ret_buf sz_buf =
    find_row lst name >>= λ row. column_from 4 ret_buf sz_buf row

unfoldable pub get_ngcmac_of_board : BoardList → List ℕ → Buffer → ℕ → Option (ℤ × Buffer)
unfolding find_row
get_ngcmac_of_board lst name ret_buf sz_buf =
    find_row lst name >>= λ row. column_from 3 ret_buf sz_buf row

-- "%02d", of a number below 100
abbrev pub two_digits : ℕ → List ℕ
two_digits n = (b'0' + n / 10) ∷ (b'0' + n % 10) ∷ []

-- "CCT_C%02d-%02d"
abbrev pub board_name : ℕ → ℕ → List ℕ
board_name i j = literal "CCT_C" ++ two_digits i ++ b'-' ∷ two_digits j

-- The two loops of a report, with what a round writes, on the buffer `buf` of 200 bytes.
module _ (round : ℕ → ℕ → Buffer → Option (List ℕ × Buffer)) where
  -- for (j = 0; j <= 8; j ++), with `left` rounds left
  unfoldable pub boards : ℕ → ℕ → ℕ → ℕ → Buffer → Option (List ℕ × Buffer)
  boards zero j i mask_p buf = some ([], buf)
  boards (suc left) j i mask_p buf = do
    (here, buf₁) ← (if bit_and mask_p (2 ^ j) == 0 then some ([], buf) else round i j buf)
    (rest, buf₂) ← boards left (j + 1) i mask_p buf₁
    some (here ++ rest, buf₂)

  -- for (i = 0; i <= 16; i ++), with `left` rounds left
  unfoldable pub board_clusters : ℕ → ℕ → ℕ → ℕ → Buffer → Option (List ℕ × Buffer)
  unfolding boards
  board_clusters zero i mask_c mask_p buf = some ([], buf)
  board_clusters (suc left) i mask_c mask_p buf = do
    (here, buf₁) ← (if bit_and mask_c (2 ^ i) == 0 then some ([], buf) else boards 9 0 i mask_p buf)
    (rest, buf₂) ← board_clusters left (i + 1) mask_c mask_p buf₁
    some (here ++ rest, buf₂)

-- an argument, where NULL is the empty string
abbrev pub argument : Option (List ℕ) → List ℕ
argument none = []
argument (some arg) = arg

-- what is written for an address that was read
abbrev pub ip_line : ℕ → ℕ → ℤ × Buffer → Option (List ℕ × Buffer)
ip_line i j (negsuc n, buf) = some ([], buf)
ip_line i j (pos n, buf) = do
  text ← string_in buf.cap buf.byte
  some (board_name i j ++ b'\t' ∷ text, buf)

-- one round of do_get_ip_board: the name is in the buffer that the address is then written to
unfoldable pub ip_round : BoardList → ℕ → ℕ → Buffer → Option (List ℕ × Buffer)
unfolding get_ip_of_board
ip_round lst i j buf = do
  buf₁ ← memmove buf 0 (string_memory (board_name i j)) 11
  read ← get_ip_of_board lst (board_name i j) buf₁ 200
  ip_line i j read

-- do_get_ip_board; what the parser returns is not looked at
unfoldable pub do_get_ip_board :
    BoardList → (ℕ → ℕ) → Option (List ℕ) → Option (List ℕ) → Option (List ℕ)
unfolding ip_round board_clusters
do_get_ip_board lst buf arg_cluster arg_cmd = do
  (ret_c, mask_c, val_c) ← parse_values_atten (argument arg_cluster) 0
  (ret_p, mask_p, val_p) ← parse_values_atten (argument arg_cmd) 0
  written ← board_clusters (ip_round lst) 17 0 mask_c mask_p (record { cap = 200; byte = buf })
  some written.0

-- what is written for a row
abbrev pub row_line : Option (List ℕ) → List ℕ
row_line none = []
row_line (some line) = line ++ b'\n' ∷ []

-- one round of do_get_all_board
unfoldable pub all_round : BoardList → ℕ → ℕ → Buffer → Option (List ℕ × Buffer)
unfolding find_row
all_round lst i j buf = if not (ltb 0 lst.sz_cur) then none else do
  buf₁ ← memmove buf 0 (string_memory (board_name i j)) 11
  row ← find_row lst (board_name i j)
  some (row_line row, buf₁)

-- do_get_all_board; an argument that sets a value ends it
unfoldable pub do_get_all_board :
    BoardList → (ℕ → ℕ) → Option (List ℕ) → Option (List ℕ) → Option (List ℕ)
unfolding all_round board_clusters
do_get_all_board lst buf arg_cluster arg_cmd = do
  (ret_p, mask_p, val_p) ← parse_values_atten (argument arg_cmd) invalid_int
  (if not (val_p == invalid_int) then some [] else do
    (ret_c, mask_c, val_c) ← parse_values_atten (argument arg_cluster) invalid_int
    (if not (val_c == invalid_int) then some [] else do
      written ← board_clusters (all_round lst) 17 0 mask_c mask_p (record { cap = 200; byte = buf })
      some written.0))
