-- ===== src/Tools/Column.antt =====
-- cstr_line_get_column of utils/gencctcmd.c: one of the columns of a row, which tabs separate.
pub mod Laws
use libedio.Base.{ℕ, zero, suc, ◌+◌, ◌-◌, Option, none, some, List, [], ◌∷◌, Bool, true, false}
use libedio.Base.{not, ltb, ◌==◌, if◌then◌else◌, ◌>>=◌, ℤ, pos, negsuc, Buffer, store, memmove}
use libedio.Packet.Read.{offset}
use libedio.Text.{length, drop}
use libedio.Util.Strip.{is_stripped, byte_of, string_memory, skip_start}

-- how far it is to the next tab, or to the end
unfoldable pub to_split : List ℕ → ℕ
to_split [] = 0
to_split (c ∷ cs) = let more = suc (to_split cs) in if c == b'\t' then 0 else more

-- the first loop: where the column begins, if there are so many tabs
unfoldable pub skip_columns : ℕ → List ℕ → ℕ → Option ℕ
unfolding to_split
skip_columns zero line from = some from
skip_columns (suc column) line from =
    let next = skip_columns column line (from + to_split (drop from line) + 1) in
    if ltb (from + to_split (drop from line)) (length line) then next else none

-- the loop back over spaces: `left` is how far `pend` stands behind `pstart`
unfoldable pub trim_end : List ℕ → ℕ → ℕ → ℕ
trim_end line start zero = zero
trim_end line start (suc left) =
    let more = trim_end line start left in
    if is_stripped (byte_of line (start + suc left)) then more else suc left

-- Where the text of a column from `from` on begins, and how long it is. `none` is a read before the
-- string: the loop back reads the byte before an empty column.
unfoldable pub column_text : List ℕ → ℕ → Option (ℕ × ℕ)
unfolding trim_end to_split skip_start
column_text line from =
    let start = from + skip_start (drop from line) in
    elim (to_split (drop start line)) [
      | zero ↦ if start == 0 then none else some (start, 0)
      | suc n ↦ some (start, trim_end line start n + 1)
    ]

-- cstr_line_get_column
unfoldable pub cstr_line_get_column : List ℕ → ℕ → Buffer → ℕ → Option (ℤ × Buffer)
unfolding skip_columns column_text
cstr_line_get_column line column ret_buf sz_buf = elim (skip_columns column line 0) [
  | none ↦ some (negsuc 0, ret_buf)
  | some from ↦ do
    (start, n) ← column_text line from
    (if ltb sz_buf n then some (negsuc 0, ret_buf) else do
      b₁ ← memmove ret_buf 0 (offset (string_memory line) start) n
      b₂ ← store b₁ n 0
      some (pos 0, b₂))
]
