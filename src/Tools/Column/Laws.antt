-- ===== src/Tools/Column/Laws.antt =====
-- The first column of a row.
use libedio.Base.{ℕ, zero, suc, ◌+◌, ◌≤◌, ◌<◌, ◌≡◌, refl, arith, some, List, ◌∷◌, [], false}
use libedio.Base.{le→ltb, ◌==◌, Buffer, pos, memmove_lem, store_lem, copied, update}
use libedio.Packet.Read.{offset}
use libedio.Text.{length, drop}
use libedio.Util.Strip.{is_stripped, byte_of, string_memory, skip_start}
use libedio.Tools.Column.{to_split, trim_end, column_text, cstr_line_get_column}

to_split-length : (cs : List ℕ) → to_split cs ≤ length cs
unfolding to_split
to_split-length [] = omega arith
to_split-length (c ∷ cs) = ground (arith, to_split-length cs)

trim_end-le : (line : List ℕ) (start left : ℕ) → trim_end line start left ≤ left
unfolding trim_end
trim_end-le line start zero = omega arith
trim_end-le line start (suc left) = ground (arith, trim_end-le line start left)

at_start : (c : ℕ) (cs : List ℕ) → is_stripped c ≡ false → skip_start (c ∷ cs) ≡ 0
unfolding skip_start
at_start c cs h = rw h refl

no_tab : (c : ℕ) (cs : List ℕ) → is_stripped c ≡ false → to_split (c ∷ cs) ≡ suc (to_split cs)
unfolding to_split
no_tab c cs h = let tab : (c == b'\t') ≡ false = ground arith in rw tab refl

-- where the first column stands, and how long it is
pub first_column :
    (c : ℕ) (cs : List ℕ)
    → is_stripped c ≡ false
    → column_text (c ∷ cs) 0 ≡ some (0, trim_end (c ∷ cs) 0 (to_split cs) + 1)
unfolding column_text
first_column c cs h =
    let here : 0 + skip_start (drop 0 (c ∷ cs)) ≡ 0 = omega (arith, at_start c cs h) in
    rw (column_text, here, no_tab c cs h) (rw here refl)

-- The first column of a row that begins with no blank is there, where the row fits the buffer.
pub cstr_line_get_column-first :
    (c : ℕ) (cs : List ℕ) (ret_buf : Buffer) (sz_buf : ℕ)
    → is_stripped c ≡ false
    → length (c ∷ cs) ≤ sz_buf
    → length (c ∷ cs) < ret_buf.cap
    → (b : Buffer) × (cstr_line_get_column (c ∷ cs) 0 ret_buf sz_buf ≡ some (pos 0, b))
unfolding cstr_line_get_column
cstr_line_get_column-first c cs ret_buf sz_buf h fits room =
    let n : ℕ = trim_end (c ∷ cs) 0 (to_split cs) + 1 in
    let e : column_text (c ∷ cs) 0 ≡ some (0, n) = first_column c cs h in
    let small : n ≤ length (c ∷ cs) =
      omega (arith, trim_end-le (c ∷ cs) 0 (to_split cs), to_split-length cs) in
    let line : List ℕ = c ∷ cs in
    let m : ℕ → ℕ = copied ret_buf.byte 0 (λ i. byte_of line (0 + i)) n in
    (
      record ret_buf { byte = update m n 0 },
      rw
          (
            e,
            le→ltb sz_buf n (omega (arith, small, fits)),
            memmove_lem ret_buf 0 (offset (string_memory line) 0) n (omega (arith, small, room))
                (omega (arith, small)),
            store_lem (record ret_buf { byte = m }) n 0 (omega (arith, small, room)),
          )
          refl,
    )
