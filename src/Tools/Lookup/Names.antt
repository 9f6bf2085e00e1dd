-- ===== src/Tools/Lookup/Names.antt =====
-- The rows of boards, and how their names are read.
use libedio.Base.{ℕ, zero, suc, ◌+◌, ◌<◌, ◌≡◌, ◌∙◌, refl, arith, some, List, [], ◌∷◌, ◌++◌}
use libedio.Base.{false, lt→ltb, le→ltb, ◌==◌, pos, Buffer, memmove_lem, store_lem, copied, update}
use libedio.Packet.Read.{offset}
use libedio.Text.{length}
use libedio.Text.Laws.{Without, length-append}
use libedio.Util.Strip.{is_stripped, byte_of, string_memory}
use libedio.Util.Strip.Laws.{byte_of-within, strip_copy}
use libedio.Tools.Boards.{BoardList, row_at, string_in}
use libedio.Tools.Boards.Laws.{IsBoardList, rows, brdlst_get-rows}
use libedio.Tools.Boards.Strings.{string_in-text}
use libedio.Tools.Column.{to_split, trim_end, cstr_line_get_column}
use libedio.Tools.Column.Laws.{first_column}
use libedio.Tools.Lookup.{name_at}

-- No character is a blank, a line end or a zero byte.
abbrev pub Plain : List ℕ → Type 0
Plain [] = Unit {0}
Plain (c ∷ cs) = (is_stripped c ≡ false) × (0 < c) × Plain cs

-- The name of a board: plain characters, fewer than 100 of them.
abbrev pub IsName : List ℕ → Type 0
IsName [] = ⊥
IsName (c ∷ cs) = Plain (c ∷ cs) × (length (c ∷ cs) < 100)

-- the row of a board: its name, a tab, and the other columns
abbrev pub row : List ℕ × List ℕ → List ℕ
row (name, columns) = name ++ b'\t' ∷ columns

to_split-name : (cs columns : List ℕ) → Plain cs → to_split (cs ++ b'\t' ∷ columns) ≡ length cs
unfolding to_split
to_split-name [] columns plain = refl
to_split-name (c ∷ cs) columns plain =
    let tab : (c == b'\t') ≡ false = ground (arith, plain.0) in
    rw (tab, to_split-name cs columns plain.2) refl

byte_of-Plain :
    (xs : List ℕ) (i : ℕ) → Plain xs → i < length xs → is_stripped (byte_of xs i) ≡ false
byte_of-Plain [] i plain h = absurd (omega arith)
byte_of-Plain (x ∷ xs) zero plain h = plain.0
byte_of-Plain (x ∷ xs) (suc i) plain h = byte_of-Plain xs i plain.2 (omega arith)

trim_end-name :
    (c : ℕ) (cs columns : List ℕ)
    → Plain (c ∷ cs)
    → (n : ℕ) → n ≡ length cs
    → trim_end ((c ∷ cs) ++ b'\t' ∷ columns) 0 n ≡ n
unfolding trim_end
trim_end-name c cs columns plain zero e = refl
trim_end-name c cs columns plain (suc n) e =
    let at : 0 + suc n ≡ suc n = omega arith in
    let stays : is_stripped (byte_of ((c ∷ cs) ++ b'\t' ∷ columns) (suc n)) ≡ false =
      rw (byte_of-within (c ∷ cs) (b'\t' ∷ columns) (suc n) (omega arith))
        (byte_of-Plain (c ∷ cs) (suc n) plain (omega arith)) in
    rw (at, stays) refl

Plain-Without : (xs : List ℕ) → Plain xs → Without 0 xs
Plain-Without [] plain = tt
Plain-Without (x ∷ xs) plain = (omega (arith, plain.1), Plain-Without xs plain.2)

-- The first column of a board's row is its name.
name_column :
    (c : ℕ) (cs columns : List ℕ)
    → IsName (c ∷ cs)
    → (b : Buffer) × (cstr_line_get_column
          ((c ∷ cs) ++ b'\t' ∷ columns)
          0
          (record { cap = 100; byte = λ _. 0 })
          100
        ≡ some (pos 0, b))
      × (string_in b.cap b.byte ≡ some (c ∷ cs))
unfolding cstr_line_get_column
name_column c cs columns named =
    let line : List ℕ = (c ∷ cs) ++ b'\t' ∷ columns in
    let n : ℕ = suc (length cs) in
    let m : ℕ → ℕ = copied (λ _. 0) 0 (λ i. byte_of line (0 + i)) n in
    let long : length line ≡ n + suc (length columns) = length-append (c ∷ cs) (b'\t' ∷ columns) in
    let ends : to_split (cs ++ b'\t' ∷ columns) ≡ length cs = to_split-name cs columns named.0.2 in
    let whole : trim_end line 0 (length cs) + 1 ≡ n =
      omega (arith, trim_end-name c cs columns named.0 (length cs) refl) in
    (
      record { cap = 100; byte = update m n 0 },
      rw
          (
            first_column c (cs ++ b'\t' ∷ columns) named.0.0,
            ends,
            whole,
            le→ltb 100 n (omega (arith, named.1)),
            memmove_lem (record { cap = 100; byte = λ _. 0 }) 0 (offset (string_memory line) 0) n
                (omega (arith, named.1)) (omega (arith, long)),
            store_lem (record { cap = 100; byte = m }) n 0 (omega (arith, named.1)),
          )
          refl,
      string_in-text 100 (update m n 0) (c ∷ cs) (Plain-Without (c ∷ cs) named.0) named.1
          (λ k h.
            strip_copy (λ _. 0) (λ i. byte_of line (0 + i)) n k h
            ∙ (let e : 0 + k ≡ k = omega arith in
                rw e (byte_of-within (c ∷ cs) (b'\t' ∷ columns) k h)))
          (ground arith),
    )

-- A row with a name is read as that name.
pub name_at-row :
    (plst : BoardList) (idx : ℕ) (name columns : List ℕ)
    → IsBoardList plst
    → IsName name
    → idx < plst.sz_cur
    → row_at (rows plst) idx ≡ some (row (name, columns))
    → name_at plst idx ≡ some name
unfolding name_at
name_at-row plst idx [] columns valid named h e = absurd named
name_at-row plst idx (c ∷ cs) columns valid named h e =
    let (b, read, text) = name_column c cs columns named in
    rw (lt→ltb idx plst.sz_cur h, brdlst_get-rows plst idx valid, e, read, text) refl
