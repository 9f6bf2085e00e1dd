-- ===== src/Tools/Lookup/Report.antt =====
-- What the reports about boards write.
use libedio.Base.{
  ℕ, zero, suc, ◌+◌, ◌^◌, ◌<◌, ◌≡◌, refl, arith, inl, inr, bit_and, Option, some, List, [], ◌++◌,
}
use libedio.Base.{lt→ltb, ◌==◌, if◌then◌else◌, Bool-cases, ℤ, Buffer, memmove_lem, copied}
use libedio.Util.Strip.{string_memory}
use libedio.Tools.Boards.{BoardList}
use libedio.Tools.Boards.Laws.{IsBoardList, rows}
use libedio.Tools.Command.{parse_values_atten, invalid_int}
use libedio.Tools.Lookup.{
  argument, board_name, boards, board_clusters, row_line, all_round, do_get_all_board,
}
use libedio.Tools.Lookup.Ordered.{Ascending, rows_of_boards, lookup, find_row-lookup}

module _ (plst : BoardList) (bs : List (List ℕ × List ℕ)) (valid : IsBoardList plst)
    (stored : rows plst ≡ rows_of_boards bs) (up : Ascending bs) (big : plst.sz_cur < 2 ^ 31) where
  -- what one round of do_get_all_board writes
  all_round_lem :
      (i j : ℕ) (buf : Buffer)
      → buf.cap ≡ 200
      → 0 < plst.sz_cur
      → (buf' : Buffer) × (all_round plst i j buf
          ≡ some (row_line (lookup (board_name i j) bs), buf'))
        × (buf'.cap ≡ 200)
  unfolding all_round
  all_round_lem i j buf sized filled = (
    record buf { byte = copied buf.byte 0 (string_memory (board_name i j)).byte 11 },
    rw
        (
          lt→ltb 0 plst.sz_cur filled,
          memmove_lem buf 0 (string_memory (board_name i j)) 11 (omega (arith, sized))
              (omega arith),
          find_row-lookup plst bs valid stored up big (board_name i j),
        )
        refl,
    sized,
  )

-- What a report writes, from what is written for each pair: the pairs whose bits are set, in order.
abbrev pub for_boards : (ℕ → ℕ → List ℕ) → ℕ → ℕ → ℕ → ℕ → List ℕ
for_boards text zero j i mask_p = []
for_boards text (suc left) j i mask_p =
    (if bit_and mask_p (2 ^ j) == 0 then [] else text i j) ++ for_boards text left (j + 1) i mask_p

abbrev pub for_clusters : (ℕ → ℕ → List ℕ) → ℕ → ℕ → ℕ → ℕ → List ℕ
for_clusters text zero i mask_c mask_p = []
for_clusters text (suc left) i mask_c mask_p =
    (if bit_and mask_c (2 ^ i) == 0 then [] else for_boards text 9 0 i mask_p)
    ++ for_clusters text left (i + 1) mask_c mask_p

-- A result with this text, on a buffer of 200 bytes.
abbrev Writes : Option (List ℕ × Buffer) → List ℕ → Type 0
Writes r text = (buf' : Buffer) × (r ≡ some (text, buf')) × (buf'.cap ≡ 200)

module _ (round : ℕ → ℕ → Buffer → Option (List ℕ × Buffer)) (text : ℕ → ℕ → List ℕ)
    (writes : (i j : ℕ) (buf : Buffer) → buf.cap ≡ 200 → Writes (round i j buf) (text i j)) where
  boards_lem :
      (left j i mask_p : ℕ) (buf : Buffer)
      → buf.cap ≡ 200
      → Writes (boards round left j i mask_p buf) (for_boards text left j i mask_p)
  unfolding boards
  boards_lem zero j i mask_p buf sized = (buf, refl, sized)
  boards_lem (suc left) j i mask_p buf sized = elim (Bool-cases (bit_and mask_p (2 ^ j) == 0)) [
    | inl clear ↦
        let (buf₂, e, sized₂) = boards_lem left (j + 1) i mask_p buf sized in
        (buf₂, rw (clear, e) refl, sized₂)
    | inr set ↦
        let (buf₁, e₁, sized₁) = writes i j buf sized in
        let (buf₂, e, sized₂) = boards_lem left (j + 1) i mask_p buf₁ sized₁ in
        (buf₂, rw (set, e₁, e) refl, sized₂)
  ]

  board_clusters_lem :
      (left i mask_c mask_p : ℕ) (buf : Buffer)
      → buf.cap ≡ 200
      → Writes
          (board_clusters round left i mask_c mask_p buf)
          (for_clusters text left i mask_c mask_p)
  unfolding board_clusters
  board_clusters_lem zero i mask_c mask_p buf sized = (buf, refl, sized)
  board_clusters_lem (suc left) i mask_c mask_p buf sized =
      elim (Bool-cases (bit_and mask_c (2 ^ i) == 0)) [
        | inl clear ↦
            let (buf₂, e, sized₂) = board_clusters_lem left (i + 1) mask_c mask_p buf sized in
            (buf₂, rw (clear, e) refl, sized₂)
        | inr set ↦
            let (buf₁, e₁, sized₁) = boards_lem 9 0 i mask_p buf sized in
            let (buf₂, e, sized₂) = board_clusters_lem left (i + 1) mask_c mask_p buf₁ sized₁ in
            (buf₂, rw (set, e₁, e) refl, sized₂)
      ]

-- Let each row of a list of boards be a name of 1 to 99 characters, none of them a blank, a tab, a
-- line end or a zero byte, then a tab and the other columns; let there be at least one row and
-- fewer than 2 ^ 31, in the order of their names, no two with the same. For arguments with these
-- masks and no value, do_get_all_board ends without a fault and writes, for each bit 0 to 16 of the
-- clusters' mask and each bit 0 to 8 of the other, in order, the row of the board with this name,
-- if there is one.
pub do_get_all_board_lem :
    (plst : BoardList) (bs : List (List ℕ × List ℕ)) (buf : ℕ → ℕ)
    (arg_cluster arg_cmd : Option (List ℕ)) (mask_c mask_p : ℕ) (ret_c ret_p : ℤ)
    → IsBoardList plst
    → rows plst ≡ rows_of_boards bs
    → Ascending bs
    → plst.sz_cur < 2 ^ 31
    → 0 < plst.sz_cur
    → parse_values_atten (argument arg_cluster) invalid_int ≡ some (ret_c, mask_c, invalid_int)
    → parse_values_atten (argument arg_cmd) invalid_int ≡ some (ret_p, mask_p, invalid_int)
    → do_get_all_board plst buf arg_cluster arg_cmd
      ≡ some (for_clusters (λ i j. row_line (lookup (board_name i j) bs)) 17 0 mask_c mask_p)
unfolding do_get_all_board
do_get_all_board_lem plst bs buf arg_cluster arg_cmd mask_c mask_p ret_c ret_p valid stored up big
      filled e_c e_p =
    let (buf', e, sized) =
      board_clusters_lem (all_round plst) (λ i j. row_line (lookup (board_name i j) bs))
        (λ i j b c. all_round_lem plst bs valid stored up big i j b c filled) 17 0 mask_c mask_p
        (record { cap = 200; byte = buf }) refl in
    rw (e_p, e_c, e) refl
