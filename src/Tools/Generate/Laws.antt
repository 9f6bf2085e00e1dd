-- ===== src/Tools/Generate/Laws.antt =====
-- What the commands for the devices of a file write.
use libedio.Base.{
  ℕ, zero, suc, ◌+◌, ◌-◌, ◌/◌, ◌^◌, ◌<◌, ◌≡◌, refl, sym, arith, bit_and, bit_and-le, Option, none,
  some, List, [], ◌∷◌, ◌++◌,
}
use libedio.Base.{false, ◌==◌, if◌then◌else◌, Bool-cases, inl, inr, ◌>>=◌}
use mathlib.Core.Path.{subst}
use libedio.Text.{length}
use libedio.Util.Strip.{is_stripped}
use libedio.Tools.Boards.{BoardList, row_at}
use libedio.Tools.Boards.Laws.{IsBoardList, rows, brdlst_get-rows}
use libedio.Tools.Column.Laws.{cstr_line_get_column-first}
use libedio.Tools.Command.{
  Line, dconfig_w, dout_w, dout_r, blank, connect_to, output_power, power_arg, output_power_read,
}
use libedio.Tools.Command.Laws.{output_power-power_arg}
use libedio.Tools.Generate.{
  values_of, get_ip_of_edio24, cluster, clusters, do_setpower, do_getpower,
}

-- A row as the strip leaves it, of less than 200 characters.
abbrev pub IsRow : List ℕ → Type 0
IsRow [] = ⊥
IsRow (c ∷ cs) = (is_stripped c ≡ false) × (length (c ∷ cs) < 200)

abbrev pub AllRows : List (List ℕ) → Type 0
AllRows [] = Unit {0}
AllRows (s ∷ ss) = IsRow s × AllRows ss

-- what is written for a row, if there is one: the row and its number, and the lines
abbrev pub for_row : Option (List ℕ) → ℕ → List Line → List Line
for_row none i lines = []
for_row (some s) i lines = connect_to s i ∷ lines

-- what is written for the bits of a mask from `i` on: each in order, with the row before its number
abbrev pub for_mask : ℕ → ℕ → ℕ → List (List ℕ) → List Line → List Line
for_mask zero i mask_c rs lines = []
for_mask (suc left) i mask_c rs lines =
    (if bit_and mask_c (2 ^ i) == 0 then [] else for_row (row_at rs (i - 1)) i lines)
    ++ for_mask left (i + 1) mask_c rs lines

row_at-IsRow :
    (rs : List (List ℕ)) (i : ℕ) (s : List ℕ) → AllRows rs → row_at rs i ≡ some s → IsRow s
row_at-IsRow [] i s all e = absurd (cc)
row_at-IsRow (r ∷ rs) zero s all e = subst IsRow (cc) all.0
row_at-IsRow (r ∷ rs) (suc i) s all e = row_at-IsRow rs i s all.1 e

module _ (lst : BoardList) (buf : ℕ → ℕ) (valid : IsBoardList lst) (all : AllRows (rows lst))
    (lines : List Line) where
  row_written :
      (i : ℕ) (s : List ℕ)
      → row_at (rows lst) (i - 1) ≡ some s
      → cluster lst buf (some lines) i ≡ some (connect_to s i ∷ lines)
  unfolding cluster get_ip_of_edio24
  row_written i [] e = absurd (row_at-IsRow (rows lst) (i - 1) [] all e)
  row_written i (c ∷ cs) e =
      let row : IsRow (c ∷ cs) = row_at-IsRow (rows lst) (i - 1) (c ∷ cs) all e in
      let (b, read) =
        cstr_line_get_column-first c cs (record { cap = 200; byte = buf }) 200 row.0
          (omega (arith, row.1)) row.1 in
      rw (brdlst_get-rows lst (i - 1) valid, e, read, brdlst_get-rows lst (i - 1) valid, e) refl

  row_missing :
      (i : ℕ) → row_at (rows lst) (i - 1) ≡ none → cluster lst buf (some lines) i ≡ some []
  unfolding cluster get_ip_of_edio24
  row_missing i e = rw (brdlst_get-rows lst (i - 1) valid, e) refl

  cluster_lem :
      (i : ℕ) → cluster lst buf (some lines) i ≡ some (for_row (row_at (rows lst) (i - 1)) i lines)
  cluster_lem i = go (row_at (rows lst) (i - 1)) refl
    where
      go :
          (r : Option (List ℕ))
          → row_at (rows lst) (i - 1) ≡ r
          → cluster lst buf (some lines) i ≡ some (for_row (row_at (rows lst) (i - 1)) i lines)
      go none e = rw e (row_missing i e)
      go (some s) e = rw e (row_written i s e)

  pub clusters_lem :
      (left i mask_c : ℕ)
      → clusters lst buf (some lines) left i mask_c ≡ some (for_mask left i mask_c (rows lst) lines)
  unfolding clusters
  clusters_lem zero i mask_c = refl
  clusters_lem (suc left) i mask_c = elim (Bool-cases (bit_and mask_c (2 ^ i) == 0)) [
    | inl clear ↦ rw (clear, clusters_lem left (i + 1) mask_c) refl
    | inr set ↦ rw (set, cluster_lem i, clusters_lem left (i + 1) mask_c) refl
  ]

-- For a list whose rows begin with no blank and have fewer than 200 characters, and for arguments with
-- these masks, do_setpower writes, for each bit 1 to 16 of the clusters' mask that has a row, in order,
-- the row with its number and the commands that make all pins outputs and set the first port to the
-- bits 1 to 8 of the other mask.
pub do_setpower_lem :
    (lst : BoardList) (buf : ℕ → ℕ) (arg_cluster arg_cmd : Option (List ℕ))
    (mask_c mask_p unused val : ℕ)
    → IsBoardList lst
    → AllRows (rows lst)
    → values_of arg_cluster ≡ some (mask_c, unused)
    → values_of arg_cmd ≡ some (mask_p, val)
    → do_setpower lst buf arg_cluster arg_cmd
      ≡ some (
          for_mask 16 1
            (bit_and mask_c 0x1FFFF)
            (rows lst)
            (dconfig_w 0xFFFFFF 0 ∷ dout_w 0x0000FF (bit_and mask_p 0x01FF / 2) ∷ blank ∷ []))
unfolding do_setpower
do_setpower_lem lst buf arg_cluster arg_cmd mask_c mask_p unused val valid all e e' =
    let small : bit_and mask_p 0x01FF / 2 < 2 ^ 8 = omega (arith, bit_and-le mask_p 0x01FF) in
    let lines : List Line =
      dconfig_w 0xFFFFFF 0 ∷ dout_w 0x0000FF (bit_and mask_p 0x01FF / 2) ∷ blank ∷ [] in
    let written : (output_power (power_arg (bit_and mask_p 0x01FF / 2)) >>= λ r. some r.1)
        ≡ some lines =
      rw (output_power-power_arg (bit_and mask_p 0x01FF / 2) small) refl in
    rw (e, e')
      (subst
        (λ w.
          clusters lst buf w 16 1 (bit_and mask_c 0x1FFFF)
          ≡ some (for_mask 16 1 (bit_and mask_c 0x1FFFF) (rows lst) lines))
        (sym written) (clusters_lem lst buf valid all lines 16 1 (bit_and mask_c 0x1FFFF)))

-- For such a list do_getpower writes, for the same rows, the row with its number and the command that
-- reads the pins.
pub do_getpower_lem :
    (lst : BoardList) (buf : ℕ → ℕ) (arg_cluster arg_cmd : Option (List ℕ))
    (mask_c mask_p unused val : ℕ)
    → IsBoardList lst
    → AllRows (rows lst)
    → values_of arg_cluster ≡ some (mask_c, unused)
    → values_of arg_cmd ≡ some (mask_p, val)
    → do_getpower lst buf arg_cluster arg_cmd
      ≡ some (for_mask 16 1 (bit_and mask_c 0x1FFFF) (rows lst) (dout_r ∷ blank ∷ []))
unfolding do_getpower output_power_read
do_getpower_lem lst buf arg_cluster arg_cmd mask_c mask_p unused val valid all e e' =
    rw (e, e') (clusters_lem lst buf valid all (dout_r ∷ blank ∷ []) 16 1 (bit_and mask_c 0x1FFFF))
