-- ===== src/Tools/Search.antt =====
-- pf_bsearch_r of utils/utils.c. The indices `ileft` and `iright` count from 1, as in the source.
pub mod Laws
pub mod Overflow
use libedio.Base.{
  ℕ, zero, suc, ◌+◌, ◌-◌, ◌/◌, ◌%◌, ◌^◌, Option, none, some, Bool, true, false, not, ltb,
  if◌then◌else◌, ◌>>=◌, ℤ, pos, negsuc,
}

-- the local variables behind the loop
pub record Search : Type 0 where
  pub flg_found : Bool
  pub i : ℕ
  pub ileft : ℕ
  pub iright : ℕ

-- `i` in a round of the loop; all indices wrap as a `size_t` does
abbrev pub middle : ℕ → ℕ → ℕ
middle ileft iright = ((ileft + iright) % 2 ^ 64 / 2 + (2 ^ 64 - 1)) % 2 ^ 64

-- for (; ileft <= iright;), on fuel
unfoldable pub search : (ℕ → Option ℤ) → ℕ → ℕ → ℕ → ℕ → Option Search
search cb_comp zero i ileft iright = none
search cb_comp (suc fuel) i ileft iright = elim (ltb iright ileft) [
  | true ↦ some (record { flg_found = false; i = i; ileft = ileft; iright = iright })
  | false ↦ cb_comp (middle ileft iright) >>= λ ret. elim ret [
    | pos zero ↦
        some (record { flg_found = true; i = middle ileft iright; ileft = ileft; iright = iright })
    | pos (suc _) ↦ search cb_comp fuel (middle ileft iright) ileft (middle ileft iright)
    | negsuc _ ↦
        search cb_comp fuel (middle ileft iright) ((middle ileft iright + 2) % 2 ^ 64) iright
  ]
]

-- *ret_idx = v, where there is a pointer
abbrev pub stored : Option ℕ → ℕ → Option ℕ
stored none v = none
stored (some _) v = some v

-- behind the loop
unfoldable pub conclude : Option ℕ → Search → ℤ × Option ℕ
conclude ret_idx s =
    if s.flg_found
    then (pos 0, stored ret_idx s.i)
    else if not (ltb s.i s.iright)
    then (negsuc 0, stored ret_idx s.i)
    else if not (ltb s.ileft ((s.i + 2) % 2 ^ 64))
    then (negsuc 0, stored ret_idx ((s.i + 1) % 2 ^ 64))
    else (negsuc 0, ret_idx)

-- `cb_comp` has its first and last argument applied, and is `none` where it faults; the loop has fuel for `num_data + 1` rounds.
unfoldable pub pf_bsearch_r : ℕ → Option (ℕ → Option ℤ) → Option ℕ → Option (ℤ × Option ℕ)
pf_bsearch_r num_data none ret_idx = some (negsuc 0, ret_idx)
pf_bsearch_r num_data (some cb_comp) ret_idx =
    if ltb num_data 1
    then some (negsuc 0, stored ret_idx 0)
    else search cb_comp (num_data + 1) 0 1 num_data >>= λ s. some (conclude ret_idx s)
