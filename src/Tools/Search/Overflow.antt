-- ===== src/Tools/Search/Overflow.antt =====
-- What pf_bsearch_r of utils/utils.c makes of a list whose indices have 64 bits: the sum of two of them
-- wraps.
use libedio.Base.{
  ℕ, zero, suc, ◌+◌, ◌^◌, ◌≤◌, ◌<◌, ◌≡◌, refl, arith, inl, inr, Option, none, some, false,
}
use libedio.Base.{Bool-cases, ltb, ltb→lt, ltb→le, le→ltb, ℤ, negsuc}
use libedio.Tools.Search.{middle, search, pf_bsearch_r}

module _ (num : ℕ) (cb_comp : ℕ → Option ℤ) (large : 2 ^ 63 ≤ num) (least : num < 2 ^ 64)
    (smaller : (j : ℕ) → j < num → (n : ℕ) × (cb_comp j ≡ some (negsuc n)))
    (outside : (j : ℕ) → num ≤ j → cb_comp j ≡ none) where
  search_overflows :
      (fuel i ileft : ℕ) → 1 ≤ ileft → ileft ≤ num → search cb_comp fuel i ileft num ≡ none
  unfolding search
  search_overflows zero i ileft start within = refl
  search_overflows (suc fuel) i ileft start within =
      let mid : ℕ = middle ileft num in
      elim (Bool-cases (ltb mid num)) [
        | inl inside ↦
            let (n, e) = smaller mid (ltb→lt _ _ inside) in
            rw (le→ltb num ileft within, e, search)
              (search_overflows fuel mid _ (omega (arith, ltb→lt _ _ inside))
                (omega (arith, ltb→lt _ _ inside)))
        | inr beyond ↦ rw (le→ltb num ileft within, outside mid (ltb→le _ _ beyond), search) refl
      ]

  -- For 2 ^ 63 items or more that are all smaller than the one that is looked for, the search has
  -- no result: whatever `ret_idx` points to, it looks at an item outside the list, or has not
  -- ended after one round more than there are items.
  pub pf_bsearch_r-overflows : (ret_idx : Option ℕ) → pf_bsearch_r num (some cb_comp) ret_idx ≡ none
  unfolding pf_bsearch_r
  pf_bsearch_r-overflows ret_idx =
      let some_there : ltb num 1 ≡ false = le→ltb num 1 (omega arith) in
      rw (some_there, search_overflows (num + 1) 0 1 (omega arith) (omega arith)) refl
