-- ===== src/Tools/Search/Laws.antt =====
-- What pf_bsearch_r of utils/utils.c finds.
use libedio.Base.{
  ℕ, zero, suc, ◌+◌, ◌/◌, ◌%◌, ◌^◌, ◌≤◌, ◌<◌, ◌≡◌, refl, arith, ◌⊎◌, inl, inr, Option, some,
}
use libedio.Base.{true, false, Bool-cases, ltb, ltb→lt, ltb→le, ℤ, pos, negsuc, ap}
use libedio.Tools.Search.{Search, middle, search, conclude, pf_bsearch_r}

-- The comparison faults at no item, and returns this.
abbrev pub Compares : (ℕ → Option ℤ) → (ℕ → ℤ) → ℕ → Type 0
Compares cb_comp cb num = (i : ℕ) → i < num → cb_comp i ≡ some (cb i)

-- How an item compares with the one that is looked for: 0 before it, 1 a match, 2 behind it.
abbrev pub order : ℤ → ℕ
order (negsuc n) = 0
order (pos zero) = 1
order (pos (suc n)) = 2

-- The items stand in order.
abbrev pub IsSorted : (ℕ → ℤ) → ℕ → Type 0
IsSorted cb num = (i j : ℕ) → i ≤ j → j < num → order (cb i) ≤ order (cb j)

-- What the search finds: a match at `idx`, or the place where one would go.
pub data Finds (cb : ℕ → ℤ) (num : ℕ) (result : Option (ℤ × Option ℕ)) : Type 0 where
  found :
      (idx : ℕ)
      → result ≡ some (pos 0, some idx)
      → idx < num
      → order (cb idx) ≡ 1
      → Finds cb num result
  missing :
      (idx : ℕ)
      → result ≡ some (negsuc 0, some idx)
      → idx ≤ num
      → ((j : ℕ) → j < idx → order (cb j) ≡ 0)
      → ((j : ℕ) → idx ≤ j → j < num → order (cb j) ≡ 2)
      → Finds cb num result

-- What the loop leaves.
data Ran (cb : ℕ → ℤ) (num : ℕ) (result : Option Search) : Type 0 where
  match :
      (s : Search)
      → result ≡ some s
      → s.flg_found ≡ true
      → s.i < num
      → order (cb s.i) ≡ 1
      → Ran cb num result
  no_match :
      (s : Search)
      → result ≡ some s
      → s.flg_found ≡ false
      → s.ileft ≡ s.iright + 1
      → s.iright ≤ num
      → s.i < 2 ^ 63
      → ((s.iright ≡ s.i) ⊎ (s.ileft ≡ s.i + 2))
      → ((j : ℕ) → j < s.iright → order (cb j) ≡ 0)
      → ((j : ℕ) → s.iright ≤ j → j < num → order (cb j) ≡ 2)
      → Ran cb num result

data Sign (z : ℤ) : Type 0 where
  before : (n : ℕ) → z ≡ negsuc n → Sign z
  same : z ≡ pos 0 → Sign z
  behind : (n : ℕ) → z ≡ pos (suc n) → Sign z

sign : (z : ℤ) → Sign z
sign (negsuc n) = before n refl
sign (pos zero) = same refl
sign (pos (suc n)) = behind n refl

order_of : (z z' : ℤ) → z ≡ z' → order z ≡ order z'
order_of z z' e = ap order e

order-le : (z : ℤ) → order z ≤ 2
order-le (negsuc n) = omega arith
order-le (pos zero) = omega arith
order-le (pos (suc n)) = omega arith

module _ (cb_comp : ℕ → Option ℤ) (cb : ℕ → ℤ) (num : ℕ) (big : num < 2 ^ 63)
    (compares : Compares cb_comp cb num) (sorted : IsSorted cb num) where
  search-Ran :
      (fuel i l r : ℕ)
      → 1 ≤ l
      → l ≤ r + 1
      → r ≤ num
      → r + 1 < fuel + l
      → i < 2 ^ 63
      → ((l ≤ r) ⊎ ((r ≡ i) ⊎ (l ≡ i + 2)))
      → ((j : ℕ) → j + 1 < l → order (cb j) ≡ 0)
      → ((j : ℕ) → r ≤ j → j < num → order (cb j) ≡ 2)
      → Ran cb num (search cb_comp fuel i l r)
  unfolding search
  search-Ran zero i l r a b c f g e lo hi = absurd (omega arith)
  search-Ran (suc fuel) i l r a b c f g e lo hi = elim (Bool-cases (ltb r l)) [
    | inl over ↦
        rw (over, search)
          (no_match _ refl refl (omega (arith, ltb→lt _ _ over)) c g
            (ground (arith, ltb→lt _ _ over)) (λ j h. lo j (omega (arith, ltb→lt _ _ over))) hi)
    | inr on ↦
        let mid : ℕ = middle l r in
        let le : l ≤ r = ltb→le _ _ on in
        let is : mid + 1 ≡ (l + r) / 2 = omega arith in
        let read : cb_comp mid ≡ some (cb mid) = compares mid (omega arith) in
        elim (sign (cb mid)) [
          | before n e ↦
              rw (on, read, e, search)
                (search-Ran fuel mid ((mid + 2) % 2 ^ 64) r (omega arith) (omega arith) c
                  (omega arith) (omega arith) (ground arith)
                  (λ j h.
                    omega (arith, sorted j mid (omega arith) (omega arith), order_of (cb mid) _ e))
                  hi)
          | same e ↦
              rw (on, read, e, search) (match _ refl refl (omega arith) (order_of (cb mid) _ e))
          | behind n e ↦
              rw (on, read, e, search)
                (search-Ran fuel mid l mid a (omega arith) (omega arith) (omega arith) (omega arith)
                  (ground arith) lo
                  (λ j h k.
                    omega (arith, sorted mid j h k, order_of (cb mid) _ e, order-le (cb j))))
        ]
  ]

-- Whatever `ret_idx` showed, the search of fewer than 2 ^ 63 sorted items, with a comparison that
-- faults at none of them, ends. It returns 0 with the index of a match, or -1 with the index that a
-- match would have: all items below it are smaller, all from it on larger.
pub pf_bsearch_r-Finds :
    (num : ℕ) (cb_comp : ℕ → Option ℤ) (cb : ℕ → ℤ) (old : ℕ)
    → num < 2 ^ 63
    → Compares cb_comp cb num
    → IsSorted cb num
    → Finds cb num (pf_bsearch_r num (some cb_comp) (some old))
unfolding pf_bsearch_r conclude
pf_bsearch_r-Finds num cb_comp cb old big compares sorted = elim (Bool-cases (ltb num 1)) [
  | inl empty ↦
      rw (empty, pf_bsearch_r)
        (missing 0 refl (omega arith) (λ j h. absurd (omega arith))
          (λ j h k. absurd (omega (arith, ltb→lt _ _ empty))))
  | inr some_there ↦
      elim (search-Ran cb_comp cb num big compares sorted (num + 1) 0 1 num (omega arith)
        (omega arith) (omega arith) (omega arith) (omega arith) (inl (ltb→le _ _ some_there))
        (λ j h. absurd (omega arith)) (λ j h k. absurd (omega arith))) [
          | match s e is_found least equal ↦
              rw (some_there, e, is_found, pf_bsearch_r, conclude) (found s.i refl least equal)
          | no_match s e is_not ends most low last lo hi ↦
              missing s.iright (ground (arith, some_there, e, is_not)) most lo hi
        ]
]
