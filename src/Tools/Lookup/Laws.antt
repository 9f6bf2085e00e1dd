-- ===== src/Tools/Lookup/Laws.antt =====
-- What the lookup of a board comes to, and the order of strcmp.
use libedio.Base.{
  ℕ, ◌^◌, ◌≤◌, ◌<◌, ◌≡◌, ◌∙◌, refl, sym, ap, arith, inl, inr, Option, none, some, List, [], ◌∷◌,
}
use libedio.Base.{ltb, ltb→lt, ltb→le, ◌==◌, if◌then◌else◌, Bool-cases, ℤ, pos, negsuc}
use libedio.Text.{strcmp}
use libedio.Tools.Search.{pf_bsearch_r}
use libedio.Tools.Search.Laws.{order, Finds, found, missing, pf_bsearch_r-Finds}
use libedio.Tools.Boards.{BoardList, row_at}
use libedio.Tools.Boards.Laws.{IsBoardList, rows, row_at-length, brdlst_get-rows}
use libedio.Tools.Lookup.{name_at, compare_name, find_row}

-- the comparison of two strings, with what comes behind two first characters
order_cons :
    (c d : ℕ) (z : ℤ)
    → order (if c == d then z else if ltb c d then negsuc 0 else pos 1)
      ≡ (if c == d then order z else if ltb c d then 0 else 2)
order_cons c d z = elim (Bool-cases (c == d)) [
  | inl e ↦ rw e refl
  | inr n ↦ elim (Bool-cases (ltb c d)) [ inl l ↦ rw (n, l) refl | inr g ↦ rw (n, g) refl ]
]

-- A string that is not behind another compares no higher with a third.
strcmp_mono : (x y t : List ℕ) → order (strcmp x y) ≤ 1 → order (strcmp x t) ≤ order (strcmp y t)
strcmp_mono [] [] t h = omega arith
strcmp_mono [] (d ∷ ds) [] h = omega arith
strcmp_mono [] (d ∷ ds) (e ∷ es) h = omega arith
strcmp_mono (c ∷ cs) [] t h = absurd (omega arith)
strcmp_mono (c ∷ cs) (d ∷ ds) [] h = omega arith
strcmp_mono (c ∷ cs) (d ∷ ds) (e ∷ es) h = ground (
  arith,
  order_cons c d (strcmp cs ds),
  order_cons c e (strcmp cs es),
  order_cons d e (strcmp ds es),
  strcmp_mono cs ds es,
)

pub strcmp-same : (x : List ℕ) → order (strcmp x x) ≡ 1
strcmp-same [] = refl
strcmp-same (c ∷ cs) = ground (arith, order_cons c c (strcmp cs cs), strcmp-same cs)

pub strcmp-equal : (x y : List ℕ) → order (strcmp x y) ≡ 1 → x ≡ y
strcmp-equal [] [] h = refl
strcmp-equal [] (d ∷ ds) h = absurd (omega arith)
strcmp-equal (c ∷ cs) [] h = absurd (omega arith)
strcmp-equal (c ∷ cs) (d ∷ ds) h = elim (Bool-cases (c == d)) [
  | inl e ↦
      let rest : cs ≡ ds = strcmp-equal cs ds (ground (arith, order_cons c d (strcmp cs ds))) in
      let first : c ≡ d = ground arith in cc
  | inr n ↦ absurd (ground (arith, order_cons c d (strcmp cs ds)))
]

-- The names of the rows are these, and stand in the order of strcmp.
pub record IsNamed (plst : BoardList) (names : ℕ → List ℕ) : Type 0 where
  pub read : (idx : ℕ) → idx < plst.sz_cur → name_at plst idx ≡ some (names idx)
  pub sorted : (i j : ℕ) → i ≤ j → j < plst.sz_cur → order (strcmp (names i) (names j)) ≤ 1

-- What the lookup of a name comes to: a row that has it, or nothing where no row has it.
pub data FoundRow (plst : BoardList) (names : ℕ → List ℕ) (name : List ℕ)
    (r : Option (Option (List ℕ))) : Type 0 where
  there :
      (idx : ℕ) (row : List ℕ)
      → r ≡ some (some row)
      → row_at (rows plst) idx ≡ some row
      → names idx ≡ name
      → FoundRow plst names name r
  nowhere :
      r ≡ some none
      → ((idx : ℕ) → idx < plst.sz_cur → ¬ (names idx ≡ name))
      → FoundRow plst names name r

-- A search for the name ends without a fault, at a row with the name, or with the index that it would have.
module _ (plst : BoardList) (names : ℕ → List ℕ) (name : List ℕ) (valid : IsBoardList plst)
    (big : plst.sz_cur < 2 ^ 31) (named : IsNamed plst names) where
  abbrev compared : ℕ → ℤ
  compared idx = strcmp (names idx) name

  search-Finds :
      Finds compared plst.sz_cur (pf_bsearch_r plst.sz_cur (some (compare_name plst name)) (some 0))
  search-Finds =
      pf_bsearch_r-Finds plst.sz_cur (compare_name plst name) compared 0 (omega (arith, big))
        (λ i h. rw (named.read i h) refl)
        (λ i j h k. strcmp_mono (names i) (names j) name (named.sorted i j h k))

  -- no row that compares as smaller or larger has the name
  not_named : (idx : ℕ) (n : ℕ) → order (compared idx) ≡ n → ¬ (n ≡ 1) → ¬ (names idx ≡ name)
  not_named idx n e ne same =
      ne (sym e ∙ ap (λ (x : List ℕ). order (strcmp x name)) same ∙ strcmp-same name)

  pub find_row-FoundRow : FoundRow plst names name (find_row plst name)
  unfolding find_row
  find_row-FoundRow = elim search-Finds [
    | found idx e least match ↦
        let (row, is) = row_at-length (rows plst) idx (omega (arith, valid.counted, least)) in
        there idx row (rw (e, brdlst_get-rows plst idx valid, is) refl) is
          (strcmp-equal (names idx) name match)
    | missing place e most lo hi ↦ nowhere (rw e refl) (λ idx h. elim (Bool-cases (ltb idx place)) [
      | inl below ↦ not_named idx 0 (lo idx (ltb→lt _ _ below)) (λ z. absurd (omega arith))
      | inr above ↦ not_named idx 2 (hi idx (ltb→le _ _ above) h) (λ z. absurd (omega arith))
    ])
  ]
