-- ===== src/Tools/Lookup/Ordered.antt =====
-- A list of boards in the order of their names, and the lookup of a name in it.
use libedio.Base.{
  ℕ, zero, suc, ◌^◌, ◌≤◌, ◌<◌, ◌≡◌, ◌∙◌, refl, sym, ap, arith, inl, inr, Option, none, some, List,
  [], ◌∷◌,
}
use libedio.Base.{true, ltb, ◌==◌, if◌then◌else◌, Bool-cases}
use mathlib.Core.Path.{subst}
use libedio.Text.{length, strcmp}
use libedio.Tools.Search.Laws.{order}
use libedio.Tools.Boards.{BoardList, row_at}
use libedio.Tools.Boards.Laws.{IsBoardList, rows}
use libedio.Tools.Lookup.{find_row}
use libedio.Tools.Lookup.Names.{IsName, row, name_at-row}
use libedio.Tools.Lookup.Laws.{
  IsNamed, there, nowhere, find_row-FoundRow, strcmp-same, strcmp-equal,
}

-- The name stands before all names of the others.
abbrev pub Before : List ℕ → List (List ℕ × List ℕ) → Type 0
Before name [] = Unit {0}
Before name (b ∷ bs) = (order (strcmp name b.0) ≡ 0) × Before name bs

-- All have names, and stand in the order of these, no two with the same.
abbrev pub Ascending : List (List ℕ × List ℕ) → Type 0
Ascending [] = Unit {0}
Ascending (b ∷ bs) = IsName b.0 × Before b.0 bs × Ascending bs

-- the rows of the boards
abbrev pub rows_of_boards : List (List ℕ × List ℕ) → List (List ℕ)
rows_of_boards [] = []
rows_of_boards (b ∷ bs) = row b ∷ rows_of_boards bs

-- the row of a name, looked for from the front
abbrev pub lookup : List ℕ → List (List ℕ × List ℕ) → Option (List ℕ)
lookup name [] = none
lookup name (b ∷ bs) =
    let rest = lookup name bs in if order (strcmp b.0 name) == 1 then some (row b) else rest

-- the name of a board by its index
abbrev pub name_in : List (List ℕ × List ℕ) → ℕ → List ℕ
name_in [] idx = []
name_in (b ∷ bs) zero = b.0
name_in (b ∷ bs) (suc idx) = name_in bs idx

name_in-Before :
    (name : List ℕ) (bs : List (List ℕ × List ℕ)) (j : ℕ)
    → Before name bs
    → j < length bs
    → order (strcmp name (name_in bs j)) ≡ 0
name_in-Before name [] j before h = absurd (omega arith)
name_in-Before name (b ∷ bs) zero before h = before.0
name_in-Before name (b ∷ bs) (suc j) before h = name_in-Before name bs j before.1 (omega arith)

name_in-sorted :
    (bs : List (List ℕ × List ℕ)) (i j : ℕ)
    → Ascending bs
    → i ≤ j
    → j < length bs
    → order (strcmp (name_in bs i) (name_in bs j)) ≤ 1
name_in-sorted [] i j up h k = absurd (omega arith)
name_in-sorted (b ∷ bs) zero zero up h k = omega (arith, strcmp-same b.0)
name_in-sorted (b ∷ bs) zero (suc j) up h k =
    omega (arith, name_in-Before b.0 bs j up.1 (omega arith))
name_in-sorted (b ∷ bs) (suc i) zero up h k = absurd (omega arith)
name_in-sorted (b ∷ bs) (suc i) (suc j) up h k =
    name_in-sorted bs i j up.2 (omega arith) (omega arith)

-- the columns of a board by its index, and its row
row_at-board :
    (bs : List (List ℕ × List ℕ)) (idx : ℕ)
    → Ascending bs
    → idx < length bs
    → IsName (name_in bs idx)
      × ((columns : List ℕ) × (row_at (rows_of_boards bs) idx
            ≡ some (row (name_in bs idx, columns))))
row_at-board [] idx up h = absurd (omega arith)
row_at-board (b ∷ bs) zero up h = (up.0, (b.1, refl))
row_at-board (b ∷ bs) (suc idx) up h = row_at-board bs idx up.2 (omega arith)

length-rows_of_boards : (bs : List (List ℕ × List ℕ)) → length (rows_of_boards bs) ≡ length bs
length-rows_of_boards [] = refl
length-rows_of_boards (b ∷ bs) = ap suc (length-rows_of_boards bs)

-- The search from the front comes to the row that is there, and to nothing where there is none.
lookup-there :
    (bs : List (List ℕ × List ℕ)) (name : List ℕ) (idx : ℕ) (r : List ℕ)
    → Ascending bs
    → row_at (rows_of_boards bs) idx ≡ some r
    → name_in bs idx ≡ name
    → lookup name bs ≡ some r
lookup-there [] name idx r up e same = absurd (cc)
lookup-there (b ∷ bs) name zero r up e same =
    let found : (order (strcmp b.0 name) == 1) ≡ true =
      subst (λ x. (order (strcmp b.0 x) == 1) ≡ true) same (rw (strcmp-same b.0) refl) in
    rw found e
lookup-there (b ∷ bs) name (suc idx) r up e same = elim (Bool-cases (ltb idx (length bs))) [
  | inl within ↦
      let less : order (strcmp b.0 name) ≡ 0 =
        subst (λ x. order (strcmp b.0 x) ≡ 0) same
          (name_in-Before b.0 bs idx up.1 (ground arith)) in
      rw less (lookup-there bs name idx r up.2 e same)
  | inr beyond ↦
      absurd (row_beyond (rows_of_boards bs) idx r (ground (arith, length-rows_of_boards bs)) e)
]
  where
    row_beyond :
        (xs : List (List ℕ)) (i : ℕ) (r : List ℕ) → length xs ≤ i → ¬ (row_at xs i ≡ some r)
    row_beyond [] i r h e = absurd (cc)
    row_beyond (x ∷ xs) zero r h e = absurd (omega arith)
    row_beyond (x ∷ xs) (suc i) r h e = row_beyond xs i r (omega arith) e

lookup-nowhere :
    (bs : List (List ℕ × List ℕ)) (name : List ℕ)
    → ((idx : ℕ) → idx < length bs → ¬ (name_in bs idx ≡ name))
    → lookup name bs ≡ none
lookup-nowhere [] name never = refl
lookup-nowhere (b ∷ bs) name never = elim (Bool-cases (order (strcmp b.0 name) == 1)) [
  | inl same ↦ absurd (never 0 (omega arith) (strcmp-equal b.0 name (ground arith)))
  | inr other ↦ rw other (lookup-nowhere bs name (λ idx h. never (suc idx) (omega arith)))
]

module _ (plst : BoardList) (bs : List (List ℕ × List ℕ)) (valid : IsBoardList plst)
    (stored : rows plst ≡ rows_of_boards bs) (up : Ascending bs) (big : plst.sz_cur < 2 ^ 31) where
  counted_boards : length bs ≡ plst.sz_cur
  counted_boards = sym (length-rows_of_boards bs) ∙ (ap length (sym stored) ∙ valid.counted)

  boards-IsNamed : IsNamed plst (name_in bs)
  boards-IsNamed = record {
    read = λ idx h.
        let within : idx < length bs = omega (arith, counted_boards) in
        let (named, (columns, is)) = row_at-board bs idx up within in
        name_at-row plst idx (name_in bs idx) columns valid named h (rw stored is);
    sorted = λ i j h k. name_in-sorted bs i j up h (omega (arith, counted_boards));
  }

  -- For boards in the order of their names, no two with the same, the binary search ends without a fault
  -- and comes to the row that a search from the front finds.
  pub find_row-lookup : (name : List ℕ) → find_row plst name ≡ some (lookup name bs)
  find_row-lookup name = elim (find_row-FoundRow plst (name_in bs) name valid big boards-IsNamed) [
    | there idx r e is same ↦
        e ∙ ap some (sym (lookup-there bs name idx r up (rw (sym stored) is) same))
    | nowhere e never ↦
        e
        ∙ ap some
            (sym (lookup-nowhere bs name (λ idx h. never idx (omega (arith, counted_boards)))))
  ]
