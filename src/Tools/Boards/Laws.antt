-- ===== src/Tools/Boards/Laws.antt =====
-- What a list of rows holds.
use libedio.Base.{
  ℕ, zero, suc, ◌+◌, ◌≤◌, ◌<◌, ◌≡◌, ◌∙◌, ◌⊎◌, inl, inr, refl, ap, sym, arith, Option, none, some,
  List, [], ◌∷◌, ◌++◌,
}
use libedio.Base.{
  true, false, ltb, ◌==◌, lt→ltb, ltb→lt, ltb→le, Bool-cases, if◌then◌else◌, ℤ, pos, negsuc, ◌>>=◌,
}
use mathlib.Core.Path.{subst}
use libedio.Text.{length}
use libedio.Text.Laws.{length-append}
use libedio.Tools.Boards.{
  BoardList, brdlst_init, brdlst_clean, brdlst_get, row_at, stored_row, Memory, rows_of, new_size,
  Grown, no_memory, with_room, grow, put_row, or_before, brdlst_append,
}

-- The rows that are stored are counted, and fit.
pub record IsBoardList (plst : BoardList) : Type 0 where
  pub counted : length (rows_of plst.list) ≡ plst.sz_cur
  pub fits : plst.sz_cur ≤ plst.sz_max

pub brdlst_init-IsBoardList : IsBoardList brdlst_init
brdlst_init-IsBoardList = record { counted = refl; fits = omega arith }

-- the rows of a list
abbrev pub rows : BoardList → List (List ℕ)
rows plst = rows_of plst.list

pub row_at-length :
    (xs : List (List ℕ)) (i : ℕ) → i < length xs → (s : List ℕ) × (row_at xs i ≡ some s)
row_at-length [] i h = absurd (omega arith)
row_at-length (x ∷ xs) zero h = (x, refl)
row_at-length (x ∷ xs) (suc i) h = row_at-length xs i (omega arith)

row_at-beyond : (xs : List (List ℕ)) (i : ℕ) → length xs ≤ i → row_at xs i ≡ none
row_at-beyond [] i h = refl
row_at-beyond (x ∷ xs) zero h = absurd (omega arith)
row_at-beyond (x ∷ xs) (suc i) h = row_at-beyond xs i (omega arith)

stored_row_lem :
    (list : Option (List (List ℕ))) (i : ℕ)
    → i < length (rows_of list)
    → stored_row list i ≡ some (row_at (rows_of list) i)
stored_row_lem none i h = absurd (omega arith)
stored_row_lem (some xs) i h = let (s, e) = row_at-length xs i h in rw e refl

-- A row is read back by its index, and there is none behind the last; the read never leaves the list.
pub brdlst_get-rows :
    (plst : BoardList) (id : ℕ)
    → IsBoardList plst
    → brdlst_get plst (pos id) ≡ some (row_at (rows plst) id)
unfolding brdlst_get
brdlst_get-rows plst id v = elim (Bool-cases (ltb id plst.sz_cur)) [
  | inl there ↦ rw there (stored_row_lem plst.list id (omega (arith, v.counted, ltb→lt _ _ there)))
  | inr beyond ↦
      rw (beyond, row_at-beyond (rows plst) id (omega (arith, v.counted, ltb→le _ _ beyond))) refl
]

-- What an append comes to: the list with one row more, or the same rows where memory was short.
pub data Appended (m : Memory) (plst : BoardList) (s : List ℕ) (r : Option (ℤ × BoardList))
    : Type 0 where
  appended :
      (plst' : BoardList)
      → r ≡ some (pos 0, plst')
      → rows plst' ≡ rows plst ++ s ∷ []
      → IsBoardList plst'
      → Appended m plst s r
  refused :
      (plst' : BoardList)
      → r ≡ some (negsuc 0, plst')
      → rows plst' ≡ rows plst
      → IsBoardList plst'
      → ((m.reallocated ≡ false) ⊎ (m.duplicated ≡ false))
      → Appended m plst s r

grow_none :
    (m : Memory) (plst : BoardList)
    → ltb plst.sz_cur plst.sz_max ≡ true
    → grow m plst ≡ some (with_room plst)
unfolding grow
grow_none m plst room = rw room refl

-- the list with more room
abbrev grown_list : BoardList → BoardList
grown_list plst = record plst { sz_max = new_size plst.sz_max; list = some (rows plst) }

new_size-lt : (n : ℕ) → n < new_size n
new_size-lt n = ground arith

grow_full :
    (m : Memory) (plst : BoardList)
    → plst.sz_cur ≡ plst.sz_max
    → grow m plst ≡ some (if m.reallocated then with_room (grown_list plst) else no_memory)
unfolding grow
grow_full m plst e =
    let full : ltb plst.sz_cur plst.sz_max ≡ false = ground arith in
    let same_size : (plst.sz_cur == plst.sz_max) ≡ true = ground arith in
    rw (full, same_size, lt→ltb plst.sz_max (new_size plst.sz_max) (new_size-lt plst.sz_max))
      (elim (Bool-cases m.reallocated) [ inl y ↦ rw y refl | inr n ↦ rw n refl ])

-- the list with the row
abbrev longer : BoardList → List ℕ → BoardList
longer plst s = record plst { sz_cur = plst.sz_cur + 1; list = some (rows plst ++ s ∷ []) }

put_row_lem :
    (m : Memory) (plst plst' : BoardList) (s : List ℕ)
    → or_before plst (put_row m s (with_room plst'))
      ≡ (if m.duplicated then (pos 0, longer plst' s) else (negsuc 0, plst'))
put_row_lem m plst plst' s = elim (Bool-cases m.duplicated) [
  | inl y ↦ rw y refl
  | inr n ↦ rw n refl
]

stores :
    (m : Memory) (plst plst' : BoardList) (s : List ℕ)
    → rows plst' ≡ rows plst
    → IsBoardList plst'
    → plst'.sz_cur < plst'.sz_max
    → Appended m plst s (some (or_before plst (put_row m s (with_room plst'))))
stores m plst plst' s e v room = elim (Bool-cases m.duplicated) [
  | inl there ↦
      let e' : or_before plst (put_row m s (with_room plst')) ≡ (pos 0, longer plst' s) =
        put_row_lem m plst plst' s ∙ rw there refl in
      appended (longer plst' s) (ap some e') (ap (λ (xs : List (List ℕ)). xs ++ s ∷ []) e) (record {
        counted = omega (arith, length-append (rows plst') (s ∷ []), v.counted);
        fits = omega arith;
      })
  | inr short ↦
      let e' : or_before plst (put_row m s (with_room plst')) ≡ (negsuc 0, plst') =
        put_row_lem m plst plst' s ∙ rw short refl in
      refused plst' (ap some e') e v (inr short)
]

-- An append to a list whose rows are counted and fit never faults: it returns 0 with the row behind the
-- others, or -1 with the same rows, and only where memory is short. The rows of the list after it
-- are counted and fit.
pub brdlst_append-Appended :
    (m : Memory) (plst : BoardList) (s : List ℕ)
    → IsBoardList plst
    → Appended m plst s (brdlst_append m plst (some s))
unfolding brdlst_append
brdlst_append-Appended m plst s v =
    let after : Option Grown → Option (ℤ × BoardList) =
      λ g. g >>= λ grown. some (or_before plst (put_row m s grown)) in
    elim (Bool-cases (ltb plst.sz_cur plst.sz_max)) [
      | inl room ↦
          subst (λ g. Appended m plst s (after g)) (sym (grow_none m plst room))
            (stores m plst plst s refl v (ltb→lt _ _ room))
      | inr full ↦
          let e : plst.sz_cur ≡ plst.sz_max = omega (arith, ltb→le _ _ full, v.fits) in
          subst (λ g. Appended m plst s (after g)) (sym (grow_full m plst e))
            (elim (Bool-cases m.reallocated) [
              | inl there ↦
                  subst
                    (λ b.
                      Appended m plst s
                        (after (some (if b then with_room (grown_list plst) else no_memory))))
                    (sym there)
                    (stores m plst (grown_list plst) s refl
                      (record {
                        counted = v.counted;
                        fits = omega (arith, new_size-lt plst.sz_max);
                      })
                      (omega (arith, new_size-lt plst.sz_max)))
              | inr short ↦
                  subst
                    (λ b.
                      Appended m plst s
                        (after (some (if b then with_room (grown_list plst) else no_memory))))
                    (sym short) (refused plst refl refl v (inl short))
            ])
    ]

-- Where memory for the first row is short after its list was enlarged, the list cannot be cleaned: the
-- assertion of brdlst_clean that there are rows fails.
pub brdlst_clean-failed :
    (m : Memory) (s : List ℕ)
    → m.reallocated ≡ true
    → m.duplicated ≡ false
    → (brdlst_append m brdlst_init (some s) >>= λ r. brdlst_clean r.1) ≡ none
unfolding brdlst_append brdlst_clean grow
brdlst_clean-failed m s h k = rw (h, k) refl
