-- ===== src/Tools/Command/Bounds.antt =====
-- How large the values are that the parser of utils/gencctcmd.c leaves.
use libedio.Base.{
  ℕ, zero, suc, ◌^◌, ◌<◌, ◌≡◌, Option, none, some, List, [], ◌∷◌, ltb, ◌==◌, ◌>>=◌, inl, inr,
  Bool-cases, ltb→lt, ℤ, ◌&&◌, not, false,
}
use mathlib.Core.Option.{some-injective}
use mathlib.Core.Path.{subst}
use libedio.Text.{starts_with}
use libedio.Tools.Command.{
  Parser, Parsed, failed, ended, Round, skip, error, count_digits, atoi, take_value, step, parse,
  parsed, parse_values_atten,
}

abbrev IsSmall : Parser → Type 0
IsSmall p = p.val < 2 ^ 31

-- The parser has a value of 31 bits, if there is one.
abbrev Takes : Option Parser → Type 0
Takes none = Unit {0}
Takes (some p) = IsSmall p

abbrev Leaves : Option Round → Type 0
Leaves none = Unit {0}
Leaves (some (skip n p)) = IsSmall p
Leaves (some (error p)) = IsSmall p

abbrev Comes : Option Parsed → Type 0
Comes none = Unit {0}
Comes (some (failed p)) = IsSmall p
Comes (some (ended p)) = IsSmall p

take_value-Takes : (hval : ℕ) (p : Parser) → IsSmall p → Takes (take_value hval p)
take_value-Takes hval p h = elim (Bool-cases (ltb hval (2 ^ 31))) [
  | inr large ↦ rw large tt
  | inl small ↦ rw small (elim (Bool-cases (p.type == 1)) [
    | inl pins ↦
        rw pins (elim (Bool-cases (ltb hval 31)) [ inl fits ↦ rw fits h | inr over ↦ rw over tt ])
    | inr other ↦ rw other (elim (Bool-cases (p.type == 2)) [
      | inl value ↦ rw value (ltb→lt hval (2 ^ 31) small)
      | inr none_of ↦ rw none_of h
    ])
  ])
]

taken-Leaves : (n : ℕ) (r : Option Parser) → Takes r → Leaves (r >>= λ p'. some (skip n p'))
taken-Leaves n none h = tt
taken-Leaves n (some p) h = h

step-Leaves : (s : List ℕ) (p : Parser) → IsSmall p → Leaves (step s p)
unfolding step
step-Leaves s p h = elim (Bool-cases (starts_with (b'p' ∷ b'=' ∷ []) s)) [
  | inl e ↦ rw e h
  | inr e ↦ rw e (elim (Bool-cases (starts_with (b'v' ∷ b'=' ∷ []) s)) [
    | inl e ↦ rw e h
    | inr e ↦ rw e (elim (Bool-cases (starts_with (b'a' ∷ b'l' ∷ b'l' ∷ []) s)) [
      | inl e ↦ rw e (elim (Bool-cases (p.type == 1)) [ inl q ↦ rw q h | inr q ↦ rw q h ])
      | inr e ↦ rw e (elim (Bool-cases (starts_with (b',' ∷ []) s)) [
        | inl e ↦ rw e h
        | inr e ↦ rw e (elim (Bool-cases (starts_with (b';' ∷ []) s)) [
          | inl e ↦ rw e h
          | inr e ↦ rw e (elim (Bool-cases (ltb 0 (count_digits s))) [
            | inl e ↦ rw e (
                taken-Leaves (count_digits s) (take_value (atoi 0 s) p)
                  (take_value-Takes (atoi 0 s) p h))
            | inr e ↦ rw e h
          ])
        ])
      ])
    ])
  ])
]

parse-Comes : (n : ℕ) (s : List ℕ) (p : Parser) → IsSmall p → Comes (parse n s p)
unfolding parse
parse-Comes n [] p h = h
parse-Comes (suc n) (c ∷ cs) p h = parse-Comes n cs p h
parse-Comes zero (c ∷ cs) p h =
    go (λ n p' k. parse-Comes n cs p' k) (step (c ∷ cs) p) (step-Leaves (c ∷ cs) p h)
  where
    go :
        ((n : ℕ) (p' : Parser) → IsSmall p' → Comes (parse n cs p'))
        → (r : Option Round) → Leaves r
        → Comes (elim r [
          | none ↦ none
          | some (error p') ↦ some (failed p')
          | some (skip n p') ↦ parse n cs p'
        ])
    go rest none k = tt
    go rest (some (error p')) k = k
    go rest (some (skip n p')) k = rest n p' k

parsed-small : (r : Parsed) → Comes (some r) → (parsed r).2 < 2 ^ 31
parsed-small (failed p) h = h
parsed-small (ended p) h = elim (Bool-cases (p.type == 2 && not p.got)) [
  | inl missing ↦ rw missing h
  | inr there ↦ rw there h
]

-- The value that the parser leaves has 31 bits, where it begins with one of 31 bits.
pub parse_values_atten-small :
    (arg : List ℕ) (val : ℕ) (r : ℤ × ℕ × ℕ)
    → val < 2 ^ 31
    → parse_values_atten arg val ≡ some r
    → r.2 < 2 ^ 31
unfolding parse_values_atten
parse_values_atten-small [] val r h e =
    subst (λ (x : ℤ × ℕ × ℕ). x.2 < 2 ^ 31) (some-injective _ _ e) h
parse_values_atten-small (c ∷ cs) val r h e =
    go (parse 0 (c ∷ cs) (record { hval = 0; type = 0; got = false; mask_pin = 0; val = val }))
      (parse-Comes 0 (c ∷ cs) (record { hval = 0; type = 0; got = false; mask_pin = 0; val = val })
        h)
      e
  where
    go : (x : Option Parsed) → Comes x → (x >>= λ p. some (parsed p)) ≡ some r → r.2 < 2 ^ 31
    go none k e' = absurd (cc)
    go (some p) k e' =
        subst (λ (x : ℤ × ℕ × ℕ). x.2 < 2 ^ 31) (some-injective _ _ e') (parsed-small p k)
