-- ===== src/Text.antt =====
-- C strings in memory: a list holds the bytes from a pointer on, up to the end of the buffer, and the
-- string ends at its first zero byte. What the sources use of the C library on them: strlen, strcmp, strncmp
-- with a literal, strtol and printf of hexadecimal numbers.
pub mod Strtol
pub mod Print
pub mod Laws
pub mod Printed
use libedio.Base.{
  ℕ, zero, suc, ◌+◌, ◌-◌, Option, none, some, List, [], ◌∷◌, ◌++◌, Bool, true, false,
}
use libedio.Base.{◌&&◌, ◌||◌, not, ltb, ◌==◌, if◌then◌else◌, ◌>>=◌, ℤ, pos, negsuc}
use Prim.Native.Char.{code}
use Prim.Native.String.{String}

module _ {ℓ} {A : Type ℓ} where
  abbrev pub length : List A → ℕ
  length [] = 0
  length (x ∷ xs) = suc (length xs)

  -- the memory from `n` places further on
  abbrev pub drop : ℕ → List A → List A
  drop zero xs = xs
  drop (suc n) [] = []
  drop (suc n) (x ∷ xs) = drop n xs

-- strncmp (s, prefix, strlen (prefix)) == 0
abbrev pub starts_with : List ℕ → List ℕ → Bool
starts_with [] s = true
starts_with (c ∷ cs) [] = false
starts_with (c ∷ cs) (d ∷ ds) = c == d && starts_with cs ds

-- the bytes of a literal
abbrev pub literal : String → List ℕ
literal String.[] = []
literal (String.◌∷◌ c s) = code c ∷ literal s

-- The bytes before the terminator; `none` where memory ends before one.
pub c_string : List ℕ → Option (List ℕ)
c_string [] = none
c_string (zero ∷ mem) = some []
c_string (suc n ∷ mem) = c_string mem >>= λ s. some (suc n ∷ s)

-- isspace, of the "C" locale
abbrev pub is_space : ℕ → Bool
is_space c = c == 32 || (not (ltb c 9) && ltb c 14)

-- isblank
abbrev pub is_blank : ℕ → Bool
is_blank c = c == 32 || c == 9

abbrev pub is_digit : ℕ → Bool
is_digit c = not (ltb c b'0') && ltb c (b'9' + 1)

-- strcmp, of which only the sign is used
abbrev pub strcmp : List ℕ → List ℕ → ℤ
strcmp [] [] = pos 0
strcmp [] (d ∷ ds) = negsuc 0
strcmp (c ∷ cs) [] = pos 1
strcmp (c ∷ cs) (d ∷ ds) =
    let rest = strcmp cs ds in if c == d then rest else if ltb c d then negsuc 0 else pos 1
