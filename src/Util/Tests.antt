-- ===== src/Util/Tests.antt =====
-- The helpers of utils/utils.c at concrete inputs.
use libedio.Base.{ℕ, ◌+◌, ◌≡◌, refl, arith, some, none, pos, List, [], ◌∷◌, inl, inr}
use libedio.Samples.{blank, blank-IsBytes}
use libedio.Text.{length}
use libedio.Util.Hex.{parse_hex_buf}
use libedio.Util.Hex.Laws.{filled, parse_hex_buf-IsHexText}
use libedio.Util.Hex.Bounds.{Outcome, parse_hex_buf-Outcome}
use libedio.Util.Lines.{fread_lines}
use libedio.Util.Lines.Laws.{note, Covers, fread_lines-Covers}
use libedio.Util.Strip.{cstr_strip}
use libedio.Util.Strip.Laws.{Holds, cstr_strip-text, cstr_strip-overrun}

-- "e9aF": digits in either case
abbrev mixed : List ℕ
mixed = b'e' ∷ b'9' ∷ b'a' ∷ b'F' ∷ []

parse_hex_buf-IsHexText_example :
    parse_hex_buf (some (b'0' ∷ b'x' ∷ mixed)) (2 + length mixed) blank 32
    ≡ some (pos 2, record blank { byte = filled blank.byte 0 (0xE9 ∷ 0xAF ∷ []) })
parse_hex_buf-IsHexText_example =
    parse_hex_buf-IsHexText mixed 0xE9 (0xAF ∷ []) blank 32
      (inr refl, inl refl, (inr refl, inl refl, tt)) (omega arith) (omega arith) (omega arith)

-- "0x1g"
abbrev bad_digit : List ℕ
bad_digit = b'0' ∷ b'x' ∷ b'1' ∷ b'g' ∷ []

parse_hex_buf-Outcome_example :
    Outcome bad_digit 32 blank (parse_hex_buf (some bad_digit) (length bad_digit) blank 32)
parse_hex_buf-Outcome_example = parse_hex_buf-Outcome bad_digit blank 32 blank-IsBytes (omega arith)

-- "ab\nc"
abbrev two_lines : List ℕ
two_lines = b'a' ∷ b'b' ∷ b'\n' ∷ b'c' ∷ []

fread_lines-Covers_example :
    (visits : List (ℕ × List ℕ)) × (fread_lines note (some []) [] 0 two_lines
      ≡ some (pos 0, visits))
    × Covers two_lines 0 visits
fread_lines-Covers_example = fread_lines-Covers [] two_lines 0 (omega arith)

-- " ab\n"
abbrev padded : List ℕ
padded = b' ' ∷ b'a' ∷ b'b' ∷ b'\n' ∷ []

cstr_strip-text_example :
    (m : ℕ → ℕ) × (cstr_strip (some padded) (some blank) 32
      ≡ some (pos 0, some (record blank { byte = m })))
    × Holds m 0 (b'a' ∷ b'b' ∷ [])
cstr_strip-text_example =
    cstr_strip-text (b' ' ∷ []) b'a' (b'b' ∷ []) (b'\n' ∷ []) (refl, tt) (refl, tt) refl (inr refl)
      blank 32 (omega arith) (omega arith)

cstr_strip-overrun_example :
    cstr_strip (some padded) (some (record { cap = 2; byte = λ _. 0 })) 2 ≡ none
cstr_strip-overrun_example =
    cstr_strip-overrun (b' ' ∷ []) b'a' (b'b' ∷ []) (b'\n' ∷ []) (refl, tt) (refl, tt) refl
      (inr refl) (record { cap = 2; byte = λ _. 0 }) 2 refl refl
