-- ===== src/Tools/Command/Printed.antt =====
-- The lines of utils/gencctcmd.c as lines of a file.
use libedio.Base.{
  ℕ, ◌^◌, ◌<◌, ◌≤◌, ◌≡◌, ◌∙◌, ◌⊎◌, inl, inr, refl, sym, ap, arith, List, [], ◌∷◌, ◌++◌,
}
use mathlib.Core.List.{append_assoc}
use mathlib.Core.Path.{subst}
use libedio.Text.{length, literal}
use libedio.Text.Laws.{Without, Without-append, length-append}
use libedio.Text.Print.{hex_digits, hex_width, decimal}
use libedio.Text.Printed.{
  hex_digits-append, length-hex_digits, Without-hex_digits, hex_width-le, decimal-append,
  length-decimal, Without-decimal,
}
use libedio.Tools.Command.{Line, dconfig_w, dout_w, dout_r, blank, sleep, connect_to}
use libedio.Tools.Command.Text.{line_body}

-- The numbers of a line have 24 bits, a pause has one digit, and a row is the text of a line, of fewer
-- than 200 characters.
abbrev pub IsPrinted : Line → Type 0
IsPrinted (dconfig_w mask value) = (mask < 2 ^ 24) × (value < 2 ^ 24)
IsPrinted (dout_w mask value) = (mask < 2 ^ 24) × (value < 2 ^ 24)
IsPrinted (sleep n) = n < 10
IsPrinted (connect_to s i) = (length s < 200) × Without b'\n' s × Without 0 s
IsPrinted l = Unit {0}

-- A line is its own text, and then what follows.
pub line_body-append : (l : Line) (ys : List ℕ) → line_body l ys ≡ line_body l [] ++ ys
line_body-append (dconfig_w mask value) ys =
    rw
      (
        hex_digits-append (hex_width value) value [] ys,
        hex_digits-append (hex_width mask) mask
            (b' ' ∷ b'0' ∷ b'x' ∷ hex_digits (hex_width value) value []) ys,
      )
      refl
line_body-append (dout_w mask value) ys =
    rw
      (
        hex_digits-append (hex_width value) value [] ys,
        hex_digits-append (hex_width mask) mask
            (b' ' ∷ b'0' ∷ b'x' ∷ hex_digits (hex_width value) value []) ys,
      )
      refl
line_body-append dout_r ys = refl
line_body-append blank ys = refl
line_body-append (sleep n) ys = refl
line_body-append (connect_to s i) ys =
    ap (λ (x : List ℕ). literal "# ConnectTo " ++ (s ++ b' ' ∷ b'#' ∷ b' ' ∷ x))
      (decimal-append i [] ys)
    ∙ ap (λ (x : List ℕ). literal "# ConnectTo " ++ x)
        (sym (append_assoc s (b' ' ∷ b'#' ∷ b' ' ∷ decimal i []) ys))

-- the two numbers of a line
abbrev numbers : ℕ → ℕ → List ℕ
numbers mask value =
    hex_digits (hex_width mask) mask (b' ' ∷ b'0' ∷ b'x' ∷ hex_digits (hex_width value) value [])

length-numbers : (mask value : ℕ) → length (numbers mask value) ≤ 19
length-numbers mask value = omega (
  arith,
  length-hex_digits (hex_width mask) mask
      (b' ' ∷ b'0' ∷ b'x' ∷ hex_digits (hex_width value) value []),
  length-hex_digits (hex_width value) value [],
  hex_width-le mask,
  hex_width-le value,
)

numbers-Without : (c mask value : ℕ) → c < 32 → Without c (numbers mask value)
numbers-Without c mask value h = Without-hex_digits c (hex_width mask) mask _ h (
  omega arith,
  (omega arith, (omega arith, Without-hex_digits c (hex_width value) value [] h tt)),
)

-- A line is short.
pub length-line_body : (l : Line) → IsPrinted l → length (line_body l []) < 300
length-line_body (dconfig_w mask value) p = omega (arith, length-numbers mask value)
length-line_body (dout_w mask value) p = omega (arith, length-numbers mask value)
length-line_body dout_r p = omega arith
length-line_body blank p = omega arith
length-line_body (sleep n) p = omega arith
length-line_body (connect_to s i) p =
    omega (arith, length-append s (b' ' ∷ b'#' ∷ b' ' ∷ decimal i []), length-decimal i [], p.0)

-- what ends a line in the file, or in memory
abbrev IsEnd : ℕ → Type 0
IsEnd c = (c ≡ b'\n') ⊎ (c ≡ 0)

-- Its text has no newline and no zero byte.
pub line_body-Without : (c : ℕ) (l : Line) → IsEnd c → IsPrinted l → Without c (line_body l [])
line_body-Without c (dconfig_w mask value) h p =
    Without-append c (literal "DConfigW 0x") (numbers mask value) (omega arith)
      (numbers-Without c mask value (omega arith))
line_body-Without c (dout_w mask value) h p =
    Without-append c (literal "DOutW 0x") (numbers mask value) (omega arith)
      (numbers-Without c mask value (omega arith))
line_body-Without c dout_r h p = omega arith
line_body-Without c blank h p = tt
line_body-Without c (sleep n) h p = omega arith
line_body-Without c (connect_to s i) h p =
    let small : c < 32 = omega arith in
    let row : Without c s = elim h [
      | inl e ↦ subst (λ (x : ℕ). Without x s) (sym e) p.1
      | inr e ↦ subst (λ (x : ℕ). Without x s) (sym e) p.2
    ] in
    Without-append c (literal "# ConnectTo ") (s ++ b' ' ∷ b'#' ∷ b' ' ∷ decimal i []) (omega arith)
      (Without-append c s (b' ' ∷ b'#' ∷ b' ' ∷ decimal i []) row
        (omega arith, (omega arith, (omega arith, Without-decimal c i [] small tt))))
