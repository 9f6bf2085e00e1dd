-- ===== src/Cli/Command/Numbers.antt =====
-- The numbers of a command line, printed in the generator's way.
use libedio.Base.{ℕ, ◌+◌, ◌^◌, ◌<◌, ◌≡◌, refl, arith, some, List, ◌∷◌}
use libedio.Base.{◌>>=◌}
use libedio.Packet.Request.{Request}
use libedio.Text.{drop}
use libedio.Text.Print.{hex_digits}
use libedio.Text.Strtol.{strtol}
use libedio.Text.Laws.{strtol-hex_digits}
use libedio.Cli.Command.{creates, sleeps, pause_of}

-- Two printed numbers of 24 bits are read back, one behind the other.
pub two_numbers-hex_digits :
    (mask value : ℕ) (rest : List ℕ) (request : ℕ → ℕ → Request)
    → mask < 2 ^ 24
    → value < 2 ^ 24
    → (strtol 16
          (b'0' ∷ b'x' ∷ hex_digits 6 mask (b' ' ∷ b'0' ∷ b'x' ∷ hex_digits 6 value (b'\n' ∷ rest)))
        >>= λ a. strtol 16 (drop 1 a.1) >>= λ b. some (creates (request a.0 b.0)))
      ≡ some (creates (request mask value))
two_numbers-hex_digits mask value rest request h k =
    rw
      (
        strtol-hex_digits mask b' ' (b'0' ∷ b'x' ∷ hex_digits 6 value (b'\n' ∷ rest)) h refl,
        strtol-hex_digits value b'\n' rest k refl,
      )
      refl

-- A pause of one digit is read back.
pub pause_of-digit :
    (n : ℕ) (rest : List ℕ)
    → n < 10
    → pause_of (b'S' ∷ b'l' ∷ b'e' ∷ b'e' ∷ b'p' ∷ b' ' ∷ (b'0' + n) ∷ b'\n' ∷ rest)
      ≡ some (sleeps n)
unfolding pause_of strtol
pause_of-digit n rest h = ground arith
