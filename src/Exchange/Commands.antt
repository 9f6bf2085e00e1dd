-- ===== src/Exchange/Commands.antt =====
-- The lines that utils/gencctcmd.c writes, as utils/edio24cli.c reads them.
pub mod Follows
mod Tests
use libedio.Base.{
  ℕ, zero, suc, ◌+◌, ◌%◌, ◌^◌, ◌<◌, ◌≤◌, ◌≡◌, refl, arith, Option, some, ◌∙◌, ◌>>=◌, List, [], ◌∷◌,
  ◌++◌,
}
use libedio.Base.{true, lt→ltb}
use libedio.Packet.Request.{Request, doutr, dconfw, doutw}
use libedio.Text.{literal, drop}
use libedio.Text.Strtol.{strtol}
use libedio.Text.Print.{hex_digits, hex_width}
use libedio.Text.Laws.{strtol-hex_digits}
use libedio.Cli.Command.Numbers.{two_numbers-hex_digits, pause_of-digit}
use libedio.Tools.Command.{Line, dconfig_w, dout_w, dout_r, blank, sleep, connect_to}
use libedio.Tools.Command.Printed.{IsPrinted}
use libedio.Tools.Command.Text.{line_body, print_hex}
use libedio.Cli.Command.{
  Order, creates, sleeps, unknown, order, first_match, branches, two_numbers, pins,
}

-- What a line means.
abbrev pub meaning : Line → Order
meaning (dconfig_w mask value) = creates (dconfw mask value)
meaning (dout_w mask value) = creates (doutw mask value)
meaning dout_r = creates doutr
meaning blank = unknown
meaning (connect_to s i) = unknown
meaning (sleep n) = sleeps n

pins-small :
    (request : ℕ → ℕ → Request) (mask value : ℕ)
    → mask < 2 ^ 24
    → value < 2 ^ 24
    → ◌≡◌ {A = Option Order}
        (some (creates (pins request mask value)))
        (some (creates (request mask value)))
pins-small request mask value h k =
    let e : mask % 2 ^ 32 ≡ mask = omega arith in
    let e' : value % 2 ^ 32 ≡ value = omega arith in rw (e, e') refl

-- The client reads a line of the generator as what it means, whatever stands behind it in memory.
pub order-line_body :
    (l : Line) (stale : List ℕ) (buffer2 : ℕ → ℕ)
    → IsPrinted l
    → order (line_body l (b'\n' ∷ 0 ∷ stale)) buffer2 ≡ some (meaning l)
unfolding order
order-line_body (dconfig_w mask value) stale buffer2 (h, k) =
    rw (lt→ltb mask (2 ^ 24) h, lt→ltb value (2 ^ 24) k)
      (two_numbers-hex_digits mask value (0 ∷ stale) (pins dconfw) h k
        ∙ pins-small dconfw mask value h k)
order-line_body (dout_w mask value) stale buffer2 (h, k) =
    rw (lt→ltb mask (2 ^ 24) h, lt→ltb value (2 ^ 24) k)
      (two_numbers-hex_digits mask value (0 ∷ stale) (pins doutw) h k
        ∙ pins-small doutw mask value h k)
order-line_body dout_r stale buffer2 h = refl
order-line_body blank stale buffer2 h = refl
order-line_body (connect_to s i) stale buffer2 h = refl
order-line_body (sleep n) stale buffer2 h = pause_of-digit n (0 ∷ stale) h
