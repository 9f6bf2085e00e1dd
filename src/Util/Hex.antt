-- ===== src/Util/Hex.antt =====
-- parse_hex_buf of utils/utils.c: the bytes of a long hexadecimal number, written to a buffer.
pub mod Laws
pub mod Bounds
use libedio.Base.{
  ℕ, zero, suc, ◌+◌, ◌-◌, ◌*◌, ◌%◌, Option, none, some, List, [], ◌∷◌, Bool, true, false,
}
use libedio.Base.{
  ◌&&◌, ◌||◌, not, ltb, ◌==◌, if◌then◌else◌, ◌>>=◌, Buffer, load, store, ℤ, pos, negsuc,
}
use libedio.Text.{length, starts_with}

-- ER
abbrev pub er : ℕ
er = 0xFF

-- valmap, a table for the characters below 128
abbrev pub valmap : ℕ → ℕ
valmap c =
    if not (ltb c b'0') && ltb c (b'9' + 1)
    then c - b'0'
    else if not (ltb c b'A') && ltb c (b'F' + 1)
    then c - b'A' + 10
    else if not (ltb c b'a') && ltb c (b'f' + 1)
    then c - b'a' + 10
    else er

-- the digit `val`, where `len` counts it already: the lower half of buf[ret], or the upper one
unfoldable pub put_digit : Buffer → ℕ → ℕ → ℕ → Option Buffer
put_digit buf ret val len =
    if len % 2 == 0
    then (load buf ret >>= λ v. store buf ret (v + val))
    else store buf ret (val * 16)

-- The loop from the character at `p` on. `*p` is a `char`, so a byte from 128 up fails the assertion.
unfoldable pub hex_loop : List ℕ → ℕ → Buffer → ℕ → ℕ → Option (ℤ × Buffer)
unfolding put_digit
hex_loop [] len buf szbuf ret = some (pos ret, buf)
hex_loop (c ∷ cs) len buf szbuf ret =
    if not (ltb ret szbuf)
    then some (pos ret, buf)
    else if not (ltb c 128)
    then none
    else if valmap c == er
    then some (pos ret, buf)
    else do
      buf' ← put_digit buf ret (valmap c) (len + 1)
      hex_loop cs (len + 1) buf' szbuf (if (len + 1) % 2 == 0 then ret + 1 else ret)

-- what stands behind "0x"
abbrev pub behind_prefix : List ℕ → List ℕ
behind_prefix (c ∷ d ∷ cs) = cs
behind_prefix cs = []

-- parse_hex_buf: `cstr` is a C string without its zero byte
unfoldable pub parse_hex_buf : Option (List ℕ) → ℕ → Buffer → ℕ → Option (ℤ × Buffer)
parse_hex_buf none cslen buf szbuf = some (negsuc 0, buf)
parse_hex_buf (some cstr) cslen buf szbuf =
    if cslen == 0
    then some (pos 0, buf)
    else if ltb cslen 3
    then some (negsuc 0, buf)
    else if not (length cstr == cslen)
    then none
    else if not (starts_with (b'0' ∷ b'x' ∷ []) cstr)
    then some (negsuc 0, buf)
    else hex_loop (behind_prefix cstr) 0 buf szbuf 0
