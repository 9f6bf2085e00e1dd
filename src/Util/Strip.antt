-- ===== src/Util/Strip.antt =====
-- cstr_strip of utils/utils.c: a string without the blanks and line ends at its two ends.
pub mod Laws
use libedio.Base.{
  ℕ, zero, suc, ◌+◌, ◌-◌, Option, none, some, List, [], ◌∷◌, ◌++◌, Bool, true, false,
}
use libedio.Base.{
  ◌&&◌, ◌||◌, not, ltb, ◌==◌, if◌then◌else◌, ◌>>=◌, ℤ, pos, negsuc, Buffer, store, memmove,
}
use libedio.Packet.Read.{offset}
use libedio.Text.{length, drop, is_blank}

-- isblank (c), or a line end
abbrev pub is_stripped : ℕ → Bool
is_stripped c = is_blank c || (c == b'\n' || c == b'\r')

abbrev pub byte_of : List ℕ → ℕ → ℕ
byte_of [] i = 0
byte_of (x ∷ xs) zero = x
byte_of (x ∷ xs) (suc i) = byte_of xs i

-- the first loop: how far `pstart` goes, `pend` at most
unfoldable pub skip_start : List ℕ → ℕ
skip_start [] = 0
skip_start (c ∷ cs) = let more = suc (skip_start cs) in if is_stripped c then more else 0

-- the second loop: `left` is how far `pend` stands behind `pstart`; what is left then
unfoldable pub skip_end : List ℕ → ℕ → ℕ → ℕ
skip_end orig start zero = zero
skip_end orig start (suc left) =
    let more = skip_end orig start left in
    if is_stripped (byte_of orig (start + suc left)) then more else suc left

-- where the characters that stay are: how many stand before them, and how many they are
unfoldable pub kept : List ℕ → ℕ × ℕ
unfolding skip_start skip_end
kept orig =
    let start = skip_start orig in
    if ltb start (length orig)
    then (start, skip_end orig start (length orig - 1 - start) + 1)
    else (start, 0)

-- the memory that `orig` points to, its zero byte last
abbrev pub string_memory : List ℕ → Buffer
string_memory orig = record { cap = length orig + 1; byte = byte_of orig }

-- the end of the function: where nothing stays, where it does not fit, and the copy
unfoldable pub copy_kept : List ℕ → ℕ → ℕ → Buffer → ℕ → Option (ℤ × Buffer)
copy_kept orig start zero buf sz_buf = do b ← store buf 0 0; some (pos 0, b)
copy_kept orig start (suc n) buf sz_buf = if ltb sz_buf (suc n) then some (negsuc 1, buf) else do
  b₁ ← memmove buf 0 (offset (string_memory orig) start) (suc n)
  b₂ ← store b₁ (suc n) 0
  some (pos 0, b₂)

-- cstr_strip
unfoldable pub cstr_strip : Option (List ℕ) → Option Buffer → ℕ → Option (ℤ × Option Buffer)
unfolding copy_kept kept
cstr_strip none buf sz_buf = some (negsuc 0, buf)
cstr_strip (some orig) none sz_buf = some (negsuc 0, none)
cstr_strip (some orig) (some buf) sz_buf = if ltb sz_buf 1 then some (negsuc 0, some buf) else do
  (start, n) ← some (kept orig)
  (ret, b) ← copy_kept orig start n buf sz_buf
  some (ret, some b)
