-- ===== src/Inbox.antt =====
-- What utils/edio24sim.c and utils/edio24cli.c both do with a buffer of received bytes: they take a
-- packet off its head, and push new bytes behind the last.
use libedio.Base.{
  ℕ, zero, suc, ◌+◌, ◌≤◌, ◌≡◌, ap, arith, Option, some, Buffer, memmove, memmove_lem, copied,
  IsBytes, copied-IsBytes,
}
use mathlib.Core.Path.{fun_ext}
use libedio.Packet.Read.{offset}

-- if (sz_rest > 0) memmove (buffer, &buffer[sz_processed], sz_rest)
unfoldable pub shift : Buffer → ℕ → ℕ → Option Buffer
shift b sz_processed zero = some b
shift b sz_processed (suc n) = memmove b 0 (offset b sz_processed) (suc n)

-- memory after the shift
abbrev pub shifted_bytes : (ℕ → ℕ) → ℕ → ℕ → ℕ → ℕ
shifted_bytes m n rest = copied m 0 (λ i. m (n + i)) rest

pub shift_lem :
    (b : Buffer) (n rest : ℕ)
    → n + rest ≤ b.cap
    → shift b n rest ≡ some (record b { byte = shifted_bytes b.byte n rest })
unfolding shift
shift_lem b n zero h = ap (λ (m : ℕ → ℕ). some (record b { byte = m })) (fun_ext λ j. ground arith)
shift_lem b n (suc rest) h =
    rw (memmove_lem b 0 (offset b n) (suc rest) (omega arith) (omega arith))

pub shifted_bytes-IsBytes : (m : ℕ → ℕ) (n rest : ℕ) → IsBytes m → IsBytes (shifted_bytes m n rest)
shifted_bytes-IsBytes m n rest bytes = copied-IsBytes m 0 _ rest bytes (λ i. bytes (n + i))
