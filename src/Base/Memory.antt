-- ===== src/Base/Memory.antt =====
-- C memory behind a pointer to bytes: how many bytes are there, and what each holds.
-- A read or a write past the end is `none`.
use libedio.Base.Tests.{ltb, ◌==◌, if◌then◌else◌, ◌>>=◌, le→ltb}
use Prim.Native.Nat.{ℕ, ◌+◌, ◌-◌, ◌%◌, ◌≤◌, ◌<◌}
use mathlib.Core.Path.{◌≡◌, refl}
use mathlib.Core.Bool.{◌||◌, ◌&&◌, not}
use mathlib.Core.Option.{Option, none, some}
use mathlib.Core.List.{List, [], ◌∷◌}
use native.Mathlib.Omega.{arith}

pub record Buffer : Type 0 where
  pub cap : ℕ
  pub byte : ℕ → ℕ

-- `uint8_t`: every byte is below 256.
abbrev pub IsBytes : (ℕ → ℕ) → Type 0
IsBytes m = (i : ℕ) → m i < 256

abbrev pub update : (ℕ → ℕ) → ℕ → ℕ → ℕ → ℕ
update m i v j = if i == j then v else m j

-- buffer[i]
pub load : Buffer → ℕ → Option ℕ
load b i = if ltb i b.cap then some (b.byte i) else none

-- buffer[i] = v, with the conversion to `uint8_t`
pub store : Buffer → ℕ → ℕ → Option Buffer
store b i v = if ltb i b.cap then some (record b { byte = update b.byte i (v % 256) }) else none

-- a row of such assignments, in order
pub store_all : Buffer → List (ℕ × ℕ) → Option Buffer
store_all b [] = some b
store_all b ((i, v) ∷ ws) = store b i v >>= λ b'. store_all b' ws

-- what memory holds after `n` bytes from `src` were copied to `off`
abbrev pub copied : (ℕ → ℕ) → ℕ → (ℕ → ℕ) → ℕ → ℕ → ℕ
copied m off src n j = if not (ltb j off) && ltb j (off + n) then src (j - off) else m j

-- memmove (dst + off, src, n): the source is read before the destination is written, so the two
-- may be the same memory.
unfoldable pub memmove : Buffer → ℕ → Buffer → ℕ → Option Buffer
memmove dst off src n =
    if ltb dst.cap (off + n) || ltb src.cap n
    then none
    else some (record dst { byte = copied dst.byte off src.byte n })

-- memset (dst + off, v, n)
unfoldable pub memset : Buffer → ℕ → ℕ → ℕ → Option Buffer
memset dst off v n =
    if ltb dst.cap (off + n)
    then none
    else some (record dst { byte = copied dst.byte off (λ _. v % 256) n })

pub load_lem : (b : Buffer) (i : ℕ) → i < b.cap → load b i ≡ some (b.byte i)
unfolding load
load_lem b i h = ground arith

pub store_lem :
    (b : Buffer) (i v : ℕ)
    → i < b.cap
    → store b i v ≡ some (record b { byte = update b.byte i (v % 256) })
unfolding store
store_lem b i v h = ground arith

-- the assignments as updates of the contents
abbrev pub write_all : (ℕ → ℕ) → List (ℕ × ℕ) → ℕ → ℕ
write_all m [] = m
write_all m ((i, v) ∷ ws) = write_all (update m i (v % 256)) ws

abbrev pub AllBelow : ℕ → List (ℕ × ℕ) → Type 0
AllBelow n [] = Unit {0}
AllBelow n ((i, v) ∷ ws) = (i < n) × AllBelow n ws

pub store_all_lem :
    (b : Buffer) (ws : List (ℕ × ℕ))
    → AllBelow b.cap ws
    → store_all b ws ≡ some (record b { byte = write_all b.byte ws })
unfolding store_all
store_all_lem b [] h = refl
store_all_lem b ((i, v) ∷ ws) h =
    rw (store_lem b i v h.0) (store_all_lem (record b { byte = update b.byte i (v % 256) }) ws h.1)

pub memmove_lem :
    (dst : Buffer) (off : ℕ) (src : Buffer) (n : ℕ)
    → off + n ≤ dst.cap
    → n ≤ src.cap
    → memmove dst off src n ≡ some (record dst { byte = copied dst.byte off src.byte n })
unfolding memmove
memmove_lem dst off src n h k = rw (le→ltb _ _ h, le→ltb _ _ k)

pub memset_lem :
    (dst : Buffer) (off v n : ℕ)
    → off + n ≤ dst.cap
    → memset dst off v n ≡ some (record dst { byte = copied dst.byte off (λ _. v % 256) n })
unfolding memset
memset_lem dst off v n h = rw (le→ltb _ _ h)

pub update-IsBytes : (m : ℕ → ℕ) (k v : ℕ) → IsBytes m → v < 256 → IsBytes (update m k v)
update-IsBytes m k v bytes small i = ground (arith, bytes i)

pub write_all-IsBytes : (m : ℕ → ℕ) (ws : List (ℕ × ℕ)) → IsBytes m → IsBytes (write_all m ws)
write_all-IsBytes m [] bytes = bytes
write_all-IsBytes m ((k, v) ∷ ws) bytes =
    write_all-IsBytes (update m k (v % 256)) ws (update-IsBytes m k (v % 256) bytes (omega arith))

pub copied-IsBytes :
    (m : ℕ → ℕ) (off : ℕ) (src : ℕ → ℕ) (n : ℕ)
    → IsBytes m
    → IsBytes src
    → IsBytes (copied m off src n)
copied-IsBytes m off src n bytes source i = ground (arith, bytes i, source (i - off))

-- A write past the end.
pub store-none : (b : Buffer) (i v : ℕ) → b.cap ≤ i → store b i v ≡ none
unfolding store
store-none b i v h = rw (le→ltb i b.cap h)
