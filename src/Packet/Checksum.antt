-- ===== src/Packet/Checksum.antt =====
-- edio24_pkt_checksum of src/libedio24.c.
use libedio.Base.{ℕ, zero, suc, ◌+◌, ◌%◌, ◌≤◌, ◌<◌, ◌≡◌, refl, Option, some, arith}
use libedio.Base.{Buffer, load, load_lem, ◌>>=◌, update}

-- The loop at index `i` with `length - i` rounds left; the checksum is an `unsigned char`.
checksum_loop : Buffer → ℕ → ℕ → ℕ → Option ℕ
checksum_loop b zero i checksum = some checksum
checksum_loop b (suc left) i checksum =
    load b i >>= λ v. checksum_loop b left (i + 1) ((checksum + v) % 256)

pub pkt_checksum : Buffer → ℕ → Option ℕ
pkt_checksum b length = checksum_loop b length 0 0

-- The sum of `n` bytes from index `i` on.
abbrev pub byte_sum : (ℕ → ℕ) → ℕ → ℕ → ℕ
byte_sum m i zero = 0
byte_sum m i (suc n) = m i + byte_sum m (i + 1) n

checksum_loop_lem :
    (b : Buffer) (left i checksum : ℕ)
    → i + left ≤ b.cap
    → checksum < 256
    → checksum_loop b left i checksum ≡ some ((checksum + byte_sum b.byte i left) % 256)
unfolding checksum_loop
checksum_loop_lem b zero i checksum h k = ground arith
checksum_loop_lem b (suc left) i checksum h k = ground (
  arith,
  load_lem b i (omega arith),
  checksum_loop_lem b left (i + 1) ((checksum + b.byte i) % 256) (omega arith) (omega arith),
)

-- The checksum of bytes that are there is their sum, modulo 256.
pub pkt_checksum_lem :
    (b : Buffer) (n : ℕ) → n ≤ b.cap → pkt_checksum b n ≡ some (byte_sum b.byte 0 n % 256)
unfolding pkt_checksum
pkt_checksum_lem b n h = ground (arith, checksum_loop_lem b n 0 0 (omega arith) (omega arith))

-- A write behind the summed bytes does not change their sum.
pub byte_sum-update :
    (m : ℕ → ℕ) (i n k v : ℕ) → i + n ≤ k → byte_sum (update m k v) i n ≡ byte_sum m i n
byte_sum-update m i zero k v h = refl
byte_sum-update m i (suc n) k v h = ground (arith, byte_sum-update m (i + 1) n k v (omega arith))

-- Nor does a write before them.
pub byte_sum-update_before :
    (m : ℕ → ℕ) (i n k v : ℕ) → k < i → byte_sum (update m k v) i n ≡ byte_sum m i n
byte_sum-update_before m i zero k v h = refl
byte_sum-update_before m i (suc n) k v h =
    ground (arith, byte_sum-update_before m (i + 1) n k v (omega arith))

-- The sum depends on the summed bytes only.
pub byte_sum-agree :
    (m m' : ℕ → ℕ) (i n : ℕ) → ((k : ℕ) → k < i + n → m' k ≡ m k) → byte_sum m' i n ≡ byte_sum m i n
byte_sum-agree m m' i zero same_bytes = refl
byte_sum-agree m m' i (suc n) same_bytes = omega (
  arith,
  same_bytes i (omega arith),
  byte_sum-agree m m' (i + 1) n (λ k h. same_bytes k (omega arith)),
)
