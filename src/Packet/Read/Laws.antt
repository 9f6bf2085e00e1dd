-- ===== src/Packet/Read/Laws.antt =====
-- What the readers of src/libedio24.c get from a packet.
use libedio.Base.{ℕ, zero, suc, ◌+◌, ◌*◌, ◌%◌, ◌^◌, ◌≤◌, ◌<◌, ◌≡◌, refl, ap, arith}
use libedio.Base.{
  ◌⊎◌, true, ltb→le, some, Buffer, load_lem, IsBytes, ℤ, pos, negsuc, le→ltb, ltb, Bool-cases, inl,
  inr,
}
use libedio.Packet.Verify.{pkt_verify}
use libedio.Packet.Verify.Laws.{IsWhole, pkt_verify-whole, pkt_verify-not_whole, pkt_verify_cases}
use libedio.Packet.Read.{Network, value_loop, read_value, read_ret_netconf}

-- The number that `n` bytes from index `i` on make, lowest byte first.
abbrev pub little_endian : (ℕ → ℕ) → ℕ → ℕ → ℕ
little_endian m i zero = 0
little_endian m i (suc n) = m i + 256 * little_endian m (i + 1) n

value_loop_lem :
    (b : Buffer) (bytes i : ℕ)
    → IsBytes b.byte
    → bytes ≤ 4
    → i + bytes ≤ b.cap
    → value_loop b bytes i 0 0 ≡ some (little_endian b.byte i bytes)
unfolding value_loop
value_loop_lem b zero i h k l = refl
value_loop_lem b (suc zero) i h k l = rw (load_lem b i (omega arith)) (ap some (omega (arith, h i)))
value_loop_lem b (suc (suc zero)) i h k l =
    rw (load_lem b i (omega arith), load_lem b (i + 1) (omega arith))
      (ap some (omega (arith, h i, h (i + 1))))
value_loop_lem b (suc (suc (suc zero))) i h k l =
    rw
      (
        load_lem b i (omega arith),
        load_lem b (i + 1) (omega arith),
        load_lem b (i + 1 + 1) (omega arith),
      )
      (ap some (omega (arith, h i, h (i + 1), h (i + 1 + 1))))
value_loop_lem b (suc (suc (suc (suc zero)))) i h k l =
    rw
      (
        load_lem b i (omega arith),
        load_lem b (i + 1) (omega arith),
        load_lem b (i + 1 + 1) (omega arith),
        load_lem b (i + 1 + 1 + 1) (omega arith),
      )
      (ap some (omega (arith, h i, h (i + 1), h (i + 1 + 1), h (i + 1 + 1 + 1))))
value_loop_lem b (suc (suc (suc (suc (suc n))))) i h k l = absurd (omega arith)

-- From a whole packet in the buffer, the read of up to four bytes inside `sz_buf` returns 0 and
-- stores the little-endian number that they make.
pub read_value_lem :
    (b : Buffer) (sz_buf off_data bytes old : ℕ)
    → IsBytes b.byte
    → sz_buf ≤ b.cap
    → sz_buf < 2 ^ 64
    → IsWhole b.byte sz_buf
    → bytes ≤ 4
    → 7 + off_data + bytes ≤ sz_buf
    → read_value (some b) sz_buf off_data bytes (some old)
      ≡ some (pos 0, some (little_endian b.byte (6 + off_data) bytes))
unfolding read_value
read_value_lem b sz_buf off_data bytes old h room big w few fits =
    let e : (6 + 1 + off_data + bytes) % 2 ^ 64 ≡ 7 + off_data + bytes = omega arith in
    rw (
      le→ltb 4 bytes few,
      pkt_verify-whole b sz_buf h room w,
      e,
      le→ltb sz_buf (7 + off_data + bytes) fits,
      value_loop_lem b bytes (6 + off_data) h few (omega arith),
    )

-- From anything else it returns -1 and stores nothing.
pub read_value-not_whole :
    (b : Buffer) (sz_buf off_data bytes old : ℕ)
    → IsBytes b.byte
    → sz_buf ≤ b.cap
    → ¬ IsWhole b.byte sz_buf
    → read_value (some b) sz_buf off_data bytes (some old) ≡ some (negsuc 0, some old)
unfolding read_value
read_value-not_whole b sz_buf off_data bytes old h room w = elim (Bool-cases (ltb 4 bytes)) [
  | inl many ↦ rw many
  | inr few ↦ rw (few, pkt_verify-not_whole b sz_buf h room w)
]

-- So too where the bytes would end behind `sz_buf`.
pub read_value-short :
    (b : Buffer) (sz_buf off_data bytes old : ℕ)
    → pkt_verify (some b) sz_buf ≡ some (pos 0)
    → 7 + off_data + bytes < 2 ^ 64
    → bytes ≤ 4
    → ltb sz_buf (7 + off_data + bytes) ≡ true
    → read_value (some b) sz_buf off_data bytes (some old) ≡ some (negsuc 0, some old)
unfolding read_value
read_value-short b sz_buf off_data bytes old good small few short =
    let e : (6 + 1 + off_data + bytes) % 2 ^ 64 ≡ 7 + off_data + bytes = omega arith in
    rw (le→ltb 4 bytes few, good, e, short)

-- The three addresses of a network reply are the little-endian numbers at the data bytes 0, 4 and 8.
pub read_ret_netconf_lem :
    (b : Buffer) (sz_buf : ℕ) (old : Network)
    → IsBytes b.byte
    → sz_buf ≤ b.cap
    → sz_buf < 2 ^ 64
    → IsWhole b.byte sz_buf
    → 19 ≤ sz_buf
    → read_ret_netconf (some b) sz_buf old
      ≡ some (
        pos 0,
        record {
          ip = little_endian b.byte 6 4;
          mask = little_endian b.byte 10 4;
          gateway = little_endian b.byte 14 4;
        },
      )
unfolding read_ret_netconf
read_ret_netconf_lem b sz_buf old h room big w long = rw (
  read_value_lem b sz_buf 0 4 old.ip h room big w (omega arith) long',
  read_value_lem b sz_buf 4 4 old.mask h room big w (omega arith) (omega arith),
  read_value_lem b sz_buf 8 4 old.gateway h room big w (omega arith) long,
)
  where
    long' : 7 + 0 + 4 ≤ sz_buf
    long' = omega arith

-- The read of up to four bytes never faults: it stores the number, or nothing with -1.
pub read_value_cases :
    (b : Buffer) (sz_buf off_data bytes old : ℕ)
    → IsBytes b.byte
    → sz_buf ≤ b.cap
    → sz_buf < 2 ^ 64
    → 7 + off_data + bytes < 2 ^ 64
    → bytes ≤ 4
    → (read_value (some b) sz_buf off_data bytes (some old)
        ≡ some (pos 0, some (little_endian b.byte (6 + off_data) bytes)))
      ⊎ (read_value (some b) sz_buf off_data bytes (some old) ≡ some (negsuc 0, some old))
read_value_cases b sz_buf off_data bytes old h room big small few =
    elim (pkt_verify_cases b sz_buf h room) [
      | inr bad ↦ inr (read_value-not_whole b sz_buf off_data bytes old h room bad.1)
      | inl good ↦ elim (Bool-cases (ltb sz_buf (7 + off_data + bytes))) [
        | inl short ↦ inr (read_value-short b sz_buf off_data bytes old good.0 small few short)
        | inr long ↦
            inl (read_value_lem b sz_buf off_data bytes old h room big good.1 few (ltb→le _ _ long))
      ]
    ]

pub read_value_total :
    (b : Buffer) (sz_buf off_data bytes old : ℕ)
    → IsBytes b.byte
    → sz_buf ≤ b.cap
    → sz_buf < 2 ^ 64
    → 7 + off_data + bytes < 2 ^ 64
    → bytes ≤ 4
    → (ret : ℤ) × (v : ℕ) × (read_value (some b) sz_buf off_data bytes (some old)
        ≡ some (ret, some v))
read_value_total b sz_buf off_data bytes old h room big small few =
    elim (read_value_cases b sz_buf off_data bytes old h room big small few) [
      | inl good ↦ (_, _, good)
      | inr bad ↦ (_, _, bad)
    ]
