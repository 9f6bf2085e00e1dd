-- ===== src/Packet/Verify/Laws.antt =====
-- What edio24_pkt_verify of src/libedio24.c accepts.
use libedio.Base.{ℕ, zero, suc, ◌+◌, ◌*◌, ◌%◌, ◌≤◌, ◌<◌, ◌≡◌, ◌≢◌, ◌⊎◌, inl, inr, refl, arith}
use native.Mathlib.Decide.{ℕ_discrete}
use libedio.Base.{
  update-IsBytes, sym, ap, some, ◌^◌, Buffer, load_lem, update, IsBytes, pos, negsuc, lt→ltb,
}
use libedio.Base.{ltb, Bool-cases, ltb→le, ltb→lt}
use libedio.Packet.Checksum.{byte_sum, pkt_checksum_lem, byte_sum-update, byte_sum-update_before}
use libedio.Packet.Format.{IsPacket}
use libedio.Packet.Verify.{read_hdr_command, read_hdr_count, pkt_verify}

-- The count that a header holds.
abbrev pub count_of : (ℕ → ℕ) → ℕ
count_of m = m 5 * 256 + m 4

-- A whole packet within `sz_buf` bytes, with its sum.
abbrev pub IsWhole : (ℕ → ℕ) → ℕ → Type 0
IsWhole m sz_buf =
    (7 + count_of m ≤ sz_buf) × (m (6 + count_of m) + byte_sum m 0 (6 + count_of m) % 256 ≡ 255)

pub read_hdr_command_lem :
    (b : Buffer) (sz_buf v : ℕ)
    → 2 ≤ sz_buf
    → sz_buf ≤ b.cap
    → read_hdr_command (some b) sz_buf (some v) ≡ some (pos 0, some (b.byte 1))
unfolding read_hdr_command
read_hdr_command_lem b sz_buf v h k = rw (lt→ltb 1 sz_buf h, load_lem b 1 (omega arith))

pub read_hdr_count_lem :
    (b : Buffer) (sz_buf v : ℕ)
    → IsBytes b.byte
    → 6 ≤ sz_buf
    → sz_buf ≤ b.cap
    → read_hdr_count (some b) sz_buf (some v) ≡ some (pos 0, some (count_of b.byte))
unfolding read_hdr_count
read_hdr_count_lem b sz_buf v bytes h k =
    ground (arith, load_lem b 5 (omega arith), load_lem b 4 (omega arith), bytes 5, bytes 4)

verify_short : (b : Buffer) (sz_buf : ℕ) → sz_buf < 6 → pkt_verify (some b) sz_buf ≡ some (negsuc 0)
unfolding pkt_verify read_hdr_count
verify_short b sz_buf h = rw (lt→ltb sz_buf 6 h)

verify_sized :
    (b : Buffer) (sz_buf : ℕ)
    → IsBytes b.byte
    → 6 ≤ sz_buf
    → sz_buf ≤ b.cap
    → ((pkt_verify (some b) sz_buf ≡ some (pos 0)) × IsWhole b.byte sz_buf)
      ⊎ ((pkt_verify (some b) sz_buf ≡ some (negsuc 0)) × ¬ IsWhole b.byte sz_buf)
unfolding pkt_verify
verify_sized b sz_buf bytes h k =
    rw (read_hdr_count_lem b sz_buf 0 bytes h k)
      (elim (Bool-cases (ltb sz_buf (7 + count_of b.byte))) [
        | inl short ↦ rw short (inr (refl, λ w. omega (arith, ltb→lt _ _ short)))
        | inr long ↦
            let fits : 7 + count_of b.byte ≤ sz_buf = ltb→le _ _ long in
            rw
              (
                long,
                load_lem b (6 + count_of b.byte) (omega arith),
                pkt_checksum_lem b (6 + count_of b.byte) (omega arith),
              )
              (ground arith)
      ])

-- On a buffer of bytes that holds at least `sz_buf` of them the verification never faults: it
-- returns 0 for a whole packet with the right sum, and -1 for anything else.
pub pkt_verify_cases :
    (b : Buffer) (sz_buf : ℕ)
    → IsBytes b.byte
    → sz_buf ≤ b.cap
    → ((pkt_verify (some b) sz_buf ≡ some (pos 0)) × IsWhole b.byte sz_buf)
      ⊎ ((pkt_verify (some b) sz_buf ≡ some (negsuc 0)) × ¬ IsWhole b.byte sz_buf)
pkt_verify_cases b sz_buf bytes k = elim (Bool-cases (ltb sz_buf 6)) [
  | inl short ↦ inr (verify_short b sz_buf (ltb→lt _ _ short), λ w. omega (arith, ltb→lt _ _ short))
  | inr long ↦ verify_sized b sz_buf bytes (ltb→le _ _ long) k
]

pub pkt_verify-whole :
    (b : Buffer) (sz_buf : ℕ)
    → IsBytes b.byte
    → sz_buf ≤ b.cap
    → IsWhole b.byte sz_buf
    → pkt_verify (some b) sz_buf ≡ some (pos 0)
pkt_verify-whole b sz_buf bytes k w = elim (pkt_verify_cases b sz_buf bytes k) [
  | inl good ↦ good.0
  | inr bad ↦ absurd (bad.1 w)
]

pub pkt_verify-not_whole :
    (b : Buffer) (sz_buf : ℕ)
    → IsBytes b.byte
    → sz_buf ≤ b.cap
    → ¬ IsWhole b.byte sz_buf
    → pkt_verify (some b) sz_buf ≡ some (negsuc 0)
pkt_verify-not_whole b sz_buf bytes k w = elim (pkt_verify_cases b sz_buf bytes k) [
  | inl good ↦ absurd (w good.1)
  | inr bad ↦ bad.0
]

pub count_of-IsPacket :
    {m : ℕ → ℕ} {cmd frame status : ℕ} (count : ℕ)
    → count < 2 ^ 16
    → IsPacket m cmd frame status count
    → count_of m ≡ count
count_of-IsPacket count small p = omega (arith, p.count_low, p.count_high)

-- A packet in the protocol's format is whole in any buffer that is long enough.
pub IsPacket-IsWhole :
    {m : ℕ → ℕ} {cmd frame status : ℕ} (count sz_buf : ℕ)
    → count < 2 ^ 16
    → 7 + count ≤ sz_buf
    → IsPacket m cmd frame status count
    → IsWhole m sz_buf
IsPacket-IsWhole {m} count sz_buf small fits p = rw (count_of-IsPacket count small p) (fits, p.sum)

update_eq : (m : ℕ → ℕ) (k v i : ℕ) → i ≡ k → update m k v i ≡ v
update_eq m k v i h = ground arith

update_ne : (m : ℕ → ℕ) (k v i : ℕ) → k ≢ i → update m k v i ≡ m i
update_ne m k v i h = ground arith

-- One changed byte below `n` changes the sum by the difference.
byte_sum-change :
    (m : ℕ → ℕ) (i n k v : ℕ)
    → i ≤ k
    → k < i + n
    → byte_sum (update m k v) i n + m k ≡ byte_sum m i n + v
byte_sum-change m i zero k v h l = absurd (omega arith)
byte_sum-change m i (suc n) k v h l = elim (ℕ_discrete i k) [
  | yes same ↦ omega (
    arith,
    update_eq m k v i same,
    ap m same,
    byte_sum-update_before m (i + 1) n k v (omega arith),
  )
  | no other ↦ omega (
    arith,
    update_ne m k v i (λ e. other (sym e)),
    byte_sum-change m (i + 1) n k v (omega arith) (omega arith),
  )
]

-- A packet in which one byte other than the two count bytes was changed is refused.
pub pkt_verify-update :
    (b : Buffer) (sz_buf k v : ℕ)
    → IsBytes b.byte
    → sz_buf ≤ b.cap
    → IsWhole b.byte sz_buf
    → k < 7 + count_of b.byte
    → k ≢ 4
    → k ≢ 5
    → v < 256
    → v ≢ b.byte k
    → pkt_verify (some (record b { byte = update b.byte k v })) sz_buf ≡ some (negsuc 0)
pkt_verify-update b sz_buf k v bytes room w below not_low not_high small differs =
    pkt_verify-not_whole (record b { byte = update b.byte k v }) sz_buf
      (update-IsBytes b.byte k v bytes small) room
      λ w'. refuted (rw (update_ne b.byte k v 5 not_high, update_ne b.byte k v 4 not_low) at w')
  where
    n : ℕ
    n = 6 + count_of b.byte

    refuted :
        (7 + count_of b.byte ≤ sz_buf)
          × (update b.byte k v n + byte_sum (update b.byte k v) 0 n % 256 ≡ 255)
        → ⊥
    refuted w' = elim (ℕ_discrete k n) [
      | yes last ↦ omega (
        arith,
        update_eq b.byte k v n (sym last),
        ap b.byte last,
        byte_sum-update b.byte 0 n k v (omega arith),
        bytes k,
        w.1,
        w'.1,
      )
      | no other ↦ omega (
        arith,
        update_ne b.byte k v n other,
        byte_sum-change b.byte 0 n k v (omega arith) (omega arith),
        bytes k,
        bytes n,
        w.1,
        w'.1,
      )
    ]
