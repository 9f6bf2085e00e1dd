-- ===== src/Client/Udp/Laws.antt =====
-- edio24_cli_verify_udp of src/libedio24.c on the description that edio24_svr_process_udp writes,
-- and on any other.
use libedio.Base.{ℕ, zero, suc, ◌+◌, ◌-◌, ◌≤◌, ◌<◌, ◌≡◌, ◌≢◌, refl, arith, some, none, le→ltb}
use libedio.Base.{ap, Buffer, load_lem, Bool-cases, inl, inr, ◌==◌, pos, false}
use libedio.Client.Udp.{load_each, read_cstr, cli_verify_udp}

load_each_lem : (b : Buffer) (left i : ℕ) → i + left ≤ b.cap → load_each b left i ≡ some 0
unfolding load_each
load_each_lem b zero i h = refl
load_each_lem b (suc left) i h =
    rw (load_lem b i (omega arith)) (load_each_lem b left (i + 1) (omega arith))

-- A text ends inside the buffer where a zero byte stands there.
read_cstr_total :
    (b : Buffer) (left i z : ℕ)
    → i + left ≤ b.cap
    → i ≤ z
    → z < i + left
    → b.byte z ≡ 0
    → (n : ℕ) × (read_cstr b left i ≡ some n)
unfolding read_cstr
read_cstr_total b zero i z h k l e = absurd (omega arith)
read_cstr_total b (suc left) i z h k l e =
    rw (load_lem b i (omega arith)) (elim (Bool-cases (b.byte i == 0)) [
      | inl end ↦ (i, rw end)
      | inr more ↦ rw more (
          read_cstr_total b left (i + 1) z (omega arith) (omega (arith, later more)) (omega arith)
            e)
    ])
  where
    later : (b.byte i == 0) ≡ false → i ≢ z
    later more same = ground (arith, ap b.byte same)

-- The name without a zero byte up to the end of the buffer is read past that end.
read_cstr-overrun :
    (b : Buffer) (left i : ℕ)
    → i + left ≤ b.cap
    → ((j : ℕ) → i ≤ j → j < i + left → b.byte j ≢ 0)
    → read_cstr b left i ≡ none
unfolding read_cstr
read_cstr-overrun b zero i h k = refl
read_cstr-overrun b (suc left) i h k =
    rw (load_lem b i (omega arith)) (elim (Bool-cases (b.byte i == 0)) [
      | inl end ↦ absurd (k i (omega arith) (omega arith) (ground arith))
      | inr more ↦ rw more (
          read_cstr-overrun b left (i + 1) (omega arith) (λ j p q. k j (omega arith) (omega arith)))
    ])

-- A discovery reply is accepted where a zero byte ends its name inside the buffer.
pub cli_verify_udp_lem :
    (b : Buffer) (sz_in z : ℕ)
    → 64 ≤ sz_in
    → sz_in ≤ b.cap
    → b.byte 0 ≡ b'D'
    → 11 ≤ z
    → z < b.cap
    → b.byte z ≡ 0
    → cli_verify_udp (some b) sz_in ≡ some (pos 0)
unfolding cli_verify_udp
cli_verify_udp_lem b sz_in z long room d low high e =
    let name = read_cstr_total b (b.cap - 11) 11 z (omega arith) low (omega arith) e in
    rw (
      le→ltb sz_in 64 long,
      load_lem b 0 (omega arith),
      d,
      load_each_lem b 10 1 (omega arith),
      name.1,
      load_each_lem b 2 27 (omega arith),
      load_each_lem b 8 33 (omega arith),
    )

-- A datagram of 64 bytes or more that begins with 'D' and has no zero byte from its byte 11 to the
-- end of the buffer makes the client read behind the buffer.
pub cli_verify_udp-overrun :
    (b : Buffer) (sz_in : ℕ)
    → 64 ≤ sz_in
    → sz_in ≤ b.cap
    → b.byte 0 ≡ b'D'
    → ((j : ℕ) → 11 ≤ j → j < b.cap → b.byte j ≢ 0)
    → cli_verify_udp (some b) sz_in ≡ none
unfolding cli_verify_udp
cli_verify_udp-overrun b sz_in long room d full = rw (
  le→ltb sz_in 64 long,
  load_lem b 0 (omega arith),
  d,
  load_each_lem b 10 1 (omega arith),
  read_cstr-overrun b (b.cap - 11) 11 (omega arith) (λ j p q. full j p (omega arith)),
)
