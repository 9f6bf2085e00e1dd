-- ===== src/Client/Tcp/Laws.antt =====
-- What edio24_cli_verify_tcp of src/libedio24.c does with the bytes received so far.
use libedio.Base.{ℕ, ◌+◌, ◌-◌, ◌%◌, ◌^◌, ◌≤◌, ◌<◌, ◌≡◌, refl, arith, bit_and}
use libedio.Base.{some, Bool, true, false, ltb, ltb→lt, ltb→le, Bool-cases, ◌==◌, inl, inr}
use libedio.Base.{
  Buffer, IsBytes, load_lem, memmove_lem, pos, negsuc, passes_from, passes_from-elem,
}
use libedio.Packet.Read.{offset}
use libedio.Packet.Read.Laws.{read_value_total}
use libedio.Packet.Verify.{pkt_verify}
use libedio.Packet.Verify.Laws.{
  count_of, IsWhole, read_hdr_command_lem, read_hdr_count_lem, pkt_verify_cases,
}
use libedio.Client.Tcp.{
  Progress, Result, Case, pins, counter, status_word, network, printed, unsupported, case_of,
  switch, conclude, verify_packet, verify_counted, verify_header, cli_verify_tcp,
}

request_table : passes_from (λ x. bit_and x 0x7F == x % 128) 0 256 ≡ true
unfolding passes_from
request_table = refl

-- A reply's command byte without its reply bit.
bit_and-reply : (x : ℕ) → x < 256 → bit_and x (0xFF - 0x80) ≡ x % 128
bit_and-reply x h = ground (
  arith,
  passes_from-elem (λ x. bit_and x 0x7F == x % 128) 0 256 x (omega arith) (omega arith)
      request_table,
)

abbrev pub is_supported : Case → Bool
is_supported unsupported = false
is_supported pins = true
is_supported k = true

-- The switch never faults where twelve data bytes can be read.
switch_total :
    (k : Case) (b : Buffer) (sz_in : ℕ)
    → IsBytes b.byte
    → sz_in ≤ b.cap
    → sz_in < 2 ^ 64
    → 18 ≤ b.cap
    → switch k b sz_in ≡ some (is_supported k)
unfolding switch
switch_total pins b sz_in h room big long =
    rw (read_value_total b sz_in 0 3 0 h room big (omega arith) (omega arith)).2
switch_total counter b sz_in h room big long =
    rw (read_value_total b sz_in 0 4 0 h room big (omega arith) (omega arith)).2
switch_total status_word b sz_in h room big long =
    rw (read_value_total b sz_in 0 2 0 h room big (omega arith) (omega arith)).2
switch_total network b sz_in h room big long =
    rw (
      memmove_lem (record { cap = 12; byte = λ _. 0 }) 0 (offset b 6) 12 (omega arith)
        (omega arith))
switch_total printed b sz_in h room big long = refl
switch_total unsupported b sz_in h room big long = refl

abbrev pub shown : ℕ → ℕ → Progress
shown processed needed_in = record { sz_processed = some processed; sz_needed_in = some needed_in }

-- The command that a reply answers.
abbrev pub answered : (ℕ → ℕ) → Case
answered m = case_of (m 1 % 128)

-- The outcomes of a call, each with what was received and what is returned. `accepted` is the only
-- one that takes bytes from the input.
pub data Checked (b : Buffer) (sz_in : ℕ) (r : Result) : Type 0 where
  wants_header : sz_in < 7 → r ≡ some (pos 1, shown 0 (7 - sz_in)) → Checked b sz_in r
  wants_data :
      7 ≤ sz_in
      → sz_in < 7 + count_of b.byte
      → r ≡ some (pos 1, shown 0 (7 + count_of b.byte - sz_in))
      → Checked b sz_in r
  damaged :
      7 + count_of b.byte ≤ sz_in
      → ¬ IsWhole b.byte sz_in
      → r ≡ some (pos 2, shown 0 0)
      → Checked b sz_in r
  refused :
      IsWhole b.byte sz_in
      → is_supported (answered b.byte) ≡ false
      → r ≡ some (negsuc 0, shown 0 0)
      → Checked b sz_in r
  accepted :
      IsWhole b.byte sz_in
      → is_supported (answered b.byte) ≡ true
      → r ≡ some (pos 0, shown (7 + count_of b.byte) 0)
      → Checked b sz_in r

module _ (b : Buffer) (sz_in : ℕ) (bytes : IsBytes b.byte) (room : sz_in ≤ b.cap)
    (big : sz_in < 2 ^ 64) (long : 18 ≤ b.cap) where
  whole_packet :
      pkt_verify (some b) sz_in ≡ some (pos 0)
      → IsWhole b.byte sz_in
      → Checked b sz_in (verify_packet b sz_in (b.byte 1 % 128) (count_of b.byte) (shown 0 0))
  unfolding verify_packet conclude
  whole_packet good w =
      rw
        (
          good,
          load_lem b 3 (omega arith),
          switch_total (case_of (b.byte 1 % 128)) b sz_in bytes room big long,
        )
        (elim (Bool-cases (is_supported (answered b.byte))) [
          | inl k ↦ accepted w k (rw k)
          | inr k ↦ refused w k (rw k)
        ])

  packet-Checked :
      7 + count_of b.byte ≤ sz_in
      → Checked b sz_in (verify_packet b sz_in (b.byte 1 % 128) (count_of b.byte) (shown 0 0))
  unfolding verify_packet
  packet-Checked fits = elim (pkt_verify_cases b sz_in bytes room) [
    | inl good ↦ whole_packet good.0 good.1
    | inr bad ↦ damaged fits bad.1 (rw bad.0)
  ]

  counted-Checked :
      7 ≤ sz_in
      → Checked b sz_in
          (verify_counted b sz_in (b.byte 1 % 128) (pos 0) (count_of b.byte) (shown 0 0))
  unfolding verify_counted
  counted-Checked least = elim (Bool-cases (ltb sz_in (7 + count_of b.byte))) [
    | inl short ↦ rw short (wants_data least (ltb→lt _ _ short) refl)
    | inr fits ↦ rw fits (packet-Checked (ltb→le _ _ fits))
  ]

  header-Checked : 7 ≤ sz_in → Checked b sz_in (verify_header b sz_in (shown 0 0))
  unfolding verify_header
  header-Checked least =
      rw
        (
          read_hdr_command_lem b sz_in 0 (omega arith) room,
          read_hdr_count_lem b sz_in 0 bytes (omega arith) room,
          bit_and-reply (b.byte 1) (bytes 1),
        )
        (counted-Checked least)

-- Whatever bytes were received into a buffer of at least eighteen, a call with pointers to both
-- results returns, never reads outside its buffer, and has one of these outcomes: it asks for
-- exactly the missing bytes of the header or of the packet, it returns 2 for a damaged packet, -1
-- for the reply to an unknown command, or it takes exactly one whole packet.
pub cli_verify_tcp-Checked :
    (b : Buffer) (sz_in processed needed_in : ℕ)
    → IsBytes b.byte
    → sz_in ≤ b.cap
    → sz_in < 2 ^ 64
    → 18 ≤ b.cap
    → Checked b sz_in (cli_verify_tcp (some b) sz_in (shown processed needed_in))
unfolding cli_verify_tcp
cli_verify_tcp-Checked b sz_in processed needed_in bytes room big long =
    elim (Bool-cases (ltb sz_in 7)) [
      | inl short ↦ rw short (wants_header (ltb→lt _ _ short) refl)
      | inr least ↦ rw least (header-Checked b sz_in bytes room big long (ltb→le _ _ least))
    ]
