-- ===== src/Server/Tcp/Process.antt =====
-- What edio24_svr_process_tcp of src/libedio24.c does with the bytes received so far.
use libedio.Base.{
  ◌⊎◌, ℕ, zero, suc, ◌+◌, ◌-◌, ◌^◌, ◌≤◌, ◌<◌, ◌≡◌, inl, inr, refl, ◌∙◌, sym, ap, arith,
}
use libedio.Base.{some, Bool, true, false, ltb, ltb→lt, ltb→le, Bool-cases}
use libedio.Base.{Buffer, IsBytes, pos, negsuc}
use mathlib.Core.Option.{some-injective}
use libedio.Packet.Verify.{pkt_verify}
use libedio.Packet.Verify.Laws.{
  count_of, IsWhole, read_hdr_command_lem, read_hdr_count_lem, pkt_verify_cases,
}
use libedio.Server.Tcp.{
  Pointers, Chance, Result, case_of, Switched, switch, conclude, process_packet, process_counted,
  process_header, process_sized, svr_process_tcp, status_of,
}
use libedio.Server.Tcp.Laws.{
  is_supported, is_bare, switch-bare, answer_to, switch_total, switch_whole, Replied, reply-Replied,
}

-- pointers to `buffer_out`, its size, and the three counters
abbrev pub shown : Buffer → ℕ → ℕ → ℕ → ℕ → Pointers
shown out sz_out processed needed_in needed_out = record {
  buffer_out = some out;
  sz_out = some sz_out;
  sz_processed = some processed;
  sz_needed_in = some needed_in;
  sz_needed_out = some needed_out;
}

-- With eleven bytes or more received, the status and the data size are those that the request asks
-- for; with fewer, a reply that is to have no data has none. `asked` is the status before the request
-- is looked at.
abbrev pub AsAsked : (ℕ → ℕ) → ℕ → ℕ → ℕ → ℕ → Type 0
AsAsked m sz_in asked status len =
    ((sz_in < 11) × (is_bare (case_of (m 1)) ≡ true → len ≡ 0))
    ⊎ (((answer_to (case_of (m 1)) m asked).status ≡ status)
        × ((answer_to (case_of (m 1)) m asked).len_data ≡ len))

-- The outcomes of a call, each with what was received and what is returned. `served` is the only
-- one that takes bytes from the input.
pub data Handled (b : Buffer) (sz_in asked : ℕ) (out : Buffer) (sz_out : ℕ) (r : Result)
    : Type 0 where
  wants_header :
      sz_in < 7
      → r ≡ some (pos 1, shown out sz_out 0 (7 - sz_in) 0)
      → Handled b sz_in asked out sz_out r
  wants_data :
      7 ≤ sz_in
      → sz_in < 7 + count_of b.byte
      → r ≡ some (pos 1, shown out sz_out 0 (7 + count_of b.byte - sz_in) 0)
      → Handled b sz_in asked out sz_out r
  refused :
      7 + count_of b.byte ≤ sz_in
      → is_supported (case_of (b.byte 1)) ≡ false
      → r ≡ some (negsuc 0, shown out sz_out 0 0 0)
      → Handled b sz_in asked out sz_out r
  damaged :
      7 + count_of b.byte ≤ sz_in
      → ¬ IsWhole b.byte sz_in
      → is_supported (case_of (b.byte 1)) ≡ true
      → r ≡ some (pos 2, shown out sz_out 0 0 0)
      → Handled b sz_in asked out sz_out r
  wants_room :
      (status len : ℕ)
      → IsWhole b.byte sz_in
      → AsAsked b.byte sz_in asked status len
      → is_supported (case_of (b.byte 1)) ≡ true
      → len < 2 ^ 16
      → sz_out < 7 + len
      → r ≡ some (pos 1, shown out 0 0 0 (7 + len - sz_out))
      → Handled b sz_in asked out sz_out r
  served :
      (status len : ℕ)
      → IsWhole b.byte sz_in
      → AsAsked b.byte sz_in asked status len
      → is_supported (case_of (b.byte 1)) ≡ true
      → 7 + len ≤ sz_out
      → status < 256
      → Replied b out (b.byte 1) (count_of b.byte) status len (shown out sz_out 0 0 0) r
      → Handled b sz_in asked out sz_out r

supported-lt : (cmd : ℕ) → is_supported (case_of cmd) ≡ true → cmd < 128
unfolding case_of
supported-lt cmd h = elim (Bool-cases (ltb cmd 128)) [
  | inl low ↦ ltb→lt _ _ low
  | inr high ↦ ground (arith, ltb→le _ _ high)
]

status_of-lt : (force_fail : Bool) (rand ret : ℕ) → status_of force_fail rand ret < 256
status_of-lt force_fail rand zero = ground arith
status_of-lt force_fail rand (suc n) = omega arith

module _ (force_fail : Bool) (b : Buffer) (sz_in : ℕ) (c : Chance) (out : Buffer) (sz_out : ℕ)
    (bytes : IsBytes b.byte) (room : sz_in ≤ b.cap) (big : sz_in < 2 ^ 64)
    (room_out : sz_out ≤ out.cap) where
  abbrev start : Pointers
  start = shown out sz_out 0 0 0

  -- a whole packet of a command that is served
  concluded :
      (s : Switched)
      → IsWhole b.byte sz_in
      → AsAsked b.byte sz_in (status_of force_fail c.rand 0) s.status s.len_data
      → is_supported (case_of (b.byte 1)) ≡ true
      → s.supported ≡ true
      → s.len_data < 2 ^ 16
      → s.status < 256
      → Handled b sz_in
          (status_of force_fail c.rand 0)
          out
          sz_out
          (conclude b (b.byte 1) (count_of b.byte) 0 s start)
  unfolding conclude
  concluded s w as_asked k h small st = rw h (elim (Bool-cases (ltb sz_out (7 + s.len_data))) [
    | inl short ↦ wants_room s.status s.len_data w as_asked k small (ltb→lt _ _ short) (rw short)
    | inr long ↦ served s.status s.len_data w as_asked k (ltb→le _ _ long) st (
        rw long (
          reply-Replied b out (b.byte 1) (count_of b.byte) s.status s.len_data start bytes
            (omega (arith, w.0)) (omega (arith, ltb→le _ _ long)) small (supported-lt (b.byte 1) k)
            st))
  ])

  asked_by :
      (s : Switched)
      → IsWhole b.byte sz_in
      → switch (case_of (b.byte 1)) b sz_in c (status_of force_fail c.rand 0) ≡ some s
      → AsAsked b.byte sz_in (status_of force_fail c.rand 0) s.status s.len_data
  asked_by s w e = elim (Bool-cases (ltb sz_in 11)) [
    | inl few ↦
        let status = status_of force_fail c.rand 0 in
        inl (
          ltb→lt _ _ few,
          λ k. switch-bare (case_of (b.byte 1)) b sz_in c status s bytes room big k e,
        )
    | inr many ↦
        let long : 11 ≤ sz_in = ltb→le _ _ many in
        let status = status_of force_fail c.rand 0 in
        let same =
          some-injective _ _
            (sym (switch_whole (case_of (b.byte 1)) b sz_in c status bytes room big w long) ∙ e) in
        inr (ap (λ (t : Switched). t.status) same, ap (λ (t : Switched). t.len_data) same)
  ]

  whole_packet :
      pkt_verify (some b) sz_in ≡ some (pos 0)
      → IsWhole b.byte sz_in
      → Handled b sz_in
          (status_of force_fail c.rand 0)
          out
          sz_out
          (process_packet force_fail b sz_in c (b.byte 1) (count_of b.byte) start)
  unfolding process_packet conclude
  whole_packet good w =
      let status = status_of force_fail c.rand 0 in
      let s = switch_total (case_of (b.byte 1)) b sz_in c status bytes room big in
      rw (good, s.1)
        (elim (Bool-cases (is_supported (case_of (b.byte 1)))) [
          | inl k ↦
              concluded s.0 w (asked_by s.0 w s.1) k (s.2 ∙ k) s.3
                (omega (arith, s.4, status_of-lt force_fail c.rand 0))
          | inr k ↦ refused w.0 k (rw (s.2 ∙ k))
        ])

  broken_packet :
      pkt_verify (some b) sz_in ≡ some (negsuc 0)
      → 7 + count_of b.byte ≤ sz_in
      → ¬ IsWhole b.byte sz_in
      → Handled b sz_in
          (status_of force_fail c.rand 0)
          out
          sz_out
          (process_packet force_fail b sz_in c (b.byte 1) (count_of b.byte) start)
  unfolding process_packet conclude
  broken_packet bad fits w =
      let status = status_of force_fail c.rand 2 in
      let s = switch_total (case_of (b.byte 1)) b sz_in c status bytes room big in
      rw (bad, s.1)
        (elim (Bool-cases (is_supported (case_of (b.byte 1)))) [
          | inl k ↦ damaged fits w k (rw (s.2 ∙ k))
          | inr k ↦ refused fits k (rw (s.2 ∙ k))
        ])

  packet-Handled :
      7 + count_of b.byte ≤ sz_in
      → Handled b sz_in
          (status_of force_fail c.rand 0)
          out
          sz_out
          (process_packet force_fail b sz_in c (b.byte 1) (count_of b.byte) start)
  packet-Handled fits = elim (pkt_verify_cases b sz_in bytes room) [
    | inl good ↦ whole_packet good.0 good.1
    | inr bad ↦ broken_packet bad.0 fits bad.1
  ]

  counted-Handled :
      7 ≤ sz_in
      → Handled b sz_in
          (status_of force_fail c.rand 0)
          out
          sz_out
          (process_counted force_fail b sz_in c (b.byte 1) (pos 0) (count_of b.byte) start)
  unfolding process_counted
  counted-Handled long = elim (Bool-cases (ltb sz_in (7 + count_of b.byte))) [
    | inl short ↦ rw short (wants_data long (ltb→lt _ _ short) refl)
    | inr fits ↦ rw fits (packet-Handled (ltb→le _ _ fits))
  ]

  sized-Handled :
      Handled b sz_in
        (status_of force_fail c.rand 0)
        out
        sz_out
        (process_sized force_fail b sz_in c start)
  unfolding process_sized process_header
  sized-Handled = elim (Bool-cases (ltb sz_in 7)) [
    | inl short ↦ rw short (wants_header (ltb→lt _ _ short) refl)
    | inr long ↦
        rw
          (
            long,
            read_hdr_command_lem b sz_in 0 (omega (arith, ltb→le _ _ long)) room,
            read_hdr_count_lem b sz_in 0 bytes (omega (arith, ltb→le _ _ long)) room,
          )
          (counted-Handled (ltb→le _ _ long))
  ]

-- Whatever bytes were received, and whatever chance brings, a call with pointers to all its results
-- returns, never reads or writes outside its buffers, and has one of these outcomes: it asks for
-- exactly the missing bytes of the header or of the packet; it refuses an unknown command with -1 or
-- a damaged packet with 2; it asks for exactly the missing room in `buffer_out`; or it takes one
-- whole packet from the input and leaves a reply, as `Replied` has it.
pub svr_process_tcp-Handled :
    (force_fail : Bool) (b : Buffer) (sz_in : ℕ) (c : Chance) (out : Buffer)
    (sz_out processed needed_in needed_out : ℕ)
    → IsBytes b.byte
    → sz_in ≤ b.cap
    → sz_in < 2 ^ 64
    → sz_out ≤ out.cap
    → Handled b sz_in (status_of force_fail c.rand 0) out sz_out (
        svr_process_tcp force_fail
          (some b)
          sz_in
          c
          (shown out sz_out processed needed_in needed_out))
unfolding svr_process_tcp
svr_process_tcp-Handled force_fail b sz_in c out sz_out processed needed_in needed_out bytes room
      big room_out =
    sized-Handled force_fail b sz_in c out sz_out bytes room big room_out
