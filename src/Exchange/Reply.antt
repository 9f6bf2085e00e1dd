-- ===== src/Exchange/Reply.antt =====
-- What the client of src/libedio24.c makes of the device's replies.
use libedio.Base.{ℕ, ◌+◌, ◌%◌, ◌≤◌, ◌<◌, ◌≡◌, ◌∙◌, ap, arith, Option, some}
use libedio.Base.{true, Buffer, IsBytes, ℤ, pos}
use libedio.Packet.Format.{IsPacket}
use libedio.Packet.Verify.Laws.{count_of, IsWhole, IsPacket-IsWhole, count_of-IsPacket}
use libedio.Server.Tcp.{Pointers, reply}
use libedio.Server.Tcp.Laws.{complete, headless, reply-Replied}
use libedio.Client.Tcp.{Progress, cli_verify_tcp, case_of}
use libedio.Client.Tcp.Laws.{
  is_supported, shown, Checked, wants_header, wants_data, damaged, refused, accepted,
  cli_verify_tcp-Checked,
}

-- A whole reply to a command that the client knows is accepted.
accept :
    (b : Buffer) (sz_in cmd count : ℕ) (r : Option (ℤ × Progress))
    → IsWhole b.byte sz_in
    → b.byte 1 % 128 ≡ cmd
    → count_of b.byte ≡ count
    → is_supported (case_of cmd) ≡ true
    → Checked b sz_in r
    → r ≡ some (pos 0, shown (7 + count) 0)
accept b sz_in cmd count r w e n known (wants_header short q) = absurd (omega arith)
accept b sz_in cmd count r w e n known (wants_data least short q) = absurd (omega arith)
accept b sz_in cmd count r w e n known (damaged fits broken q) = absurd (broken w)
accept b sz_in cmd count r w e n known (refused w' unknown q) = absurd (cc (e, known, unknown))
accept b sz_in cmd count r w e n known (accepted w' k q) =
    q ∙ ap (λ (c : ℕ). some (pos 0, shown (7 + c) 0)) n

-- The device's reply with at most one data byte to a command that the client knows comes back to
-- the client whole: the client, which has received exactly the reply, returns 0 and takes all of it.
pub reply-cli_verify_tcp :
    (b out : Buffer) (cmd count status len : ℕ) (p : Pointers)
    → IsBytes b.byte
    → IsBytes out.byte
    → 3 ≤ b.cap
    → 18 ≤ out.cap
    → len < 2
    → cmd < 128
    → status < 256
    → is_supported (case_of cmd) ≡ true
    → (m : ℕ → ℕ) × (reply b cmd count status len (some out) p
        ≡ some (
          pos 0,
          record p {
            buffer_out = some (record out { byte = m });
            sz_processed = some (7 + count);
            sz_out = some (7 + len);
          },
        ))
      × ((processed needed_in : ℕ)
          → cli_verify_tcp (some (record out { byte = m })) (7 + len) (shown processed needed_in)
            ≡ some (pos 0, shown (7 + len) 0))
reply-cli_verify_tcp b out cmd count status len p bytes bytes_out room room_out few low st known =
    let d =
      reply-Replied b out cmd count status len p bytes room (omega arith) (omega arith) low st in
    let got = record out { byte = d.m } in
    let packet : IsPacket d.m (cmd + 128) (b.byte 2) status len = elim d.content [
      | complete _ q ↦ q
      | headless many _ _ ↦ absurd (omega arith)
    ] in
    let whole : IsWhole d.m (7 + len) =
      IsPacket-IsWhole len (7 + len) (omega arith) (omega arith) packet in
    (
      d.m,
      d.returns,
      λ processed needed_in.
          accept got (7 + len) cmd len _ whole (omega (arith, packet.command))
            (count_of-IsPacket len (omega arith) packet) known
            (cli_verify_tcp-Checked got (7 + len) processed needed_in (d.bytes bytes_out)
              (omega arith) (omega arith) room_out),
    )
