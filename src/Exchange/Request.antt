-- ===== src/Exchange/Request.antt =====
-- What the device reads from the requests that the builders of src/libedio24.c write.
use libedio.Base.{ℕ, ◌+◌, ◌%◌, ◌^◌, ◌≤◌, ◌<◌, ◌≡◌, ◌∙◌, ap, arith, some}
use libedio.Base.{inl, inr, sym, Bool, true, Buffer, IsBytes, pos}
use libedio.Packet.Create.{create_cmd_doutw}
use libedio.Packet.Request.{Request, Fits, build, opcode, data_count, payload, doutw}
use libedio.Packet.Request.Written.{Builds}
use libedio.Packet.Request.Builds.{build-Builds}
use libedio.Packet.Verify.{pkt_verify}
use libedio.Packet.Verify.Laws.{
  count_of, IsWhole, IsPacket-IsWhole, count_of-IsPacket, pkt_verify-whole,
}
use libedio.Packet.Read.{read_value}
use libedio.Packet.Read.Laws.{read_value_lem}
use libedio.Server.Tcp.{Result, Pointers, Chance, case_of, svr_process_tcp, status_of}
use libedio.Server.Tcp.Laws.{is_supported, answer_to}
use libedio.Server.Tcp.Process.{
  shown, Handled, wants_header, wants_data, refused, damaged, wants_room, served,
  svr_process_tcp-Handled,
}

module _ (r : Request) (b : Buffer) (sz_buf frame : ℕ) (bytes : IsBytes b.byte) (h : frame < 256)
    (fits : Fits r sz_buf b) (small : data_count r < 2 ^ 16) where
  abbrev built :
      Builds (build r (some b) sz_buf (some frame)) b frame (opcode r) (data_count r) (payload r)
  built = build-Builds r b sz_buf frame bytes h fits

  -- the buffer after the builder
  abbrev pub sent : Buffer
  sent = record b { byte = built.m }

  sent-IsWhole : (sz_in : ℕ) → 7 + data_count r ≤ sz_in → IsWhole sent.byte sz_in
  sent-IsWhole sz_in long = IsPacket-IsWhole (data_count r) sz_in small long built.packet

  sent-count : count_of sent.byte ≡ data_count r
  sent-count = count_of-IsPacket (data_count r) small built.packet

  -- Every packet with fewer than 2 ^ 16 data bytes that a request builder writes, into a buffer
  -- that it fits, passes the verification, also with more bytes behind it.
  pub build-pkt_verify :
      (sz_in : ℕ)
      → 7 + data_count r ≤ sz_in
      → sz_in ≤ b.cap
      → (m : ℕ → ℕ) × (build r (some b) sz_buf (some frame)
          ≡ some (record {
            ret = pos (7 + data_count r);
            buffer = some (record b { byte = m });
            frame_id = some ((frame + 1) % 256);
          }))
        × (pkt_verify (some (record b { byte = m })) sz_in ≡ some (pos 0))
  build-pkt_verify sz_in long room = (
    built.m,
    built.returns,
    pkt_verify-whole sent sz_in built.bytes room (sent-IsWhole sz_in long),
  )

  module _ (force_fail : Bool) (c : Chance) (out : Buffer) (sz_in sz_out : ℕ) (long : 11 ≤ sz_in)
      (whole : 7 + data_count r ≤ sz_in) (room : sz_in ≤ b.cap) (big : sz_in < 2 ^ 64)
      (room_out : sz_out ≤ out.cap) (much : 7 + 2 ^ 16 ≤ sz_out)
      (known : is_supported (case_of (opcode r)) ≡ true) where
    answered :
        (result : Result)
        → Handled sent sz_in (status_of force_fail c.rand 0) out sz_out result
        → (p : Pointers) × (result ≡ some (pos 0, p))
          × (p.sz_processed ≡ some (7 + data_count r))
          × (p.sz_out
              ≡ some (
                  7
                  + (answer_to
                      (case_of (opcode r))
                      sent.byte
                      (status_of force_fail c.rand 0)).len_data))
    answered result (wants_header short e) = absurd (omega arith)
    answered result (wants_data least short e) = absurd (omega (arith, sent-count))
    answered result (refused fits unknown e) = absurd (cc (built.packet.command, known, unknown))
    answered result (damaged fits broken k e) = absurd (broken (sent-IsWhole sz_in whole))
    answered result (wants_room status len w asked k few short e) = absurd (omega arith)
    answered result (served status len w asked k fits' st reply) =
        let answer = answer_to (case_of (sent.byte 1)) sent.byte (status_of force_fail c.rand 0) in
        let found : (answer.status ≡ status) × (answer.len_data ≡ len) = elim asked [
          | inl few ↦ absurd (omega (arith, few.0))
          | inr both ↦ both
        ] in
        (
          _,
          reply.returns,
          ap (λ (n : ℕ). some (7 + n)) sent-count,
          ap (λ (n : ℕ). some (7 + n)) (sym (rw built.packet.command at found).1),
        )

    -- What a builder writes for a command that the device knows, with fewer than 2 ^ 16 data
    -- bytes and into a buffer that the packet fits, is taken from the input whole where the
    -- packet and at least eleven bytes were received, and there is room for any reply, at least
    -- 7 + 2 ^ 16 bytes: the call returns 0, counts exactly the packet as processed, and leaves
    -- a reply of the size that the request asks for.
    pub build-svr_process_tcp :
        (processed needed_in needed_out : ℕ)
        → (m : ℕ → ℕ) × (build r (some b) sz_buf (some frame)
            ≡ some (record {
              ret = pos (7 + data_count r);
              buffer = some (record b { byte = m });
              frame_id = some ((frame + 1) % 256);
            }))
          × (p : Pointers) × (svr_process_tcp force_fail
                (some (record b { byte = m }))
                sz_in
                c
                (shown out sz_out processed needed_in needed_out)
              ≡ some (pos 0, p))
          × (p.sz_processed ≡ some (7 + data_count r))
          × (p.sz_out
              ≡ some
                  (7 + (answer_to (case_of (opcode r)) m (status_of force_fail c.rand 0)).len_data))
    build-svr_process_tcp processed needed_in needed_out =
        let a = answered _ (
          svr_process_tcp-Handled force_fail sent sz_in c out sz_out processed needed_in needed_out
            built.bytes room big room_out) in
        (built.m, built.returns, a.0, a.1, a.2, a.3)

-- The device reads back the 24 bits of the mask and of the value that a client writes to the pins.
pub create_cmd_doutw-read_value :
    (b : Buffer) (sz_buf frame mask value old : ℕ)
    → IsBytes b.byte
    → frame < 256
    → 13 ≤ sz_buf
    → sz_buf ≤ b.cap
    → sz_buf < 2 ^ 64
    → (m : ℕ → ℕ) × (create_cmd_doutw (some b) sz_buf (some frame) mask value
        ≡ some (record {
          ret = pos 13;
          buffer = some (record b { byte = m });
          frame_id = some ((frame + 1) % 256);
        }))
      × (read_value (some (record b { byte = m })) sz_buf 0 3 (some old)
          ≡ some (pos 0, some (mask % 2 ^ 24)))
      × (read_value (some (record b { byte = m })) sz_buf 3 3 (some old)
          ≡ some (pos 0, some (value % 2 ^ 24)))
unfolding build
create_cmd_doutw-read_value b sz_buf frame mask value old bytes h fits room big =
    let built = build-Builds (doutw mask value) b sz_buf frame bytes h (fits, room) in
    let sent = record b { byte = built.m } in
    let whole : IsWhole built.m sz_buf =
      IsPacket-IsWhole 6 sz_buf (omega arith) (omega arith) built.packet in
    let at = λ (i : ℕ) (k : i < 6). built.content i k in
    (
      built.m,
      built.returns,
      read_value_lem sent sz_buf 0 3 old built.bytes room big whole (omega arith) (omega arith)
          ∙ ap (λ (n : ℕ). some (pos 0, some n))
              (omega (arith, at 0 (omega arith), at 1 (omega arith), at 2 (omega arith))),
      read_value_lem sent sz_buf 3 3 old built.bytes room big whole (omega arith) (omega arith)
          ∙ ap (λ (n : ℕ). some (pos 0, some n))
              (omega (arith, at 3 (omega arith), at 4 (omega arith), at 5 (omega arith))),
    )
