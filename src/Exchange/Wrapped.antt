-- ===== src/Exchange/Wrapped.antt =====
-- The memory writes of src/libedio24.c whose data count does not fit the sixteen bits of the header:
-- edio24_pkt_create_cmd_confmemw adds 2 to a uint16_t.
use libedio.Base.{ℕ, ◌+◌, ◌%◌, ◌^◌, ◌≤◌, ◌<◌, ◌≡◌, refl, arith, some, Bool, Buffer, IsBytes, ℤ, pos}
use libedio.Packet.Request.{Request, Fits, build, opcode, data_count, payload}
use libedio.Packet.Request.Written.{Builds}
use libedio.Packet.Request.Builds.{build-Builds}
use libedio.Packet.Verify.Laws.{count_of}
use libedio.Server.Tcp.{Result, Pointers, Chance, svr_process_tcp, status_of}
use libedio.Server.Tcp.Process.{
  shown, Handled, wants_header, wants_data, refused, damaged, wants_room, served,
  svr_process_tcp-Handled,
}

-- A call that takes at most one data byte from its input.
abbrev pub TakesLittle : Result → Type 0
TakesLittle result =
    (ret : ℤ) × (p : Pointers) × (result ≡ some (ret, p))
    × (n : ℕ) × (p.sz_processed ≡ some n)
    × (n ≤ 8)

Handled-TakesLittle :
    (b : Buffer) (sz_in asked : ℕ) (out : Buffer) (sz_out : ℕ) (result : Result)
    → count_of b.byte < 2
    → Handled b sz_in asked out sz_out result
    → TakesLittle result
Handled-TakesLittle b sz_in asked out sz_out result few h = elim h [
  | wants_header short e ↦ (_, _, e, 0, refl, omega arith)
  | wants_data least short e ↦ (_, _, e, 0, refl, omega arith)
  | refused fits unknown e ↦ (_, _, e, 0, refl, omega arith)
  | damaged fits broken k e ↦ (_, _, e, 0, refl, omega arith)
  | wants_room status len w a k small short e ↦ (_, _, e, 0, refl, omega arith)
  | served status len w a k fits st reply ↦
      (_, _, reply.returns, 7 + count_of b.byte, refl, omega arith)
]

-- A request with 2 ^ 16 data bytes or one more, which is a memory write of 65534 or 65535 bytes, is
-- built without complaint into a buffer that it fits; but the count in its header is 0 or 1, and
-- the device, however many bytes of the packet it has received, returns from its call and has taken
-- at most eight of them.
pub build-wraps :
    (r : Request) (b : Buffer) (sz_buf frame : ℕ) (force_fail : Bool) (c : Chance) (out : Buffer)
    (sz_in sz_out processed needed_in needed_out : ℕ)
    → IsBytes b.byte
    → frame < 256
    → Fits r sz_buf b
    → 2 ^ 16 ≤ data_count r
    → data_count r < 2 ^ 16 + 2
    → sz_in ≤ b.cap
    → sz_in < 2 ^ 64
    → sz_out ≤ out.cap
    → (m : ℕ → ℕ) × (build r (some b) sz_buf (some frame)
        ≡ some (record {
          ret = pos (7 + data_count r);
          buffer = some (record b { byte = m });
          frame_id = some ((frame + 1) % 256);
        }))
      × (count_of m + 2 ^ 16 ≡ data_count r)
      × TakesLittle (
          svr_process_tcp force_fail
            (some (record b { byte = m }))
            sz_in
            c
            (shown out sz_out processed needed_in needed_out))
build-wraps r b sz_buf frame force_fail c out sz_in sz_out processed needed_in needed_out bytes h
      fits wide least room big room_out =
    let built : Builds (build r (some b) sz_buf (some frame)) b frame (opcode r) (data_count r)
        (payload r) =
      build-Builds r b sz_buf frame bytes h fits in
    let wrapped : count_of built.m + 2 ^ 16 ≡ data_count r =
      omega (arith, built.packet.count_low, built.packet.count_high) in
    (
      built.m,
      built.returns,
      wrapped,
      Handled-TakesLittle (record b { byte = built.m }) sz_in (status_of force_fail c.rand 0) out
          sz_out _ (omega (arith, wrapped))
          (svr_process_tcp-Handled force_fail (record b { byte = built.m }) sz_in c out sz_out
            processed needed_in needed_out built.bytes room big room_out),
    )
