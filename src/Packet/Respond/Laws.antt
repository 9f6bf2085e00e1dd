-- ===== src/Packet/Respond/Laws.antt =====
-- The reply that edio24_pkt_create_respond of src/libedio24.c writes.
use mathlib.Core.Path.{fun_ext}
use libedio.Base.{ℕ, zero, suc, ◌+◌, ◌-◌, ◌%◌, ◌^◌, ◌≤◌, ◌<◌, ◌≡◌, refl, ◌∙◌, ap, arith, bit_or}
use libedio.Base.{
  passes_from, passes_from-elem, Option, some, Buffer, IsBytes, copied, copied-IsBytes,
  update-IsBytes, write_all, write_all-IsBytes,
}
use libedio.Base.{
  store_all_lem, memmove_lem, le→ltb, lt→ltb, true, ◌==◌, pos, negsuc, List, [], ◌∷◌,
}
use libedio.Protocol.{msg_start, msg_reply}
use libedio.Packet.Frame.{low_byte, byte_from}
use libedio.Packet.Format.{IsPacket, sealed, seal_lem, sealed-sum}
use libedio.Packet.Respond.{respond_header, respond_data, create_respond}

abbrev reply_head : ℕ → ℕ → ℕ → ℕ → List (ℕ × ℕ)
reply_head cmd frame_id status count =
    (0, msg_start)
    ∷ (1, bit_or cmd msg_reply)
    ∷ (2, frame_id)
    ∷ (3, status)
    ∷ (4, low_byte count)
    ∷ (5, byte_from 8 count)
    ∷ []

-- memory after a reply with `count` bytes from `src`
abbrev pub replied : (ℕ → ℕ) → ℕ → ℕ → ℕ → ℕ → (ℕ → ℕ) → ℕ → ℕ
replied m cmd frame_id status count src =
    sealed (write_all (copied m 6 src count) (reply_head cmd frame_id status count)) (6 + count)

-- The command byte with its reply bit, by all its values.
reply_table : passes_from (λ x. bit_or x 0x80 == x + 128) 0 128 ≡ true
unfolding passes_from
reply_table = refl

-- A command below 128 has its reply in the upper half.
pub bit_or-msg_reply : (cmd : ℕ) → cmd < 128 → bit_or cmd msg_reply ≡ cmd + 128
bit_or-msg_reply cmd h = ground (
  arith,
  passes_from-elem (λ x. bit_or x 0x80 == x + 128) 0 128 cmd (omega arith) (omega arith)
      reply_table,
)

respond_header_lem :
    (b : Buffer) (cmd frame_id status count : ℕ)
    → 7 + count ≤ b.cap
    → respond_header b cmd frame_id status count
      ≡ some (
        pos (7 + count),
        some (record b {
          byte = sealed (write_all b.byte (reply_head cmd frame_id status count)) (6 + count);
        }),
      )
unfolding respond_header
respond_header_lem b cmd frame_id status count h = rw (
  store_all_lem b (reply_head cmd frame_id status count) (omega arith),
  seal_lem (record b { byte = write_all b.byte (reply_head cmd frame_id status count) }) (6 + count)
      (omega arith),
)

respond_data_lem :
    (b src : Buffer) (cmd frame_id status count : ℕ)
    → 7 + count ≤ b.cap
    → count ≤ src.cap
    → respond_data b cmd frame_id status count (some src)
      ≡ some (
        pos (7 + count),
        some (record b { byte = replied b.byte cmd frame_id status count src.byte }),
      )
unfolding respond_data
respond_data_lem b src cmd frame_id status zero h k =
    let e : b.byte ≡ copied b.byte 6 src.byte 0 = fun_ext (λ j. ground arith) in
    respond_header_lem b cmd frame_id status 0 h
    ∙ ap
        (λ (m : ℕ → ℕ). some (
          pos 7,
          some (record b { byte = sealed (write_all m (reply_head cmd frame_id status 0)) 6 }),
        ))
        e
respond_data_lem b src cmd frame_id status (suc n) h k =
    rw (memmove_lem b 6 src (suc n) (omega arith) k) (
      respond_header_lem (record b { byte = copied b.byte 6 src.byte (suc n) }) cmd frame_id status
        (suc n) h)

-- With room for it in `sz_out` and in the buffer, the reply is written.
pub create_respond_lem :
    (b src : Buffer) (sz_out cmd frame_id status count : ℕ)
    → 7 + count ≤ sz_out
    → 7 + count ≤ b.cap
    → sz_out < 2 ^ 64
    → count ≤ src.cap
    → create_respond (some b) sz_out cmd frame_id status count (some src)
      ≡ some (
        pos (7 + count),
        some (record b { byte = replied b.byte cmd frame_id status count src.byte }),
      )
unfolding create_respond
create_respond_lem b src sz_out cmd frame_id status count fits room big there =
    let e : (6 + 1 + count) % 2 ^ 64 ≡ 7 + count = omega arith in
    rw (e, le→ltb sz_out (7 + count) fits)
      (respond_data_lem b src cmd frame_id status count room there)

-- Without room in `sz_out` nothing is written.
pub create_respond-short :
    (b : Buffer) (src : Option Buffer) (sz_out cmd frame_id status count : ℕ)
    → sz_out < 7 + count
    → 7 + count < 2 ^ 64
    → create_respond (some b) sz_out cmd frame_id status count src ≡ some (negsuc 0, some b)
unfolding create_respond
create_respond-short b src sz_out cmd frame_id status count short big =
    let e : (6 + 1 + count) % 2 ^ 64 ≡ 7 + count = omega arith in
    rw (e, lt→ltb sz_out (7 + count) short)

-- What was written is a packet with the command's reply bit set.
pub replied-IsPacket :
    (m : ℕ → ℕ) (cmd frame_id status count : ℕ) (src : ℕ → ℕ)
    → cmd < 128
    → frame_id < 256
    → status < 256
    → IsPacket (replied m cmd frame_id status count src) (cmd + 128) frame_id status count
replied-IsPacket m cmd frame_id status count src h k l = record {
  start = ground arith;
  command = ground (arith, bit_or-msg_reply cmd h);
  frame_byte = ground arith;
  status_byte = ground arith;
  count_low = ground arith;
  count_high = ground arith;
  sum =
      sealed-sum (write_all (copied m 6 src count) (reply_head cmd frame_id status count))
        (6 + count);
}

pub replied-IsBytes :
    (m : ℕ → ℕ) (cmd frame_id status count : ℕ) (src : ℕ → ℕ)
    → IsBytes m
    → IsBytes src
    → IsBytes (replied m cmd frame_id status count src)
replied-IsBytes m cmd frame_id status count src bytes source =
    update-IsBytes (write_all (copied m 6 src count) (reply_head cmd frame_id status count))
      (6 + count) _
      (write_all-IsBytes (copied m 6 src count) (reply_head cmd frame_id status count)
        (copied-IsBytes m 6 src count bytes source))
      (omega arith)

pub replied-data :
    (m : ℕ → ℕ) (cmd frame_id status count : ℕ) (src : ℕ → ℕ) (i : ℕ)
    → i < count
    → replied m cmd frame_id status count src (6 + i) ≡ src i
replied-data m cmd frame_id status count src i h =
    let e : 6 + i - 6 ≡ i = omega arith in ground (arith, ap src e)
