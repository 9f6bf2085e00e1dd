-- ===== src/Packet/Format.antt =====
-- The packet format of the E-DIO24 protocol, and the shared end of the builders of src/libedio24.c.
use libedio.Base.{ℕ, ◌+◌, ◌-◌, ◌/◌, ◌%◌, ◌≤◌, ◌<◌, ◌≡◌, ◌∙◌, arith, some}
use libedio.Base.{Buffer, update, write_all, store_lem, store_all_lem, pos}
use libedio.Protocol.{msg_start}
use libedio.Packet.Checksum.{byte_sum, pkt_checksum_lem, byte_sum-update, byte_sum-agree}
use libedio.Packet.Frame.{seal, header, finish, retag}

-- A packet with `count` data bytes: start, command, frame, status, the count in two bytes, the
-- data, and a byte that brings the sum of all to 255 modulo 256.
pub record IsPacket (m : ℕ → ℕ) (cmd frame status count : ℕ) : Type 0 where
  pub start : m 0 ≡ msg_start
  pub command : m 1 ≡ cmd
  pub frame_byte : m 2 ≡ frame
  pub status_byte : m 3 ≡ status
  pub count_low : m 4 ≡ count % 256
  pub count_high : m 5 ≡ count / 256 % 256
  pub sum : m (6 + count) + byte_sum m 0 (6 + count) % 256 ≡ 255

-- memory after `seal` at `n`
abbrev pub sealed : (ℕ → ℕ) → ℕ → ℕ → ℕ
sealed m n = update m n ((255 - byte_sum m 0 n % 256) % 256)

-- memory after `finish` with `count` data bytes
abbrev pub framed : (ℕ → ℕ) → ℕ → ℕ → ℕ → ℕ
framed m frame count = sealed (write_all m (header frame count)) (6 + count)

pub seal_lem :
    (b : Buffer) (n : ℕ) → n < b.cap → seal b n ≡ some (record b { byte = sealed b.byte n })
unfolding seal
seal_lem b n h =
    rw (pkt_checksum_lem b n (omega arith), store_lem b n (255 - byte_sum b.byte 0 n % 256) h)

pub sealed-sum : (m : ℕ → ℕ) (n : ℕ) → sealed m n n + byte_sum (sealed m n) 0 n % 256 ≡ 255
sealed-sum m n =
    ground (arith, byte_sum-update m 0 n n ((255 - byte_sum m 0 n % 256) % 256) (omega arith))

-- The shared end of the builders does not fault where the packet fits.
pub finish_lem :
    (b : Buffer) (frame count : ℕ)
    → 7 + count ≤ b.cap
    → finish b frame count
      ≡ some (record {
        ret = pos (7 + count);
        buffer = some (record b { byte = framed b.byte frame count });
        frame_id = some ((frame + 1) % 256);
      })
unfolding finish
finish_lem b frame count h = rw (
  store_all_lem b (header frame count) (omega arith),
  seal_lem (record b { byte = write_all b.byte (header frame count) }) (6 + count) (omega arith),
)

pub framed-IsPacket :
    (m : ℕ → ℕ) (frame count : ℕ)
    → frame < 256
    → IsPacket (framed m frame count) (m 1) frame 0 count
framed-IsPacket m frame count h = record {
  start = ground arith;
  command = ground arith;
  frame_byte = ground arith;
  status_byte = ground arith;
  count_low = ground arith;
  count_high = ground arith;
  sum = sealed-sum (write_all m (header frame count)) (6 + count);
}

-- The data, and what stands behind the packet, are left alone.
pub framed-data :
    (m : ℕ → ℕ) (frame count i : ℕ) → i < count → framed m frame count (6 + i) ≡ m (6 + i)
framed-data m frame count i h = ground arith

pub framed-behind : (m : ℕ → ℕ) (frame count i : ℕ) → 6 + count < i → framed m frame count i ≡ m i
framed-behind m frame count i h = ground arith

-- memory after `retag`
abbrev pub retagged : (ℕ → ℕ) → ℕ → ℕ → ℕ → ℕ
retagged m cmd count = sealed (update m 1 (cmd % 256)) (6 + count)

pub retag_lem :
    (b : Buffer) (cmd count frame : ℕ)
    → 7 + count ≤ b.cap
    → retag cmd (record { ret = pos (7 + count); buffer = some b; frame_id = some frame })
      ≡ some (record {
        ret = pos (7 + count);
        buffer = some (record b { byte = retagged b.byte cmd count });
        frame_id = some frame;
      })
unfolding retag
retag_lem b cmd count frame h =
    let e : 7 + count - 1 ≡ 6 + count = omega arith in
    rw (
      store_lem b 1 cmd (omega arith),
      e,
      seal_lem (record b { byte = update b.byte 1 (cmd % 256) }) (6 + count) (omega arith),
    )

-- A packet of another command is a packet of the new one: only the command and the sum change.
pub retagged-IsPacket :
    (m : ℕ → ℕ) (old cmd frame status count : ℕ)
    → cmd < 256
    → IsPacket m old frame status count
    → IsPacket (retagged m cmd count) cmd frame status count
retagged-IsPacket m old cmd frame status count h p = record {
  start = ground arith;
  command = ground arith;
  frame_byte = ground arith;
  status_byte = ground arith;
  count_low = ground arith;
  count_high = ground arith;
  sum = sealed-sum (update m 1 (cmd % 256)) (6 + count);
}

pub retagged-data :
    (m : ℕ → ℕ) (cmd count i : ℕ) → i < count → retagged m cmd count (6 + i) ≡ m (6 + i)
retagged-data m cmd count i h = ground arith

pub retagged-behind : (m : ℕ → ℕ) (cmd count i : ℕ) → 6 + count < i → retagged m cmd count i ≡ m i
retagged-behind m cmd count i h = ground arith

-- A copy of a packet is a packet.
pub agree-IsPacket :
    (m m' : ℕ → ℕ) (cmd frame status count : ℕ)
    → ((i : ℕ) → i < 7 + count → m' i ≡ m i)
    → IsPacket m cmd frame status count
    → IsPacket m' cmd frame status count
agree-IsPacket m m' cmd frame status count same_bytes p = record {
  start = same_bytes 0 (omega arith) ∙ p.start;
  command = same_bytes 1 (omega arith) ∙ p.command;
  frame_byte = same_bytes 2 (omega arith) ∙ p.frame_byte;
  status_byte = same_bytes 3 (omega arith) ∙ p.status_byte;
  count_low = same_bytes 4 (omega arith) ∙ p.count_low;
  count_high = same_bytes 5 (omega arith) ∙ p.count_high;
  sum = omega (
    arith,
    p.sum,
    same_bytes (6 + count) (omega arith),
    byte_sum-agree m m' 0 (6 + count) (λ k h. same_bytes k (omega arith)),
  );
}
