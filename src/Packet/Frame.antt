-- ===== src/Packet/Frame.antt =====
-- What the packet builders of src/libedio24.c share: the header that each writes, the checksum at
-- the end, and the change of the command byte by which one builder serves several commands.
use libedio.Base.{ℕ, ◌+◌, ◌-◌, ◌/◌, ◌%◌, ◌^◌, Option, none, some, List, [], ◌∷◌}
use libedio.Base.{Buffer, store, store_all, ℤ, pos, negsuc, ◌>>=◌}
use libedio.Protocol.{
  msg_success, msg_index_start, msg_index_command, msg_index_frame, msg_index_status,
  msg_index_count_low, msg_index_count_high, msg_index_data, msg_start,
}
use libedio.Packet.Checksum.{pkt_checksum}

-- What a builder returns, and what its pointers show then.
pub record Created : Type 0 where
  pub ret : ℤ
  pub buffer : Option Buffer
  pub frame_id : Option ℕ

-- return -1
abbrev pub reject : Option Buffer → Option ℕ → Option Created
reject buffer frame_id = some (record { ret = negsuc 0; buffer = buffer; frame_id = frame_id })

-- x & 0xFF
abbrev pub low_byte : ℕ → ℕ
low_byte x = x % 2 ^ 8

-- (x >> k) & 0xFF
abbrev pub byte_from : ℕ → ℕ → ℕ
byte_from k x = x / 2 ^ k % 2 ^ 8

-- buffer[n] = (unsigned char) 0xff - edio24_pkt_checksum (buffer, n)
unfoldable pub seal : Buffer → ℕ → Option Buffer
seal b n = do checksum ← pkt_checksum b n; store b n (0xff - checksum)

-- the assignments of the start, frame, status and count bytes, which every builder makes
abbrev pub header : ℕ → ℕ → List (ℕ × ℕ)
header frame data_count =
    (msg_index_start, msg_start)
    ∷ (msg_index_frame, frame)
    ∷ (msg_index_status, msg_success)
    ∷ (msg_index_count_low, low_byte data_count)
    ∷ (msg_index_count_high, byte_from 8 data_count)
    ∷ []

-- the end of a builder: the header, the checksum, (*frame_id)++, and the size of the packet
unfoldable pub finish : Buffer → ℕ → ℕ → Option Created
unfolding seal
finish b frame data_count = do
  b₁ ← store_all b (header frame data_count)
  b₂ ← seal b₁ (msg_index_data + data_count)
  some (record {
    ret = pos (msg_index_data + 1 + data_count);
    buffer = some b₂;
    frame_id = some ((frame + 1) % 256);
  })

-- What the builders of one shape do to the packet of another: nothing where that was refused, else
-- buffer[MSG_INDEX_COMMAND] = cmd, and the checksum anew at buffer[ret - 1].
unfoldable pub retag_result : ℕ → ℤ → Option Buffer → Option ℕ → Option Created
retag_result cmd (negsuc n) buffer frame_id =
    some (record { ret = negsuc n; buffer = buffer; frame_id = frame_id })
retag_result cmd (pos n) none frame_id = none
retag_result cmd (pos n) (some b) frame_id = do
  b₁ ← store b msg_index_command cmd
  b₂ ← seal b₁ (n - 1)
  some (record { ret = pos n; buffer = some b₂; frame_id = frame_id })

unfoldable pub retag : ℕ → Created → Option Created
unfolding retag_result
retag cmd c = retag_result cmd c.ret c.buffer c.frame_id
