-- ===== src/Packet/Respond.antt =====
-- edio24_pkt_create_respond of src/libedio24.c: the device's reply to a command.
pub mod Laws
use libedio.Base.{ℕ, zero, suc, ◌+◌, ◌-◌, ◌%◌, ◌^◌, Option, none, some, [], ◌∷◌, bit_or}
use libedio.Base.{Buffer, store_all, memmove, ℤ, pos, negsuc, ltb, if◌then◌else◌, ◌>>=◌}
use libedio.Protocol.{
  msg_index_start, msg_index_command, msg_index_frame, msg_index_status, msg_index_count_low,
  msg_index_count_high, msg_index_data, msg_start, msg_reply,
}
use libedio.Packet.Frame.{low_byte, byte_from, seal}

-- The header, the checksum and the size, after the data were moved.
respond_header : Buffer → ℕ → ℕ → ℕ → ℕ → Option (ℤ × Option Buffer)
respond_header b cmd frame_id status data_count = do
  b₁ ← store_all b (
      (msg_index_start, msg_start)
      ∷ (msg_index_command, bit_or cmd msg_reply)
      ∷ (msg_index_frame, frame_id)
      ∷ (msg_index_status, status)
      ∷ (msg_index_count_low, low_byte data_count)
      ∷ (msg_index_count_high, byte_from 8 data_count)
      ∷ [])
  b₂ ← seal b₁ (msg_index_data + data_count)
  some (pos (msg_index_data + 1 + data_count), some b₂)

-- `if (data_count_respond > 0)`, with the test of `buffer_data` inside
respond_data : Buffer → ℕ → ℕ → ℕ → ℕ → Option Buffer → Option (ℤ × Option Buffer)
unfolding respond_header
respond_data b cmd frame_id status zero buffer_data = respond_header b cmd frame_id status 0
respond_data b cmd frame_id status (suc n) none = some (negsuc 0, some b)
respond_data b cmd frame_id status (suc n) (some src) = do
  b₁ ← memmove b msg_index_data src (suc n)
  respond_header b₁ cmd frame_id status (suc n)

-- `buffer_data` may be `buffer_out` itself. The size test is on `size_t`, which wraps.
unfoldable pub create_respond :
    Option Buffer → ℕ → ℕ → ℕ → ℕ → ℕ → Option Buffer → Option (ℤ × Option Buffer)
unfolding respond_data
create_respond none sz_out cmd frame_id status data_count buffer_data = some (negsuc 0, none)
create_respond (some b) sz_out cmd frame_id status data_count buffer_data =
    if ltb sz_out ((msg_index_data + 1 + data_count) % 2 ^ 64)
    then some (negsuc 0, some b)
    else respond_data b cmd frame_id status data_count buffer_data
