-- ===== src/Packet/Verify.antt =====
-- edio24_pkt_read_hdr_command, edio24_pkt_read_hdr_count and edio24_pkt_verify of src/libedio24.c.
-- An out-parameter that may be NULL is an option, which holds what it points to.
pub mod Laws
use libedio.Base.{ℕ, zero, suc, ◌+◌, ◌*◌, ◌%◌, ◌^◌, Option, none, some, not}
use libedio.Base.{Buffer, load, ℤ, pos, negsuc, ltb, ◌==◌, if◌then◌else◌, ◌>>=◌}
use libedio.Protocol.{msg_index_command, msg_index_count_low, msg_index_count_high, msg_index_data}
use libedio.Packet.Checksum.{pkt_checksum}

hdr_command : Buffer → Option ℕ → Option (ℤ × Option ℕ)
hdr_command b none = some (negsuc 0, none)
hdr_command b (some _) = do command ← load b msg_index_command; some (pos 0, some command)

unfoldable pub read_hdr_command : Option Buffer → ℕ → Option ℕ → Option (ℤ × Option ℕ)
unfolding hdr_command
read_hdr_command none sz_buf value = some (negsuc 0, value)
read_hdr_command (some b) sz_buf value =
    if not (ltb msg_index_command sz_buf) then some (negsuc 0, value) else hdr_command b value

-- `count` is a `uint16_t`.
hdr_count : Buffer → Option ℕ → Option (ℤ × Option ℕ)
hdr_count b none = some (negsuc 0, none)
hdr_count b (some _) = do
  high ← load b msg_index_count_high
  low ← load b msg_index_count_low
  some (pos 0, some ((high % 256 * 2 ^ 8 % 2 ^ 16 + low % 256) % 2 ^ 16))

unfoldable pub read_hdr_count : Option Buffer → ℕ → Option ℕ → Option (ℤ × Option ℕ)
unfolding hdr_count
read_hdr_count none sz_buf value = some (negsuc 0, value)
read_hdr_count (some b) sz_buf value =
    if ltb sz_buf (msg_index_count_high + 1) then some (negsuc 0, value) else hdr_count b value

-- the rest of the verification, after the count was read
verify_counted : Option Buffer → ℕ → ℤ × Option ℕ → Option ℤ
verify_counted buffer sz_buf (negsuc n, count) = some (negsuc 0)
verify_counted buffer sz_buf (pos (suc n), count) = some (negsuc 0)
verify_counted buffer sz_buf (pos zero, none) = none
verify_counted none sz_buf (pos zero, some count) = none
verify_counted (some b) sz_buf (pos zero, some count) =
    if ltb sz_buf (msg_index_data + 1 + count) then some (negsuc 0) else do
      last ← load b (msg_index_data + count)
      checksum ← pkt_checksum b (msg_index_data + count)
      some (if last + checksum == 0xff then pos 0 else negsuc 0)

-- `count` is a local variable, set before it is read.
pub pkt_verify : Option Buffer → ℕ → Option ℤ
unfolding verify_counted
pkt_verify buffer sz_buf = read_hdr_count buffer sz_buf (some 0) >>= verify_counted buffer sz_buf
