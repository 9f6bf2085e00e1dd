-- ===== src/Packet/Read.antt =====
-- edio24_pkt_read_value and the edio24_pkt_read_ret_* readers of src/libedio24.c.
pub mod Laws
use libedio.Base.{ℕ, zero, suc, ◌+◌, ◌-◌, ◌*◌, ◌%◌, ◌^◌, Option, none, some}
use libedio.Base.{Buffer, load, memmove, ℤ, pos, negsuc, ltb, ◌==◌, if◌then◌else◌, ◌>>=◌}
use mathlib.Core.Option
use libedio.Protocol.{msg_index_data}
use libedio.Packet.Verify.{pkt_verify, read_hdr_count}

-- the loop at `buffer[i]`, with `left` bytes to read; `val` and `val0` are `uint32_t`
value_loop : Buffer → ℕ → ℕ → ℕ → ℕ → Option ℕ
value_loop b zero i shift val = some val
value_loop b (suc left) i shift val = load b i >>= λ v.
    value_loop b left (i + 1) (shift + 8)
      ((val + (if ltb 0 shift then v % 256 * 2 ^ shift % 2 ^ 32 else v % 256)) % 2 ^ 32)

-- the rest of edio24_pkt_read_value, given what the verification returned
read_verified : Option Buffer → ℕ → ℕ → ℕ → Option ℕ → ℤ → Option (ℤ × Option ℕ)
read_verified buffer sz_buf off_data bytes value (negsuc n) = some (negsuc 0, value)
read_verified buffer sz_buf off_data bytes value (pos (suc n)) = some (negsuc 0, value)
read_verified buffer sz_buf off_data bytes none (pos zero) = some (negsuc 0, none)
read_verified none sz_buf off_data bytes (some old) (pos zero) =
    if ltb sz_buf ((msg_index_data + 1 + off_data + bytes) % 2 ^ 64)
    then some (negsuc 0, some old)
    else none
read_verified (some b) sz_buf off_data bytes (some old) (pos zero) =
    if ltb sz_buf ((msg_index_data + 1 + off_data + bytes) % 2 ^ 64)
    then some (negsuc 0, some old)
    else do val ← value_loop b bytes (msg_index_data + off_data) 0 0; some (pos 0, some val)

unfoldable pub read_value : Option Buffer → ℕ → ℕ → ℕ → Option ℕ → Option (ℤ × Option ℕ)
unfolding read_verified value_loop
read_value buffer sz_buf off_data bytes value =
    if ltb 4 bytes
    then some (negsuc 0, value)
    else pkt_verify buffer sz_buf >>= read_verified buffer sz_buf off_data bytes value

unfoldable pub read_ret_status : Option Buffer → ℕ → Option ℕ → Option (ℤ × Option ℕ)
read_ret_status buffer sz_buf value = read_value buffer sz_buf 0 2 value

unfoldable pub read_ret_doutr : Option Buffer → ℕ → Option ℕ → Option (ℤ × Option ℕ)
read_ret_doutr buffer sz_buf value = read_value buffer sz_buf 0 3 value

unfoldable pub read_ret_counterr : Option Buffer → ℕ → Option ℕ → Option (ℤ × Option ℕ)
read_ret_counterr buffer sz_buf value = read_value buffer sz_buf 0 4 value

-- the three addresses of `network`: IP, mask and gateway
pub record Network : Type 0 where
  pub ip : ℕ
  pub mask : ℕ
  pub gateway : ℕ

-- the third read, after the second returned; an address is the `uint32_t` that its bytes make
read_gateway : Buffer → ℕ → Network → ℤ × Option ℕ → Option (ℤ × Network)
read_gateway b sz_buf network (negsuc n, mask) =
    some (negsuc 0, record network { mask = Option.get_or mask network.mask })
read_gateway b sz_buf network (pos n, mask) = do
  (ret, gateway) ← read_value (some b) sz_buf 8 4 (some network.gateway)
  some (
    ret,
    record network {
      mask = Option.get_or mask network.mask;
      gateway = Option.get_or gateway network.gateway;
    },
  )

-- the second read, after the first returned
read_mask : Buffer → ℕ → Network → ℤ × Option ℕ → Option (ℤ × Network)
read_mask b sz_buf network (negsuc n, ip) =
    some (negsuc 0, record network { ip = Option.get_or ip network.ip })
read_mask b sz_buf network (pos n, ip) =
    read_value (some b) sz_buf 4 4 (some network.mask)
    >>= read_gateway b sz_buf (record network { ip = Option.get_or ip network.ip })

-- `network` is the caller's array, which is never NULL.
unfoldable pub read_ret_netconf : Option Buffer → ℕ → Network → Option (ℤ × Network)
unfolding read_mask read_gateway
read_ret_netconf none sz_buf network = some (negsuc 0, network)
read_ret_netconf (some b) sz_buf network =
    read_value (some b) sz_buf 0 4 (some network.ip) >>= read_mask b sz_buf network

-- &buffer[k]
abbrev pub offset : Buffer → ℕ → Buffer
offset b k = record { cap = b.cap - k; byte = λ i. b.byte (k + i) }

-- memmove into `buffer_ret`, where `count > 0`
move_ret : Option Buffer → ℕ → Option Buffer → Option (ℤ × Option Buffer)
move_ret buffer zero buffer_ret = some (pos 0, buffer_ret)
move_ret none (suc n) buffer_ret = none
move_ret (some b) (suc n) none = none
move_ret (some b) (suc n) (some dst) = do
  dst' ← memmove dst 0 (offset b msg_index_data) (suc n)
  some (pos 0, some dst')

-- the rest of edio24_pkt_read_ret_confmemr: the assertion `count == cnt`, and the copy
copy_counted : Option Buffer → ℕ → Option Buffer → ℤ × Option ℕ → Option (ℤ × Option Buffer)
copy_counted buffer count buffer_ret (negsuc n, cnt) = some (negsuc 0, buffer_ret)
copy_counted buffer count buffer_ret (pos n, none) = none
copy_counted buffer count buffer_ret (pos n, some cnt) =
    if count == cnt then move_ret buffer count buffer_ret else none

unfoldable pub read_ret_confmemr :
    Option Buffer → ℕ → ℕ → Option Buffer → Option (ℤ × Option Buffer)
unfolding copy_counted move_ret
read_ret_confmemr buffer sz_buf count buffer_ret =
    read_hdr_count buffer sz_buf (some 0) >>= copy_counted buffer count buffer_ret
