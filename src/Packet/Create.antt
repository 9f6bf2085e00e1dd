-- ===== src/Packet/Create.antt =====
-- The request builders of src/libedio24.c: edio24_pkt_create_opendev, edio24_pkt_create_discoverydev
-- and edio24_pkt_create_cmd_*. A pointer that may be NULL is an option. `frame_id` holds the byte
-- that the pointer shows. The result is `none` where the C code leaves its buffers.
use libedio.Base.{ℕ, zero, suc, ◌+◌, Option, none, some, [], ◌∷◌}
use libedio.Base.{Buffer, store, store_all, memmove, ℤ, pos, negsuc, ltb, if◌then◌else◌, ◌>>=◌}
use libedio.Protocol.{
  cmd_din_r, cmd_dout_r, cmd_dout_w, cmd_dconf_r, cmd_dconf_w, cmd_counter_r, cmd_counter_w,
  cmd_conf_mem_r, cmd_conf_mem_w, cmd_usr_mem_r, cmd_usr_mem_w, cmd_set_mem_r, cmd_set_mem_w,
  cmd_boot_mem_r, cmd_boot_mem_w, cmd_blinkled, cmd_reset, cmd_status, cmd_network_conf,
  msg_index_command, msg_index_data,
}
use libedio.Packet.Frame.{Created, reject, low_byte, byte_from, finish, retag}

unfoldable pub create_opendev : Option Buffer → ℕ → ℕ → Option (ℤ × Option Buffer)
create_opendev none sz_buf connect_code = some (negsuc 0, none)
create_opendev (some b) sz_buf connect_code = if ltb sz_buf 5 then some (negsuc 0, some b) else do
  b' ← store_all b (
      (0, b'C')
      ∷ (1, low_byte connect_code)
      ∷ (2, byte_from 8 connect_code)
      ∷ (3, byte_from 16 connect_code)
      ∷ (4, byte_from 24 connect_code)
      ∷ [])
  some (pos 5, some b')

unfoldable pub create_discoverydev : Option Buffer → ℕ → Option (ℤ × Option Buffer)
create_discoverydev none sz_buf = some (negsuc 0, none)
create_discoverydev (some b) sz_buf =
    if ltb sz_buf 1 then some (negsuc 0, some b) else do b' ← store b 0 b'D'; some (pos 1, some b')

unfoldable pub create_cmd_dinr : Option Buffer → ℕ → Option ℕ → Option Created
create_cmd_dinr none sz_buf frame_id = reject none frame_id
create_cmd_dinr (some b) sz_buf none = reject (some b) none
create_cmd_dinr (some b) sz_buf (some frame) =
    if ltb sz_buf (msg_index_data + 1 + 0)
    then reject (some b) (some frame)
    else do b' ← store b msg_index_command cmd_din_r; finish b' frame 0

unfoldable pub create_cmd_doutr : Option Buffer → ℕ → Option ℕ → Option Created
create_cmd_doutr buffer sz_buf frame_id =
    create_cmd_dinr buffer sz_buf frame_id >>= retag cmd_dout_r

unfoldable pub create_cmd_dconfr : Option Buffer → ℕ → Option ℕ → Option Created
create_cmd_dconfr buffer sz_buf frame_id =
    create_cmd_dinr buffer sz_buf frame_id >>= retag cmd_dconf_r

unfoldable pub create_cmd_dcounterr : Option Buffer → ℕ → Option ℕ → Option Created
create_cmd_dcounterr buffer sz_buf frame_id =
    create_cmd_dinr buffer sz_buf frame_id >>= retag cmd_counter_r

unfoldable pub create_cmd_dcounterw : Option Buffer → ℕ → Option ℕ → Option Created
create_cmd_dcounterw buffer sz_buf frame_id =
    create_cmd_dinr buffer sz_buf frame_id >>= retag cmd_counter_w

unfoldable pub create_cmd_reset : Option Buffer → ℕ → Option ℕ → Option Created
create_cmd_reset buffer sz_buf frame_id = create_cmd_dinr buffer sz_buf frame_id >>= retag cmd_reset

unfoldable pub create_cmd_status : Option Buffer → ℕ → Option ℕ → Option Created
create_cmd_status buffer sz_buf frame_id =
    create_cmd_dinr buffer sz_buf frame_id >>= retag cmd_status

unfoldable pub create_cmd_netconf : Option Buffer → ℕ → Option ℕ → Option Created
create_cmd_netconf buffer sz_buf frame_id =
    create_cmd_dinr buffer sz_buf frame_id >>= retag cmd_network_conf

-- The command byte is that of CMD_BLINKLED, as the source has it.
unfoldable pub create_cmd_firmware : Option Buffer → ℕ → Option ℕ → Option Created
create_cmd_firmware none sz_buf frame_id = reject none frame_id
create_cmd_firmware (some b) sz_buf none = reject (some b) none
create_cmd_firmware (some b) sz_buf (some frame) =
    if ltb sz_buf (msg_index_data + 1 + 2) then reject (some b) (some frame) else do
      b' ← store_all b (
          (msg_index_command, cmd_blinkled)
          ∷ (msg_index_data, 0xAD)
          ∷ (msg_index_data + 1, 0xAD)
          ∷ [])
      finish b' frame 2

unfoldable pub create_cmd_blinkled : Option Buffer → ℕ → Option ℕ → ℕ → Option Created
create_cmd_blinkled none sz_buf frame_id value = reject none frame_id
create_cmd_blinkled (some b) sz_buf none value = reject (some b) none
create_cmd_blinkled (some b) sz_buf (some frame) value =
    if ltb sz_buf (msg_index_data + 1 + 1) then reject (some b) (some frame) else do
      b' ← store_all b ((msg_index_command, cmd_blinkled) ∷ (msg_index_data, low_byte value) ∷ [])
      finish b' frame 1

unfoldable pub create_cmd_confmemr : Option Buffer → ℕ → Option ℕ → ℕ → ℕ → Option Created
create_cmd_confmemr none sz_buf frame_id address count = reject none frame_id
create_cmd_confmemr (some b) sz_buf none address count = reject (some b) none
create_cmd_confmemr (some b) sz_buf (some frame) address count =
    if ltb sz_buf (msg_index_data + 1 + 4) then reject (some b) (some frame) else do
      b' ← store_all b (
          (msg_index_command, cmd_conf_mem_r)
          ∷ (msg_index_data, low_byte address)
          ∷ (msg_index_data + 1, byte_from 8 address)
          ∷ (msg_index_data + 2, low_byte count)
          ∷ (msg_index_data + 3, byte_from 8 count)
          ∷ [])
      finish b' frame 4

-- if (count > 0) memmove (&buffer[MSG_INDEX_DATA + 2], buffer_data, count)
unfoldable pub move_data : Buffer → ℕ → Option Buffer → Option Buffer
move_data b zero buffer_data = some b
move_data b (suc n) none = none
move_data b (suc n) (some src) = memmove b (msg_index_data + 2) src (suc n)

-- The size test comes before `count` is added to the data count: it asks for 9 bytes at any count.
unfoldable pub create_cmd_confmemw :
    Option Buffer → ℕ → Option ℕ → ℕ → ℕ → Option Buffer → Option Created
create_cmd_confmemw none sz_buf frame_id address count buffer_data = reject none frame_id
create_cmd_confmemw (some b) sz_buf none address count buffer_data = reject (some b) none
create_cmd_confmemw (some b) sz_buf (some frame) address count buffer_data =
    if ltb sz_buf (msg_index_data + 1 + 2) then reject (some b) (some frame) else do
      b₁ ← move_data b count buffer_data
      b₂ ← store_all b₁ (
          (msg_index_command, cmd_conf_mem_w)
          ∷ (msg_index_data, low_byte address)
          ∷ (msg_index_data + 1, byte_from 8 address)
          ∷ [])
      finish b₂ frame (2 + count)

unfoldable pub create_cmd_usermemr : Option Buffer → ℕ → Option ℕ → ℕ → ℕ → Option Created
create_cmd_usermemr buffer sz_buf frame_id address count =
    create_cmd_confmemr buffer sz_buf frame_id address count >>= retag cmd_usr_mem_r

unfoldable pub create_cmd_usermemw :
    Option Buffer → ℕ → Option ℕ → ℕ → ℕ → Option Buffer → Option Created
create_cmd_usermemw buffer sz_buf frame_id address count buffer_data =
    create_cmd_confmemw buffer sz_buf frame_id address count buffer_data >>= retag cmd_usr_mem_w

unfoldable pub create_cmd_setmemr : Option Buffer → ℕ → Option ℕ → ℕ → ℕ → Option Created
create_cmd_setmemr buffer sz_buf frame_id address count =
    create_cmd_confmemr buffer sz_buf frame_id address count >>= retag cmd_set_mem_r

unfoldable pub create_cmd_setmemw :
    Option Buffer → ℕ → Option ℕ → ℕ → ℕ → Option Buffer → Option Created
create_cmd_setmemw buffer sz_buf frame_id address count buffer_data =
    create_cmd_confmemw buffer sz_buf frame_id address count buffer_data >>= retag cmd_set_mem_w

unfoldable pub create_cmd_bootmemr : Option Buffer → ℕ → Option ℕ → ℕ → ℕ → Option Created
create_cmd_bootmemr buffer sz_buf frame_id address count =
    create_cmd_confmemr buffer sz_buf frame_id address count >>= retag cmd_boot_mem_r

unfoldable pub create_cmd_bootmemw :
    Option Buffer → ℕ → Option ℕ → ℕ → ℕ → Option Buffer → Option Created
create_cmd_bootmemw buffer sz_buf frame_id address count buffer_data =
    create_cmd_confmemw buffer sz_buf frame_id address count buffer_data >>= retag cmd_boot_mem_w

unfoldable pub create_cmd_doutw : Option Buffer → ℕ → Option ℕ → ℕ → ℕ → Option Created
create_cmd_doutw none sz_buf frame_id mask value = reject none frame_id
create_cmd_doutw (some b) sz_buf none mask value = reject (some b) none
create_cmd_doutw (some b) sz_buf (some frame) mask value =
    if ltb sz_buf (msg_index_data + 1 + 6) then reject (some b) (some frame) else do
      b' ← store_all b (
          (msg_index_command, cmd_dout_w)
          ∷ (msg_index_data, low_byte mask)
          ∷ (msg_index_data + 1, byte_from 8 mask)
          ∷ (msg_index_data + 2, byte_from 16 mask)
          ∷ (msg_index_data + 3, low_byte value)
          ∷ (msg_index_data + 4, byte_from 8 value)
          ∷ (msg_index_data + 5, byte_from 16 value)
          ∷ [])
      finish b' frame 6

unfoldable pub create_cmd_dconfw : Option Buffer → ℕ → Option ℕ → ℕ → ℕ → Option Created
create_cmd_dconfw buffer sz_buf frame_id mask value =
    create_cmd_doutw buffer sz_buf frame_id mask value >>= retag cmd_dconf_w
