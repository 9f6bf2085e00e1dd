-- ===== src/Packet/Request/Builds.antt =====
-- What the request builders of src/libedio24.c write.
use libedio.Base.{[], ◌∷◌, ℕ, zero, suc, ◌+◌, ◌≤◌, ◌<◌, ◌≡◌, refl, arith, some, Buffer}
use libedio.Base.{store_lem, store_all_lem, memmove_lem, le→ltb, List, ◌>>=◌}
use libedio.Packet.Frame.{retag}
use mathlib.Core.Path.{ap, fun_ext}
use libedio.Base.{IsBytes, update-IsBytes, write_all-IsBytes, copied-IsBytes, copied}
use libedio.Protocol.{
  cmd_blinkled, cmd_conf_mem_r, cmd_conf_mem_w, cmd_dout_w, cmd_dout_r, cmd_dconf_r, cmd_dconf_w,
  cmd_counter_r, cmd_counter_w, cmd_reset, cmd_status, cmd_network_conf, cmd_usr_mem_r,
  cmd_usr_mem_w, cmd_set_mem_r, cmd_set_mem_w, cmd_boot_mem_r, cmd_boot_mem_w,
}
use libedio.Packet.Frame.{low_byte, byte_from}
use libedio.Packet.Request.{
  Area, conf, user, settings, boot, Request, din, doutr, dconfr, counterr, counterw, reset, status,
  netconf, firmware, doutw, dconfw, blinkled, memr, memw, build, build_memr, build_memw, opcode,
  opcode_memr, opcode_memw, data_count, payload, Fits,
}
use libedio.Packet.Create.{
  move_data, create_cmd_dinr, create_cmd_firmware, create_cmd_blinkled, create_cmd_confmemr,
  create_cmd_doutw, create_cmd_confmemw, create_cmd_doutr, create_cmd_dconfr, create_cmd_dcounterr,
  create_cmd_dcounterw, create_cmd_reset, create_cmd_status, create_cmd_netconf, create_cmd_dconfw,
  create_cmd_usermemr, create_cmd_usermemw, create_cmd_setmemr, create_cmd_setmemw,
  create_cmd_bootmemr, create_cmd_bootmemw,
}
use libedio.Packet.Request.Written.{Builds, retag-Builds, finish-Builds, stored-Builds}

module _ (b : Buffer) (sz_buf frame : ℕ) (bytes : IsBytes b.byte) (h : frame < 256)
    (room : sz_buf ≤ b.cap) where
  firmware-Builds :
      9 ≤ sz_buf
      → Builds (create_cmd_firmware (some b) sz_buf (some frame)) b frame cmd_blinkled 2 (λ _. 0xAD)
  unfolding create_cmd_firmware
  firmware-Builds fits = rw (le→ltb sz_buf 9 fits) (
      stored-Builds b _ frame cmd_blinkled 2 (λ _. 0xAD) h (omega arith) bytes (omega arith) refl
        (omega arith) (λ i k. ground arith))

  blinkled-Builds :
      (value : ℕ)
      → 8 ≤ sz_buf
      → Builds
          (create_cmd_blinkled (some b) sz_buf (some frame) value)
          b
          frame
          cmd_blinkled
          1
          (λ _. low_byte value)
  unfolding create_cmd_blinkled
  blinkled-Builds value fits = rw (le→ltb sz_buf 8 fits) (
      stored-Builds b _ frame cmd_blinkled 1 (λ _. low_byte value) h (omega arith) bytes
        (omega arith) refl (omega arith) (λ i k. ground arith))

  confmemr-Builds :
      (address count : ℕ)
      → 11 ≤ sz_buf
      → Builds
          (create_cmd_confmemr (some b) sz_buf (some frame) address count)
          b
          frame
          cmd_conf_mem_r
          4
          (payload (memr conf address count))
  unfolding create_cmd_confmemr
  confmemr-Builds address count fits = rw (le→ltb sz_buf 11 fits) (
      stored-Builds b _ frame cmd_conf_mem_r 4 (payload (memr conf address count)) h (omega arith)
        bytes (omega arith) refl (omega arith) (λ i k. ground arith))

  doutw-Builds :
      (mask value : ℕ)
      → 13 ≤ sz_buf
      → Builds
          (create_cmd_doutw (some b) sz_buf (some frame) mask value)
          b
          frame
          cmd_dout_w
          6
          (payload (doutw mask value))
  unfolding create_cmd_doutw
  doutw-Builds mask value fits = rw (le→ltb sz_buf 13 fits) (
      stored-Builds b _ frame cmd_dout_w 6 (payload (doutw mask value)) h (omega arith) bytes
        (omega arith) refl (omega arith) (λ i k. ground arith))

  dinr-Builds :
      7 ≤ sz_buf → Builds (create_cmd_dinr (some b) sz_buf (some frame)) b frame 0 0 (λ _. 0)
  unfolding create_cmd_dinr
  dinr-Builds fits =
      rw (le→ltb sz_buf 7 fits, store_lem b 1 0 (omega arith))
        (finish-Builds b _ frame 0 0 (λ _. 0) h (omega arith)
          (update-IsBytes b.byte 1 0 bytes (omega arith)) refl (λ i k. absurd (omega arith))
          (λ i k. ground arith))

move_data_lem :
    (b src : Buffer) (count : ℕ)
    → 8 + count ≤ b.cap
    → count ≤ src.cap
    → move_data b count (some src) ≡ some (record b { byte = copied b.byte 8 src.byte count })
unfolding move_data
move_data_lem b src zero h k =
    ap (λ (m : ℕ → ℕ). some (record b { byte = m })) (fun_ext λ j. ground arith)
move_data_lem b src (suc n) h k = memmove_lem b 8 src (suc n) h k

-- the assignments of the command and the address
abbrev write_head : ℕ → List (ℕ × ℕ)
write_head address = (1, cmd_conf_mem_w) ∷ (6, low_byte address) ∷ (7, byte_from 8 address) ∷ []

confmemw-Builds :
    (b src : Buffer) (sz_buf frame address count : ℕ)
    → IsBytes b.byte
    → frame < 256
    → 9 ≤ sz_buf
    → 9 + count ≤ b.cap
    → count ≤ src.cap
    → IsBytes src.byte
    → Builds
        (create_cmd_confmemw (some b) sz_buf (some frame) address count (some src))
        b
        frame
        cmd_conf_mem_w
        (2 + count)
        (payload (memw conf address count src))
unfolding create_cmd_confmemw
confmemw-Builds b src sz_buf frame address count bytes h fits room there source =
    rw
      (
        le→ltb sz_buf 9 fits,
        move_data_lem b src count (omega arith) there,
        store_all_lem (record b { byte = copied b.byte 8 src.byte count }) (write_head address)
            (omega arith),
      )
      (finish-Builds b _ frame cmd_conf_mem_w (2 + count) (payload (memw conf address count src)) h
        (omega arith)
        (write_all-IsBytes _ (write_head address)
          (copied-IsBytes b.byte 8 src.byte count bytes source))
        refl (λ i k. ground arith) (λ i k. ground arith))

memr-Builds :
    (area : Area) (b : Buffer) (sz_buf frame address count : ℕ)
    → IsBytes b.byte
    → frame < 256
    → 11 ≤ sz_buf
    → sz_buf ≤ b.cap
    → Builds
        (build_memr area (some b) sz_buf (some frame) address count)
        b
        frame
        (opcode_memr area)
        4
        (payload (memr conf address count))
unfolding build_memr create_cmd_usermemr create_cmd_setmemr create_cmd_bootmemr
memr-Builds conf b sz_buf frame address count bytes h fits room =
    confmemr-Builds b sz_buf frame bytes h room address count fits
memr-Builds user b sz_buf frame address count bytes h fits room =
    retag-Builds _ b frame _ cmd_usr_mem_r 4 _ (omega arith) (omega arith)
      (confmemr-Builds b sz_buf frame bytes h room address count fits)
memr-Builds settings b sz_buf frame address count bytes h fits room =
    retag-Builds _ b frame _ cmd_set_mem_r 4 _ (omega arith) (omega arith)
      (confmemr-Builds b sz_buf frame bytes h room address count fits)
memr-Builds boot b sz_buf frame address count bytes h fits room =
    retag-Builds _ b frame _ cmd_boot_mem_r 4 _ (omega arith) (omega arith)
      (confmemr-Builds b sz_buf frame bytes h room address count fits)

memw-Builds :
    (area : Area) (b src : Buffer) (sz_buf frame address count : ℕ)
    → IsBytes b.byte
    → frame < 256
    → 9 ≤ sz_buf
    → 9 + count ≤ b.cap
    → count ≤ src.cap
    → IsBytes src.byte
    → Builds
        (build_memw area (some b) sz_buf (some frame) address count (some src))
        b
        frame
        (opcode_memw area)
        (2 + count)
        (payload (memw conf address count src))
unfolding build_memw create_cmd_usermemw create_cmd_setmemw create_cmd_bootmemw
memw-Builds conf b src sz_buf frame address count bytes h fits room there source =
    confmemw-Builds b src sz_buf frame address count bytes h fits room there source
memw-Builds user b src sz_buf frame address count bytes h fits room there source =
    retag-Builds _ b frame _ cmd_usr_mem_w _ _ (omega arith) (omega arith)
      (confmemw-Builds b src sz_buf frame address count bytes h fits room there source)
memw-Builds settings b src sz_buf frame address count bytes h fits room there source =
    retag-Builds _ b frame _ cmd_set_mem_w _ _ (omega arith) (omega arith)
      (confmemw-Builds b src sz_buf frame address count bytes h fits room there source)
memw-Builds boot b src sz_buf frame address count bytes h fits room there source =
    retag-Builds _ b frame _ cmd_boot_mem_w _ _ (omega arith) (omega arith)
      (confmemw-Builds b src sz_buf frame address count bytes h fits room there source)

-- The builders without data, but for that of `din` itself.
plain-Builds :
    (cmd : ℕ) (b : Buffer) (sz_buf frame : ℕ)
    → IsBytes b.byte
    → frame < 256
    → (7 ≤ sz_buf) × (sz_buf ≤ b.cap)
    → cmd < 256
    → Builds (create_cmd_dinr (some b) sz_buf (some frame) >>= retag cmd) b frame cmd 0 (λ _. 0)
plain-Builds cmd b sz_buf frame bytes h k small =
    retag-Builds _ b frame _ cmd 0 _ small (omega arith)
      (dinr-Builds b sz_buf frame bytes h k.1 k.0)

-- Every request builder, given a buffer that the packet fits, returns the size of the packet,
-- increments the frame number modulo 256, writes a packet of its command with the request's data,
-- and leaves the bytes behind the packet as they were. The command byte of the firmware request is
-- that of the LED command, as `opcode` has it.
pub build-Builds :
    (r : Request) (b : Buffer) (sz_buf frame : ℕ)
    → IsBytes b.byte
    → frame < 256
    → Fits r sz_buf b
    → Builds (build r (some b) sz_buf (some frame)) b frame (opcode r) (data_count r) (payload r)
unfolding build create_cmd_doutr create_cmd_dconfr create_cmd_dcounterr create_cmd_dcounterw
    create_cmd_reset create_cmd_status create_cmd_netconf create_cmd_dconfw
build-Builds din b sz_buf frame bytes h k = dinr-Builds b sz_buf frame bytes h k.1 k.0
build-Builds doutr b sz_buf frame bytes h k =
    plain-Builds cmd_dout_r b sz_buf frame bytes h k (omega arith)
build-Builds dconfr b sz_buf frame bytes h k =
    plain-Builds cmd_dconf_r b sz_buf frame bytes h k (omega arith)
build-Builds counterr b sz_buf frame bytes h k =
    plain-Builds cmd_counter_r b sz_buf frame bytes h k (omega arith)
build-Builds counterw b sz_buf frame bytes h k =
    plain-Builds cmd_counter_w b sz_buf frame bytes h k (omega arith)
build-Builds reset b sz_buf frame bytes h k =
    plain-Builds cmd_reset b sz_buf frame bytes h k (omega arith)
build-Builds status b sz_buf frame bytes h k =
    plain-Builds cmd_status b sz_buf frame bytes h k (omega arith)
build-Builds netconf b sz_buf frame bytes h k =
    plain-Builds cmd_network_conf b sz_buf frame bytes h k (omega arith)
build-Builds firmware b sz_buf frame bytes h k = firmware-Builds b sz_buf frame bytes h k.1 k.0
build-Builds (doutw mask value) b sz_buf frame bytes h k =
    doutw-Builds b sz_buf frame bytes h k.1 mask value k.0
build-Builds (dconfw mask value) b sz_buf frame bytes h k =
    retag-Builds _ b frame _ cmd_dconf_w 6 _ (omega arith) (omega arith)
      (doutw-Builds b sz_buf frame bytes h k.1 mask value k.0)
build-Builds (blinkled value) b sz_buf frame bytes h k =
    blinkled-Builds b sz_buf frame bytes h k.1 value k.0
build-Builds (memr area address count) b sz_buf frame bytes h k =
    memr-Builds area b sz_buf frame address count bytes h k.0 k.1
build-Builds (memw area address count src) b sz_buf frame bytes h k =
    memw-Builds area b src sz_buf frame address count bytes h k.0 k.1 k.2 k.3
