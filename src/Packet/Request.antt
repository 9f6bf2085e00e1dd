-- ===== src/Packet/Request.antt =====
-- The commands of the protocol as one data type, beside the builders of src/libedio24.c: which
-- builder serves a command, and the command byte and data that the protocol asks for.
pub mod Written
pub mod Builds
pub mod Rejects
pub mod Overruns
use libedio.Base.{
  ℕ, zero, suc, ◌+◌, ◌-◌, ◌≤◌, Option, some, List, [], ◌∷◌, Buffer, IsBytes, if◌then◌else◌, ltb,
}
use libedio.Protocol.{
  cmd_din_r, cmd_dout_r, cmd_dout_w, cmd_dconf_r, cmd_dconf_w, cmd_counter_r, cmd_counter_w,
  cmd_conf_mem_r, cmd_conf_mem_w, cmd_usr_mem_r, cmd_usr_mem_w, cmd_set_mem_r, cmd_set_mem_w,
  cmd_boot_mem_r, cmd_boot_mem_w, cmd_blinkled, cmd_reset, cmd_status, cmd_network_conf,
}
use libedio.Packet.Frame.{Created, low_byte, byte_from}
use libedio.Packet.Create.{
  create_cmd_dinr, create_cmd_doutr, create_cmd_doutw, create_cmd_dconfr, create_cmd_dconfw,
  create_cmd_dcounterr, create_cmd_dcounterw, create_cmd_reset, create_cmd_status,
  create_cmd_netconf, create_cmd_firmware, create_cmd_blinkled, create_cmd_confmemr,
  create_cmd_confmemw, create_cmd_usermemr, create_cmd_usermemw, create_cmd_setmemr,
  create_cmd_setmemw, create_cmd_bootmemr, create_cmd_bootmemw,
}

-- The four memories of the device.
pub data Area : Type 0 where
  conf user settings boot : Area

pub data Request : Type 0 where
  din doutr dconfr counterr counterw reset status netconf firmware : Request
  doutw dconfw : ℕ → ℕ → Request
  blinkled : ℕ → Request
  memr : Area → ℕ → ℕ → Request
  memw : Area → ℕ → ℕ → Buffer → Request

-- The builder that serves a request.
pub build_memr : Area → Option Buffer → ℕ → Option ℕ → ℕ → ℕ → Option Created
build_memr conf = create_cmd_confmemr
build_memr user = create_cmd_usermemr
build_memr settings = create_cmd_setmemr
build_memr boot = create_cmd_bootmemr

pub build_memw : Area → Option Buffer → ℕ → Option ℕ → ℕ → ℕ → Option Buffer → Option Created
build_memw conf = create_cmd_confmemw
build_memw user = create_cmd_usermemw
build_memw settings = create_cmd_setmemw
build_memw boot = create_cmd_bootmemw

unfoldable pub build : Request → Option Buffer → ℕ → Option ℕ → Option Created
build din b sz f = create_cmd_dinr b sz f
build doutr b sz f = create_cmd_doutr b sz f
build dconfr b sz f = create_cmd_dconfr b sz f
build counterr b sz f = create_cmd_dcounterr b sz f
build counterw b sz f = create_cmd_dcounterw b sz f
build reset b sz f = create_cmd_reset b sz f
build status b sz f = create_cmd_status b sz f
build netconf b sz f = create_cmd_netconf b sz f
build firmware b sz f = create_cmd_firmware b sz f
build (doutw mask value) b sz f = create_cmd_doutw b sz f mask value
build (dconfw mask value) b sz f = create_cmd_dconfw b sz f mask value
build (blinkled value) b sz f = create_cmd_blinkled b sz f value
build (memr area address count) b sz f = build_memr area b sz f address count
build (memw area address count src) b sz f = build_memw area b sz f address count (some src)

abbrev pub opcode_memr : Area → ℕ
opcode_memr conf = cmd_conf_mem_r
opcode_memr user = cmd_usr_mem_r
opcode_memr settings = cmd_set_mem_r
opcode_memr boot = cmd_boot_mem_r

abbrev pub opcode_memw : Area → ℕ
opcode_memw conf = cmd_conf_mem_w
opcode_memw user = cmd_usr_mem_w
opcode_memw settings = cmd_set_mem_w
opcode_memw boot = cmd_boot_mem_w

-- The command byte of a request; that of the firmware request is the one that the code sends.
abbrev pub opcode : Request → ℕ
opcode din = cmd_din_r
opcode doutr = cmd_dout_r
opcode dconfr = cmd_dconf_r
opcode counterr = cmd_counter_r
opcode counterw = cmd_counter_w
opcode reset = cmd_reset
opcode status = cmd_status
opcode netconf = cmd_network_conf
opcode firmware = cmd_blinkled
opcode (doutw mask value) = cmd_dout_w
opcode (dconfw mask value) = cmd_dconf_w
opcode (blinkled value) = cmd_blinkled
opcode (memr area address count) = opcode_memr area
opcode (memw area address count src) = opcode_memw area

-- The number of data bytes of a request.
abbrev pub data_count : Request → ℕ
data_count (doutw mask value) = 6
data_count (dconfw mask value) = 6
data_count (blinkled value) = 1
data_count (memr area address count) = 4
data_count (memw area address count src) = 2 + count
data_count firmware = 2
data_count r = 0

abbrev pub byte_at : List ℕ → ℕ → ℕ
byte_at [] i = 0
byte_at (x ∷ xs) zero = x
byte_at (x ∷ xs) (suc i) = byte_at xs i

-- A mask and a value of 24 bits each, lowest byte first.
abbrev pub pin_bytes : ℕ → ℕ → List ℕ
pin_bytes mask value =
    low_byte mask
    ∷ byte_from 8 mask
    ∷ byte_from 16 mask
    ∷ low_byte value
    ∷ byte_from 8 value
    ∷ byte_from 16 value
    ∷ []

-- The data bytes of a request: 16-bit addresses and counts lowest byte first, then what is written.
abbrev pub payload : Request → ℕ → ℕ
payload (doutw mask value) i = byte_at (pin_bytes mask value) i
payload (dconfw mask value) i = byte_at (pin_bytes mask value) i
payload (blinkled value) i = low_byte value
payload (memr area address count) i =
    byte_at (low_byte address ∷ byte_from 8 address ∷ low_byte count ∷ byte_from 8 count ∷ []) i
payload (memw area address count src) i =
    if ltb i 2 then byte_at (low_byte address ∷ byte_from 8 address ∷ []) i else src.byte (i - 2)
payload firmware i = 0xAD
payload r i = 0

-- The buffer holds the packet, and `sz_buf` meets the size test of the builder; what a memory write
-- sends is there.
abbrev pub Fits : Request → ℕ → Buffer → Type 0
Fits (memw area address count src) sz_buf b =
    (9 ≤ sz_buf) × (9 + count ≤ b.cap) × (count ≤ src.cap) × IsBytes src.byte
Fits r sz_buf b = (7 + data_count r ≤ sz_buf) × (sz_buf ≤ b.cap)
