-- ===== src/Protocol/Names.antt =====
-- The names of commands and statuses, as src/libedio24.c prints them (edio24_val2cstr_cmd and
-- edio24_val2cstr_status).
mod Tests
use libedio.Base.{ℕ, List, [], ◌∷◌, ◌==◌, if◌then◌else◌}
use libedio.Text.{literal}
use libedio.Protocol.{
  cmd_din_r, cmd_dout_r, cmd_dout_w, cmd_dconf_r, cmd_dconf_w, cmd_counter_r, cmd_counter_w,
  cmd_conf_mem_r, cmd_conf_mem_w, cmd_usr_mem_r, cmd_usr_mem_w, cmd_set_mem_r, cmd_set_mem_w,
  cmd_boot_mem_r, cmd_boot_mem_w, cmd_blinkled, cmd_reset, cmd_status, cmd_network_conf,
  cmd_firmware, msg_success, msg_error_protocol, msg_error_parameter, msg_error_busy,
  msg_error_ready, msg_error_timeout, msg_error_other,
}

-- EDIO24_V2S: the first row with the value names it, else `unknown` does
unfoldable pub name_in : List (ℕ × List ℕ) → List ℕ → ℕ → List ℕ
name_in [] unknown value = unknown
name_in ((constant, name) ∷ rows) unknown value =
    let others = name_in rows unknown value in if value == constant then name else others

abbrev pub cmd_names : List (ℕ × List ℕ)
cmd_names =
    (cmd_din_r, literal "CMD_DIN_R")
    ∷ (cmd_dout_r, literal "CMD_DOUT_R")
    ∷ (cmd_dout_w, literal "CMD_DOUT_W")
    ∷ (cmd_dconf_r, literal "CMD_DCONF_R")
    ∷ (cmd_dconf_w, literal "CMD_DCONF_W")
    ∷ (cmd_counter_r, literal "CMD_COUNTER_R")
    ∷ (cmd_counter_w, literal "CMD_COUNTER_W")
    ∷ (cmd_conf_mem_r, literal "CMD_CONF_MEM_R")
    ∷ (cmd_conf_mem_w, literal "CMD_CONF_MEM_W")
    ∷ (cmd_usr_mem_r, literal "CMD_USR_MEM_R")
    ∷ (cmd_usr_mem_w, literal "CMD_USR_MEM_W")
    ∷ (cmd_set_mem_r, literal "CMD_SET_MEM_R")
    ∷ (cmd_set_mem_w, literal "CMD_SET_MEM_W")
    ∷ (cmd_boot_mem_r, literal "CMD_BOOT_MEM_R")
    ∷ (cmd_boot_mem_w, literal "CMD_BOOT_MEM_W")
    ∷ (cmd_blinkled, literal "CMD_BLINKLED")
    ∷ (cmd_reset, literal "CMD_RESET")
    ∷ (cmd_status, literal "CMD_STATUS")
    ∷ (cmd_network_conf, literal "CMD_NETWORK_CONF")
    ∷ (cmd_firmware, literal "CMD_FIRMWARE")
    ∷ []

abbrev pub status_names : List (ℕ × List ℕ)
status_names =
    (msg_success, literal "MSG_SUCCESS")
    ∷ (msg_error_protocol, literal "MSG_ERROR_PROTOCOL")
    ∷ (msg_error_parameter, literal "MSG_ERROR_PARAMETER")
    ∷ (msg_error_busy, literal "MSG_ERROR_BUSY")
    ∷ (msg_error_ready, literal "MSG_ERROR_READY")
    ∷ (msg_error_timeout, literal "MSG_ERROR_TIMEOUT")
    ∷ (msg_error_other, literal "MSG_ERROR_OTHER")
    ∷ []

-- edio24_val2cstr_cmd
unfoldable pub val2cstr_cmd : ℕ → List ℕ
unfolding name_in
val2cstr_cmd cmd = name_in cmd_names (literal "UNKNOWN_CMD") cmd

-- edio24_val2cstr_status
unfoldable pub val2cstr_status : ℕ → List ℕ
unfolding name_in
val2cstr_status status = name_in status_names (literal "UNKNOWN_STATUS") status
