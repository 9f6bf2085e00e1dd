-- ===== src/Protocol/Names/Tests.antt =====
-- The names as the tests of src/libedio24.c have them, and those of the commands that the device knows.
use libedio.Base.{ℕ, ◌+◌, ◌≡◌, refl, Bool, true, false, not, ◌||◌, ◌==◌, List, [], ◌∷◌, passes_from}
use libedio.Text.{literal}
use libedio.Protocol.{cmd_firmware, cmd_boot_mem_w, msg_error_other, msg_error_busy}
use libedio.Protocol.Names.{val2cstr_cmd, val2cstr_status, name_in}
use libedio.Server.Tcp.{case_of}
use libedio.Simulator.Stream.{is_request}

unknown_command : val2cstr_cmd (cmd_firmware + 1) ≡ literal "UNKNOWN_CMD"
unfolding val2cstr_cmd name_in
unknown_command = refl

command_named : val2cstr_cmd cmd_boot_mem_w ≡ literal "CMD_BOOT_MEM_W"
unfolding val2cstr_cmd name_in
command_named = refl

unknown_status : val2cstr_status (msg_error_other + 1) ≡ literal "UNKNOWN_STATUS"
unfolding val2cstr_status name_in
unknown_status = refl

status_named : val2cstr_status msg_error_busy ≡ literal "MSG_ERROR_BUSY"
unfolding val2cstr_status name_in
status_named = refl

-- whether a name is that of a command, which begins with 'C'
is_named : List ℕ → Bool
is_named [] = false
is_named (c ∷ cs) = c == b'C'

-- Every command byte that the device knows has a name.
requests_named :
    passes_from (λ cmd. not (is_request cmd) || is_named (val2cstr_cmd cmd)) 0 256 ≡ true
unfolding passes_from is_named val2cstr_cmd name_in case_of
requests_named = refl
