-- ===== src/Protocol.antt =====
-- The constants of the E-DIO24 protocol: include/libedio24.h and the head of src/libedio24.c.
pub mod Names
use libedio.Base.{ℕ}

-- Digital I/O commands
abbrev pub cmd_din_r : ℕ
cmd_din_r = 0x00

abbrev pub cmd_dout_r : ℕ
cmd_dout_r = 0x02

abbrev pub cmd_dout_w : ℕ
cmd_dout_w = 0x03

abbrev pub cmd_dconf_r : ℕ
cmd_dconf_r = 0x04

abbrev pub cmd_dconf_w : ℕ
cmd_dconf_w = 0x05

-- Counter commands
abbrev pub cmd_counter_r : ℕ
cmd_counter_r = 0x30

abbrev pub cmd_counter_w : ℕ
cmd_counter_w = 0x31

-- Memory commands
abbrev pub cmd_conf_mem_r : ℕ
cmd_conf_mem_r = 0x40

abbrev pub cmd_conf_mem_w : ℕ
cmd_conf_mem_w = 0x41

abbrev pub cmd_usr_mem_r : ℕ
cmd_usr_mem_r = 0x42

abbrev pub cmd_usr_mem_w : ℕ
cmd_usr_mem_w = 0x43

abbrev pub cmd_set_mem_r : ℕ
cmd_set_mem_r = 0x44

abbrev pub cmd_set_mem_w : ℕ
cmd_set_mem_w = 0x45

abbrev pub cmd_boot_mem_r : ℕ
cmd_boot_mem_r = 0x46

abbrev pub cmd_boot_mem_w : ℕ
cmd_boot_mem_w = 0x47

-- Miscellaneous commands
abbrev pub cmd_blinkled : ℕ
cmd_blinkled = 0x50

abbrev pub cmd_reset : ℕ
cmd_reset = 0x51

abbrev pub cmd_status : ℕ
cmd_status = 0x52

abbrev pub cmd_network_conf : ℕ
cmd_network_conf = 0x54

abbrev pub cmd_firmware : ℕ
cmd_firmware = 0x60

-- The status byte of a packet
abbrev pub msg_success : ℕ
msg_success = 0

abbrev pub msg_error_protocol : ℕ
msg_error_protocol = 1

abbrev pub msg_error_parameter : ℕ
msg_error_parameter = 2

abbrev pub msg_error_busy : ℕ
msg_error_busy = 3

abbrev pub msg_error_ready : ℕ
msg_error_ready = 4

abbrev pub msg_error_timeout : ℕ
msg_error_timeout = 5

abbrev pub msg_error_other : ℕ
msg_error_other = 6

-- Where the parts of a packet stand
abbrev pub msg_index_start : ℕ
msg_index_start = 0

abbrev pub msg_index_command : ℕ
msg_index_command = 1

abbrev pub msg_index_frame : ℕ
msg_index_frame = 2

abbrev pub msg_index_status : ℕ
msg_index_status = 3

abbrev pub msg_index_count_low : ℕ
msg_index_count_low = 4

abbrev pub msg_index_count_high : ℕ
msg_index_count_high = 5

abbrev pub msg_index_data : ℕ
msg_index_data = 6

abbrev pub msg_reply : ℕ
msg_reply = 0x80

abbrev pub msg_start : ℕ
msg_start = 0xDB

-- EDIO24_PKT_LENGTH_MIN
abbrev pub pkt_length_min : ℕ
pkt_length_min = 7
