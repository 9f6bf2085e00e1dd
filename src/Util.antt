-- ===== src/Util.antt =====
-- The helpers of utils/utils.c: parse_hex_buf (Hex), cstr_strip (Strip), fread_lines and
-- read_file_lines (Lines).
mod Tests
pub mod Hex
pub mod Lines
pub mod Strip
