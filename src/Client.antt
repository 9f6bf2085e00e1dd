-- ===== src/Client.antt =====
-- The client's side of the protocol: edio24_cli_verify_tcp and edio24_cli_verify_udp of
-- src/libedio24.c.
mod Tests
pub mod Tcp
pub mod Udp
