-- ===== src/Server.antt =====
-- The device's side of the protocol: edio24_svr_process_tcp and edio24_svr_process_udp of
-- src/libedio24.c.
mod Tests
pub mod Tcp
pub mod Udp
