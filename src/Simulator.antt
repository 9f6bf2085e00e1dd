-- ===== src/Simulator.antt =====
-- The device simulator of utils/edio24sim.c: its state, and the handlers that libuv calls. What the
-- calls of rand() return and what fresh memory holds come in as arguments; what libuv sends is a list.
mod Tests
pub mod State
pub mod Process
pub mod Receive
pub mod Stream
pub mod Udp
pub mod Session
