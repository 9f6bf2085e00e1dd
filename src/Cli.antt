-- ===== src/Cli.antt =====
-- The command line client of utils/edio24cli.c: its state, the handlers that libuv calls, and the
-- lines of its command file. What libuv is given to send is a list.
mod Tests
pub mod State
pub mod Process
pub mod Receive
pub mod Stream
pub mod Command
pub mod Connect
