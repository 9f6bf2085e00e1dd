-- ===== src/Exchange.antt =====
-- The two sides of src/libedio24.c together: requests that the builders write, the device's replies,
-- and what the client makes of them.
mod Tests
pub mod Request
pub mod Wrapped
pub mod Reply
pub mod Session
pub mod Commands
pub mod Connect
pub mod Conversation
