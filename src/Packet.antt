-- ===== src/Packet.antt =====
-- The packets of src/libedio24.c: the checksum, the request builders, the readers and the respond
-- builder, each with its laws below it.
mod Tests
pub mod Checksum
pub mod Frame
pub mod Format
pub mod Create
pub mod Request
pub mod Verify
pub mod Read
pub mod Respond
