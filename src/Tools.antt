-- ===== src/Tools.antt =====
-- What the tools of utils/ are made of: the search of utils/utils.c, and the command generator of
-- utils/gencctcmd.c.
pub mod Samples
pub mod Search
pub mod Command
pub mod Boards
pub mod Column
pub mod Generate
pub mod Lookup
pub mod Generator
mod Tests
