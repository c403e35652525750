-- ===== src/Net.antt =====
-- net/: sockets. A socket, an address and an error are any types; what the operating system and
-- `mio` answer are arguments.
pub mod Offload
pub mod Connect
pub mod Retry
pub mod Progress
mod Tests
