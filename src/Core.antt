-- ===== src/Core.antt =====
-- src/core: the protocol, the store, and the commands on it.
pub mod FrameCodec
pub mod KvStore
pub mod CommandParser
pub mod CommandExecutor
