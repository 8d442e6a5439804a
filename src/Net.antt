-- ===== src/Net.antt =====
-- src/net: connections, reactors, and the acceptor.
mod Tests
pub mod OutputBuffer
pub mod IoEvent
pub mod Poller
pub mod Connection
pub mod ClientEvents
pub mod SubReactor
pub mod TcpServer
pub mod Signals
pub mod ScopedFd
