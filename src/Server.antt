-- ===== src/Server.antt =====
-- server.py: the proxy server that the clients talk to.
pub mod Head
pub mod Connect
pub mod Replies
pub mod Http
pub mod Client
pub mod Relay
pub mod Lifecycle
mod Tests
