-- ===== src/Command.antt =====
-- The command processor of the protocol layer, src/xcplite.c from `XcpDisconnect` to
-- `XcpAsyncCommand` and `XcpProcessPendingCommand`.
pub mod Reply
pub mod Access
pub mod Config
pub mod Control
pub mod Info
pub mod Segments
pub mod Process
pub mod Safety
pub mod Respond
pub mod Deferred
