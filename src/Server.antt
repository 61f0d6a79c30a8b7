-- ===== src/Server.antt =====
-- pkg/server/server.go: the health gRPC server.
pub mod Devices
pub mod Stream
pub mod Authorize
pub mod Queue
pub mod Ready
pub mod Tracking
pub mod Named
pub mod Coverage
pub mod Setup
pub mod Order
pub mod Reconnect
