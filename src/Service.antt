-- ===== src/Service.antt =====
-- `ChatService` (src/server/chatservice.cpp): delivery to the clients of this node and the handlers.
pub mod Connections
pub mod Dispatch
pub mod Order
pub mod Chat
pub mod Settle
pub mod Group
pub mod Members
pub mod Everyone
pub mod Elsewhere
pub mod Session
pub mod Login
pub mod Requests
pub mod Link
pub mod Server
pub mod Streams
pub mod Table
pub mod Users
pub mod Interleave
pub mod ClusterServer
pub mod Peers
