-- ===== src/Router.antt =====
-- `ClusterRouter`: the connections to the other nodes.
pub mod Channel
pub mod Flow
pub mod Accept
pub mod Order
pub mod Wake
pub mod Table
pub mod Keys
pub mod Routes
pub mod Ready
