-- ===== src/Cluster.antt =====
-- A whole node: `ChatService` over its registry, router and tables, how it is started, and how a
-- message goes from one node to another.
pub mod Machine
pub mod Start
pub mod Across
pub mod Ready
pub mod Bound
pub mod Leave
pub mod LoggedIn
pub mod Reached
pub mod GroupAcross
pub mod GroupReached
pub mod Excluded
pub mod Moves
