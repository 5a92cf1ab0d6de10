-- ===== src/Tests.antt =====
-- Runs of the model at concrete inputs.
mod Wire
mod Router
mod Registry
mod Service
mod Pool
mod Reader
mod Client
mod Menu
mod Link
mod Store
mod Cluster
mod Users
mod Peers
mod Group
