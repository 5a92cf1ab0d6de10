-- ===== src/Wire.antt =====
-- The message formats between nodes, and the loops that take messages out of a byte stream.
pub mod Frame
pub mod Receive
pub mod Rounds
pub mod Run
pub mod Chunks
pub mod RoundTrip
pub mod Client
pub mod Requests
