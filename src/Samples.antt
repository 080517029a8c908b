-- ===== src/Samples.antt =====
-- Concrete libraries and worlds, small ones, that the tests and examples run the model with.
pub mod Codec
pub mod Node
pub mod Pair
pub mod Scaled
pub mod World
pub mod Departure
pub mod Api
pub mod Ready
pub mod Wires
pub mod Cluster
