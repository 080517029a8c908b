-- ===== src/Examples.antt =====
-- The theorems at concrete inputs, and tests of the definitions.
mod Replica
mod Moving
mod Resharding
mod Interleaved
mod Admission
mod Scaling
mod Shards
mod Ending
mod Starting
mod Capturing
mod Joining
mod Welcoming
