-- ===== src/Streaming.antt =====
-- src/pmkt/streaming: the health of the supervised market-data feeds.
pub mod Instrument
pub mod Projection
pub mod Shard
pub mod ShardOps
pub mod ShardStale
pub mod Consistency
pub mod ShardCalls
pub mod Derived
pub mod Deadlines
pub mod Registry
pub mod Supervisor
pub mod Plan
