-- ===== src/Resolution.antt =====
-- src/pmkt/resolution: the labels of resolved markets.
pub mod Batch
pub mod Evm
pub mod Rationals
pub mod Records
pub mod Terminal
pub mod Eligibility
pub mod Training
pub mod Labels
