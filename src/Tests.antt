-- ===== src/Tests.antt =====
-- Runs of the definitions, and the theorems at concrete inputs.
mod Streaming
mod Book
mod Polymarket
mod Http
mod Transport
mod Deadlines
mod Supervisor
mod Resolution
mod Batch
mod Evm
mod Plan
