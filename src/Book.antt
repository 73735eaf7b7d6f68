-- ===== src/Book.antt =====
-- The order books of the two venues: src/pmkt/exchanges.
pub mod Levels
pub mod Kalshi
pub mod KalshiMessages
pub mod Polymarket
pub mod PolymarketMessages
