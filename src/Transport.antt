-- ===== src/Transport.antt =====
-- The retry budget of a websocket: src/pmkt/exchanges/ws_transport.py.
pub mod Budget
pub mod Bounded
