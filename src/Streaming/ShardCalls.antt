-- ===== src/Streaming/ShardCalls.antt =====
-- Any sequence of calls of a shard's methods keeps it consistent, and none is refused.
pub mod Steps
pub mod Stale
pub mod Reachable
pub mod Books
use pmkt_core.Prelude.{ℕ, Bool, List, [], ◌∷◌, Option, some, String, string_eq}
use pmkt_core.Streaming.Instrument.{BookReport}
use pmkt_core.Streaming.Projection.{◌>>=◌}
use pmkt_core.Streaming.Shard.{FeedShardHealth}
use pmkt_core.Streaming.ShardOps.{
  mark_connected, mark_disconnected, mark_transport_alive, mark_reconnect, record_message,
  record_book, record_sequence_gap, record_resync, record_error,
}
use pmkt_core.Streaming.ShardStale.{
  invalidate_shard_clocks_if_stale, invalidate_instrument_if_stale, invalidate_if_stale,
}

-- A call of one of the methods.
pub data Call : Type 0 where
  connect : ℕ → Call
  disconnect : Call
  probe : Call
  reconnect : Option ℕ → Call
  message : ℕ → Option String → Call
  book : BookReport → ℕ → Option String → Call
  gap : Option String → Option (List String) → Call
  resync : Option ℕ → Option String → Call
  fail : Option String → Call
  expire_clocks : ℕ → ℕ → ℕ → Call
  expire_instrument : ℕ → ℕ → ℕ → Bool → String → Call
  expire : ℕ → ℕ → ℕ → Call

unfoldable pub perform : Call → FeedShardHealth → Option (FeedShardHealth × Bool)
perform (connect now) = mark_connected now
perform disconnect = mark_disconnected
perform probe = mark_transport_alive
perform (reconnect now) = mark_reconnect now
perform (message now i) = record_message now i
perform (book b now i) = record_book b now i
perform (gap i is) = record_sequence_gap i is
perform (resync now i) = record_resync now i
perform (fail m) = record_error m
perform (expire_clocks now a b) = invalidate_shard_clocks_if_stale now a b
perform (expire_instrument now a b r i) = invalidate_instrument_if_stale now a b r i
perform (expire now a b) = invalidate_if_stale now a b

-- One call after another; the flags of change are dropped.
unfoldable pub perform_all : List Call → FeedShardHealth → Option FeedShardHealth
unfolding perform
perform_all [] s = some s
perform_all (c ∷ cs) s = perform c s >>= λ r. perform_all cs r.0
