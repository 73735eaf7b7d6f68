-- ===== src/Streaming/ShardStale.antt =====
-- The staleness checks of `FeedShardHealth` in src/pmkt/streaming/supervisor.py.
use pmkt_core.Prelude.{
  ℕ, Bool, true, false, not, ◌||◌, [], ◌∷◌, Option, none, some, String, if◌then◌else◌, string_eq,
}
use pmkt_core.Collections.Dict.{get}
use pmkt_core.Collections.Sets.{add}
use pmkt_core.Streaming.Instrument
use pmkt_core.Streaming.Instrument.{InstrumentFeedHealth, age_ms, is_stale}
use pmkt_core.Streaming.Projection.{Instruments, ◌>>=◌}
use pmkt_core.Streaming.Shard.{
  FeedShardHealth, stale, instrument_count, change_instrument, refresh_derived_book_flags, reported,
}

-- last_message_age_ms, last_valid_book_age_ms
unfoldable pub last_message_age_ms : FeedShardHealth → ℕ → Option ℕ
unfolding age_ms
last_message_age_ms s now = age_ms now s.last_message_monotonic_ns

unfoldable pub last_valid_book_age_ms : FeedShardHealth → ℕ → Option ℕ
unfolding age_ms
last_valid_book_age_ms s now = age_ms now s.last_valid_book_monotonic_ns

-- the age that the book check uses: of the last valid book, else of the connection
abbrev pub book_age : Option ℕ → Option ℕ → Option ℕ
book_age (some age) connected = some age
book_age none connected = connected

unfoldable pub stale_message_clock : FeedShardHealth → FeedShardHealth
stale_message_clock s = record s {
  connection_state = stale;
  quality_flags = add "stale_messages" s.quality_flags;
  valid_book_count = 0;
  invalid_book_count = instrument_count s;
}

unfoldable pub stale_book_clock : FeedShardHealth → FeedShardHealth
stale_book_clock s = record s {
  quality_flags = add "stale_books" s.quality_flags;
  valid_book_count = 0;
  invalid_book_count = instrument_count s;
}

-- the state that `_invalidate_shard_clocks_if_stale` leaves
unfoldable pub stale_clocks : ℕ → ℕ → ℕ → FeedShardHealth → FeedShardHealth
unfolding stale_message_clock stale_book_clock last_message_age_ms last_valid_book_age_ms age_ms
    is_stale
stale_clocks now max_message_age max_book_age s0 =
    let s =
      if is_stale (last_message_age_ms s0 now) max_message_age
      then stale_message_clock s0
      else s0 in
    if is_stale (book_age (last_valid_book_age_ms s now) (age_ms now s.connected_monotonic_ns))
      max_book_age
    then stale_book_clock s
    else s

unfoldable pub invalidate_shard_clocks_if_stale :
    ℕ → ℕ → ℕ → FeedShardHealth → Option (FeedShardHealth × Bool)
unfolding stale_clocks reported
invalidate_shard_clocks_if_stale now max_message_age max_book_age =
    reported λ s. some (stale_clocks now max_message_age max_book_age s)

-- `state is None or not state._would_invalidate_if_stale(...)`
abbrev pub stays_fresh : ℕ → ℕ → ℕ → Option InstrumentFeedHealth → Bool
stays_fresh now a b none = true
stays_fresh now a b (some state) = not (Instrument.would_invalidate_if_stale now a b state)

-- `transitioned`, of a state that is there
abbrev pub will_transition : ℕ → ℕ → ℕ → Option InstrumentFeedHealth → Bool
will_transition now a b none = false
will_transition now a b (some state) = (Instrument.invalidate_if_stale now a b state).1

unfoldable pub expire_body : ℕ → ℕ → ℕ → Bool → String → FeedShardHealth → Option FeedShardHealth
expire_body now a b refresh_derived instrument s =
    change_instrument (Instrument.invalidate_state now a b) (some instrument) s >>= λ t.
    some (if refresh_derived then refresh_derived_book_flags t else t)

-- _invalidate_instrument_if_stale
unfoldable pub invalidate_instrument_if_stale :
    ℕ → ℕ → ℕ → Bool → String → FeedShardHealth → Option (FeedShardHealth × Bool)
unfolding expire_body reported
invalidate_instrument_if_stale now a b refresh_derived instrument s =
    let found = get instrument s.instrument_health in
    if stays_fresh now a b found || not (will_transition now a b found)
    then some (s, false)
    else reported (expire_body now a b refresh_derived instrument) s

-- for instrument in tuple(self.instrument_health)
unfoldable pub expire_each :
    ℕ → ℕ → ℕ → Instruments → FeedShardHealth → Bool → Option (FeedShardHealth × Bool)
unfolding invalidate_instrument_if_stale
expire_each now a b [] s transitioned = some (s, transitioned)
expire_each now a b ((k, _) ∷ h) s transitioned =
    invalidate_instrument_if_stale now a b false k s >>= λ r.
    expire_each now a b h r.0 (r.1 || transitioned)

unfoldable pub invalidate_body : ℕ → ℕ → ℕ → FeedShardHealth → Option FeedShardHealth
invalidate_body now a b s0 =
    let s = stale_clocks now a b s0 in
    expire_each now a b s.instrument_health s false >>= λ r.
    some (if r.1 then refresh_derived_book_flags r.0 else r.0)

unfoldable pub invalidate_if_stale : ℕ → ℕ → ℕ → FeedShardHealth → Option (FeedShardHealth × Bool)
unfolding invalidate_body stale_clocks expire_each reported
invalidate_if_stale now a b = reported (invalidate_body now a b)
