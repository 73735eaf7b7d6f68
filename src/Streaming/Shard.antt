-- ===== src/Streaming/Shard.antt =====
-- `FeedShardHealth` of src/pmkt/streaming/supervisor.py: the state of a shard, its instruments, the
-- flags that it derives from them, and the signature by which a change is reported.
-- `none` stands for the RuntimeError of a negative aggregate. The calls of the
-- `_deadline_change_callback` are kept as a log, the latest first.
use pmkt_core.Prelude.{
  nat_eq, ℕ, ◌+◌, ◌-◌, Bool, true, false, not, ◌&&◌, List, [], ◌∷◌, Option, none, some, String,
  if◌then◌else◌, ltb, any, string_eq, ◌==◌, length, null,
}
use pmkt_core.Text.{strip, truthy}
use pmkt_core.Collections.Dict.{get, put}
use pmkt_core.Collections.Sets.{mem, add, union, diff, discard, same}
use pmkt_core.Streaming.Instrument.{
  InstrumentFeedHealth, new_instrument, mark_reconnect, book_integrity_quality_flags,
  current_book_quality_flags,
}
use pmkt_core.Streaming.Projection.{
  Instruments, Cache, instrument_projection, apply_projection_change, ◌>>=◌,
}

pub data ConnectionState : Type 0 where
  initialized connected disconnected stale reconnecting : ConnectionState

abbrev connection_code : ConnectionState → ℕ
connection_code initialized = 0
connection_code connected = 1
connection_code disconnected = 2
connection_code stale = 3
connection_code reconnecting = 4

-- A call `callback(self, instrument, rebuild_instruments)`, with the clocks that it can read.
pub record Notice : Type 0 where
  pub instrument : Option String
  pub rebuild_instruments : Bool
  pub last_message_monotonic_ns : Option ℕ
  pub last_valid_book_monotonic_ns : Option ℕ
  pub connected_monotonic_ns : Option ℕ
  pub instrument_health : Instruments

pub record FeedShardHealth : Type 0 where
  pub venue : String
  pub shard_id : String
  pub subscribed_instruments : List String
  pub relation_ids : List String
  pub connection_state : ConnectionState
  pub connected_monotonic_ns : Option ℕ
  pub last_message_monotonic_ns : Option ℕ
  pub last_valid_book_monotonic_ns : Option ℕ
  pub reconnect_count : ℕ
  pub sequence_gap_count : ℕ
  pub resync_count : ℕ
  pub error_count : ℕ
  pub valid_book_count : ℕ
  pub invalid_book_count : ℕ
  pub quality_flags : List String
  pub instrument_health : Instruments
  pub cache : Cache
  pub notices : List Notice

abbrev pub instrument_count : FeedShardHealth → ℕ
instrument_count s = length s.subscribed_instruments

-- _notify_deadline_change
unfoldable pub notify : Option String → Bool → FeedShardHealth → FeedShardHealth
notify instrument rebuild s = record s {
  notices =
      record {
        instrument = instrument;
        rebuild_instruments = rebuild;
        last_message_monotonic_ns = s.last_message_monotonic_ns;
        last_valid_book_monotonic_ns = s.last_valid_book_monotonic_ns;
        connected_monotonic_ns = s.connected_monotonic_ns;
        instrument_health = s.instrument_health;
      }
      ∷ s.notices;
}

-- The only instrument of a shard that has one.
abbrev pub sole : List String → Option String
sole (i ∷ []) = some i
sole _ = none

abbrev pub named_or_sole : Option String → List String → Option String
named_or_sole none subscribed = sole subscribed
named_or_sole (some i) subscribed = some i

unfoldable pub subscribed_key : List String → Option String → Option String
subscribed_key subscribed none = none
subscribed_key subscribed (some i) =
    let text = strip i in if truthy text && mem text subscribed then some text else none

-- The subscribed instrument that the argument of `_instrument_state` names, if any.
unfoldable pub instrument_key : FeedShardHealth → Option String → Option String
unfolding subscribed_key
instrument_key s instrument =
    subscribed_key s.subscribed_instruments (named_or_sole instrument s.subscribed_instruments)

-- the branch of `_instrument_state` on `self.instrument_health.get(text)`
unfoldable pub track :
    String → Option InstrumentFeedHealth → FeedShardHealth → Option FeedShardHealth
track text (some state) s = some s
track text none s =
    let state = new_instrument text in
    apply_projection_change none (some (instrument_projection state))
      (record s.cache { tracked_instrument_count = s.cache.tracked_instrument_count + 1 })
    >>= λ c. some (record s { instrument_health = put text state s.instrument_health; cache = c })

unfoldable pub track_key :
    Option String → FeedShardHealth → Option (FeedShardHealth × Option String)
track_key none s = some (s, none)
track_key (some text) s = track text (get text s.instrument_health) s >>= λ t. some (t, some text)

-- _instrument_state: the key of the state, which is then tracked
unfoldable pub instrument_state :
    Option String → FeedShardHealth → Option (FeedShardHealth × Option String)
unfolding track track_key
instrument_state instrument s = track_key (instrument_key s instrument) s

unfoldable pub change_state :
    (InstrumentFeedHealth → InstrumentFeedHealth)
    → String
    → Option InstrumentFeedHealth
    → FeedShardHealth
    → Option FeedShardHealth
change_state f text none s = some s
change_state f text (some state) s =
    apply_projection_change (some (instrument_projection state))
      (some (instrument_projection (f state))) s.cache
    >>= λ c.
        some (record s { instrument_health = put text (f state) s.instrument_health; cache = c })

-- if state is not None: the state is changed, and the change of its projection applied
unfoldable pub change_instrument :
    (InstrumentFeedHealth → InstrumentFeedHealth)
    → Option String
    → FeedShardHealth
    → Option FeedShardHealth
unfolding change_state
change_instrument f none s = some s
change_instrument f (some text) s = change_state f text (get text s.instrument_health) s

-- for state in self.instrument_health.values(): state.mark_reconnect()
unfoldable pub reconnect_all : Instruments → Instruments
reconnect_all [] = []
reconnect_all ((k, state) ∷ h) = (k, mark_reconnect state) ∷ reconnect_all h

-- the flags of `current_book_quality_flags` with a positive count
unfoldable pub counted_flags : (String → ℕ) → List String → List String
counted_flags counts [] = []
counted_flags counts (flag ∷ flags) =
    let rest = counted_flags counts flags in if ltb 0 (counts flag) then flag ∷ rest else rest

-- _refresh_derived_book_flags
unfoldable pub refresh_derived_book_flags : FeedShardHealth → FeedShardHealth
unfolding counted_flags
refresh_derived_book_flags s =
    if null s.instrument_health
    then s
    else let cleared = discard "invalid_book" (diff s.quality_flags current_book_quality_flags) in
      let marked =
        if ltb 0 s.cache.invalid_instrument_count then add "invalid_book" cleared else cleared in
      record s {
        quality_flags =
            union marked
              (counted_flags s.cache.current_book_flag_counts current_book_quality_flags);
      }

-- _refresh_reconnect_flag
unfoldable pub refresh_reconnect_flag : FeedShardHealth → FeedShardHealth
refresh_reconnect_flag s =
    if mem "reconnect" s.quality_flags
      && not (null s.instrument_health)
      && s.cache.reconnect_blocking_instrument_count == 0
    then record s { quality_flags = discard "reconnect" s.quality_flags }
    else s

-- _instrument_book_integrity_active
unfoldable pub instrument_book_integrity_active : FeedShardHealth → Bool
instrument_book_integrity_active s =
    any (λ flag. ltb 0 (s.cache.book_integrity_flag_counts flag)) book_integrity_quality_flags

pub record Signature : Type 0 where
  pub connection_state : ConnectionState
  pub counts : List ℕ
  pub flags : List String

abbrev add_if : Bool → String → List String → List String
add_if b flag flags = if b then add flag flags else flags

abbrev missing_count : FeedShardHealth → ℕ
missing_count s =
    if null s.instrument_health then 0 else instrument_count s - s.cache.tracked_instrument_count

-- _compact_semantic_signature
unfoldable pub compact_semantic_signature : FeedShardHealth → Signature
compact_semantic_signature s = record {
  connection_state = s.connection_state;
  counts =
      s.reconnect_count
      ∷ s.sequence_gap_count
      ∷ s.resync_count
      ∷ s.error_count
      ∷ s.cache.valid_instrument_count
      ∷ s.cache.invalid_instrument_count
      ∷ s.cache.stale_instrument_count
      ∷ missing_count s
      ∷ [];
  flags =
      if null s.instrument_health
      then s.quality_flags
      else add_if (ltb 0 s.cache.stale_instrument_count) "stale_instrument_books" (
          add_if (ltb 0 s.cache.invalid_instrument_count) "invalid_instrument_books"
            (add_if (ltb 0 (missing_count s)) "missing_instrument_books" s.quality_flags));
}

counts_beq : List ℕ → List ℕ → Bool
counts_beq [] [] = true
counts_beq (m ∷ ms) (n ∷ ns) = m == n && counts_beq ms ns
counts_beq _ _ = false

-- before != after
unfoldable pub changed : Signature → Signature → Bool
unfolding counts_beq
changed a b = not (
    connection_code a.connection_state == connection_code b.connection_state
    && counts_beq a.counts b.counts
    && same a.flags b.flags)

-- A method that reports whether it changed the signature.
unfoldable pub reported :
    (FeedShardHealth → Option FeedShardHealth) → FeedShardHealth → Option (FeedShardHealth × Bool)
unfolding changed compact_semantic_signature
reported m s =
    m s >>= λ t. some (t, changed (compact_semantic_signature s) (compact_semantic_signature t))
