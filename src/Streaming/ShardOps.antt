-- ===== src/Streaming/ShardOps.antt =====
-- The methods of `FeedShardHealth` in src/pmkt/streaming/supervisor.py that change it. Each gives
-- the new shard, and whether the compact signature changed.
use pmkt_core.Prelude.{
  map, ℕ, ◌+◌, Bool, true, false, ◌||◌, List, [], ◌∷◌, Option, none, some, String, if◌then◌else◌,
  string_eq, null,
}
use Prim.Native.String.{◌++◌ as append_text}
use pmkt_core.Text.{stripped, truthy}
use pmkt_core.Collections.Sets.{inter, union, mem, add, diff, discard}
use pmkt_core.Streaming.Instrument
use pmkt_core.Streaming.Instrument.{
  InstrumentFeedHealth, BookReport, book_integrity_quality_flags, current_book_quality_flags,
  age_ms, is_stale,
}
use pmkt_core.Streaming.Projection.{Instruments, Cache, rebuild, ◌>>=◌}
use pmkt_core.Streaming.Shard.{
  refresh_reconnect_flag, instrument_book_integrity_active, FeedShardHealth, ConnectionState,
  initialized, connected, disconnected, stale, reconnecting, instrument_count, notify,
  instrument_state, change_instrument, reconnect_all, refresh_derived_book_flags, reported,
}

-- why `__post_init__` refuses a shard
pub data InitError : Type 0 where
  duplicate_instrument unknown_instruments negative_aggregate : InitError

pub data Init : Type 0 where
  created : FeedShardHealth → Init
  refused : InitError → Init

unfoldable pub has_repeat : List String → Bool
has_repeat [] = false
has_repeat (x ∷ xs) = mem x xs || has_repeat xs

unfoldable pub with_cache : Option Cache → FeedShardHealth → Init
with_cache none s = refused negative_aggregate
with_cache (some c) s = created (record s { cache = c })

-- __post_init__
unfoldable pub post_init : FeedShardHealth → Init
unfolding has_repeat with_cache
post_init s =
    if has_repeat s.subscribed_instruments
    then refused duplicate_instrument
    else if null (
        diff (map (λ (entry : String × InstrumentFeedHealth). entry.0) s.instrument_health)
          s.subscribed_instruments)
    then with_cache (rebuild s.instrument_health) s
    else refused unknown_instruments

unfoldable pub mark_connected_body : ℕ → FeedShardHealth → FeedShardHealth
mark_connected_body now s = notify none true (record s {
  connection_state = connected;
  connected_monotonic_ns = some now;
  last_message_monotonic_ns = some now;
  quality_flags =
      discard "stale_books" (discard "stale_messages" (discard "disconnected" s.quality_flags));
})

unfoldable pub mark_connected : ℕ → FeedShardHealth → Option (FeedShardHealth × Bool)
unfolding mark_connected_body reported
mark_connected now = reported (λ s. some (mark_connected_body now s))

unfoldable pub mark_disconnected_body : FeedShardHealth → FeedShardHealth
mark_disconnected_body s = record s {
  connection_state = disconnected;
  quality_flags = add "disconnected" s.quality_flags;
}

unfoldable pub mark_disconnected : FeedShardHealth → Option (FeedShardHealth × Bool)
unfolding mark_disconnected_body reported
mark_disconnected = reported (λ s. some (mark_disconnected_body s))

abbrev pub revive : ConnectionState → ConnectionState
revive stale = connected
revive other = other

unfoldable pub mark_transport_alive_body : FeedShardHealth → FeedShardHealth
mark_transport_alive_body s = record s {
  connection_state = revive s.connection_state;
  quality_flags = discard "disconnected" s.quality_flags;
}

unfoldable pub mark_transport_alive : FeedShardHealth → Option (FeedShardHealth × Bool)
unfolding mark_transport_alive_body reported
mark_transport_alive = reported (λ s. some (mark_transport_alive_body s))

abbrev pub later_message : Option ℕ → FeedShardHealth → FeedShardHealth
later_message none s = s
later_message (some now) s = record s { last_message_monotonic_ns = some now }

unfoldable pub reset_shard : Instruments → Cache → FeedShardHealth → FeedShardHealth
reset_shard health c s = record s {
  reconnect_count = s.reconnect_count + 1;
  connection_state = reconnecting;
  quality_flags = "reconnect" ∷ [];
  last_message_monotonic_ns = none;
  last_valid_book_monotonic_ns = none;
  valid_book_count = 0;
  invalid_book_count = instrument_count s;
  connected_monotonic_ns = none;
  instrument_health = health;
  cache = c;
}

unfoldable pub mark_reconnect_body : Option ℕ → FeedShardHealth → Option FeedShardHealth
unfolding reset_shard
mark_reconnect_body now s =
    let health = reconnect_all s.instrument_health in
    rebuild health >>= λ c.
    some
      (notify none true (later_message now (refresh_derived_book_flags (reset_shard health c s))))

unfoldable pub mark_reconnect : Option ℕ → FeedShardHealth → Option (FeedShardHealth × Bool)
unfolding mark_reconnect_body reported
mark_reconnect now = reported (mark_reconnect_body now)

abbrev pub wake : ConnectionState → ConnectionState
wake initialized = connected
wake stale = connected
wake reconnecting = connected
wake other = other

unfoldable pub begin_message : ℕ → FeedShardHealth → FeedShardHealth
begin_message now s = record s {
  last_message_monotonic_ns = some now;
  connection_state = wake s.connection_state;
  quality_flags = discard "stale_messages" s.quality_flags;
}

-- _record_message, with the key of the instrument's state
unfoldable pub message_of :
    ℕ → Option String → FeedShardHealth → Option (FeedShardHealth × Option String)
unfolding begin_message
message_of now instrument s = do
  (s1, key) ← instrument_state instrument (begin_message now s)
  s2 ← change_instrument (Instrument.record_message now) key s1
  some (notify key false s2, key)

unfoldable pub record_message :
    ℕ → Option String → FeedShardHealth → Option (FeedShardHealth × Bool)
unfolding message_of reported
record_message now instrument = reported λ s. message_of now instrument s >>= λ r. some r.0

-- the shard's counters and flags after a book
unfoldable pub count_book : Bool → ℕ → List String → FeedShardHealth → FeedShardHealth
count_book true now incoming s = record s {
  valid_book_count = s.valid_book_count + 1;
  last_valid_book_monotonic_ns = some now;
  quality_flags =
      let flags = discard "stale_books" s.quality_flags in
      if instrument_book_integrity_active s then flags else diff flags book_integrity_quality_flags;
}
count_book false now incoming s = record s {
  invalid_book_count = s.invalid_book_count + 1;
  quality_flags = union s.quality_flags (diff incoming current_book_quality_flags);
}

-- the flags of a shard that tracks no instrument
unfoldable pub untracked_flags : Bool → List String → FeedShardHealth → FeedShardHealth
untracked_flags true incoming s = record s {
  quality_flags = diff (discard "invalid_book" s.quality_flags) current_book_quality_flags;
}
untracked_flags false incoming s = record s {
  quality_flags =
      union (add "invalid_book" s.quality_flags) (inter incoming current_book_quality_flags);
}

unfoldable pub book_flags : Bool → List String → FeedShardHealth → FeedShardHealth
book_flags valid incoming s =
    if null s.instrument_health
    then untracked_flags valid incoming s
    else refresh_derived_book_flags s

unfoldable pub record_book_body :
    BookReport → ℕ → Option String → FeedShardHealth → Option FeedShardHealth
record_book_body b now instrument s0 = do
  (s1, _) ← message_of now instrument s0
  let incoming = stripped b.quality_flags
  (s2, key) ← instrument_state instrument s1
  s3 ← change_instrument (Instrument.record_book (record b { quality_flags = incoming }) now) key s2
  let s4 = count_book b.valid_state now incoming s3
  some (notify key false (refresh_reconnect_flag (book_flags b.valid_state incoming s4)))

unfoldable pub record_book :
    BookReport → ℕ → Option String → FeedShardHealth → Option (FeedShardHealth × Bool)
unfolding record_book_body message_of count_book untracked_flags book_flags reported
record_book b now instrument = reported (record_book_body b now instrument)

-- dict.fromkeys: the first occurrence of each, in order; `seen` holds those before
unfoldable pub distinct_from : List String → List String → List String
distinct_from seen [] = []
distinct_from seen (x ∷ xs) =
    if mem x seen then distinct_from seen xs else x ∷ distinct_from (x ∷ seen) xs

unfoldable pub gap_each : List String → FeedShardHealth → Option FeedShardHealth
gap_each [] s = some s
gap_each (i ∷ is) s = do
  (s1, key) ← instrument_state (some i) s
  s2 ← change_instrument Instrument.record_sequence_gap key s1
  gap_each is s2

-- the two forms of the call: with `instrument`, or with `instruments`
unfoldable pub gap_of :
    Option String → Option (List String) → FeedShardHealth → Option FeedShardHealth
gap_of instrument none s = do
  (s1, key) ← instrument_state instrument s
  change_instrument Instrument.record_sequence_gap key s1
gap_of instrument (some instruments) s = gap_each (distinct_from [] instruments) s

unfoldable pub begin_gap : FeedShardHealth → FeedShardHealth
begin_gap s = record s {
  sequence_gap_count = s.sequence_gap_count + 1;
  valid_book_count = 0;
  invalid_book_count = instrument_count s;
  quality_flags = add "sequence_gap" s.quality_flags;
}

unfoldable pub record_sequence_gap_body :
    Option String → Option (List String) → FeedShardHealth → Option FeedShardHealth
unfolding begin_gap
record_sequence_gap_body instrument instruments s =
    gap_of instrument instruments (begin_gap s) >>= λ t. some (notify none true t)

unfoldable pub record_sequence_gap :
    Option String → Option (List String) → FeedShardHealth → Option (FeedShardHealth × Bool)
unfolding record_sequence_gap_body gap_of gap_each distinct_from reported
record_sequence_gap instrument instruments =
    reported (record_sequence_gap_body instrument instruments)

unfoldable pub discard_gap : FeedShardHealth → FeedShardHealth
discard_gap s =
    if instrument_book_integrity_active s
    then s
    else record s { quality_flags = discard "sequence_gap" s.quality_flags }

unfoldable pub begin_resync : Option ℕ → FeedShardHealth → FeedShardHealth
begin_resync now s = later_message now (record s { resync_count = s.resync_count + 1 })

unfoldable pub record_resync_body :
    Option ℕ → Option String → FeedShardHealth → Option FeedShardHealth
unfolding begin_resync
record_resync_body now instrument s = do
  (s1, key) ← instrument_state instrument (begin_resync now s)
  s2 ← change_instrument (Instrument.record_resync now) key s1
  some (notify key false (discard_gap s2))

unfoldable pub record_resync :
    Option ℕ → Option String → FeedShardHealth → Option (FeedShardHealth × Bool)
unfolding record_resync_body discard_gap reported
record_resync now instrument = reported (record_resync_body now instrument)

-- "error" if not message else f"error:{message}"
abbrev pub error_flag : Option String → String
error_flag none = "error"
error_flag (some message) = if truthy message then append_text "error:" message else "error"

unfoldable pub record_error_body : Option String → FeedShardHealth → FeedShardHealth
record_error_body message s = record s {
  error_count = s.error_count + 1;
  quality_flags = add (error_flag message) s.quality_flags;
}

unfoldable pub record_error : Option String → FeedShardHealth → Option (FeedShardHealth × Bool)
unfolding record_error_body reported
record_error message = reported (λ s. some (record_error_body message s))
