-- ===== src/Tests/Streaming.antt =====
-- The theorems on feed health at concrete inputs.
use pmkt_core.Prelude.{
  String, ◌≡◌, refl, true, false, not, ◌&&◌, ◌||◌, List, [], ◌∷◌, none, some, if◌then◌else◌, ltb,
  leb, string_eq, ◌==◌,
}
use pmkt_core.Text.{stripped}
use pmkt_core.Collections.Sets.{mem, inter, diff}
use pmkt_core.Streaming.Instrument.{
  InstrumentFeedHealth, BookReport, record_book, age_ms, is_stale, invalidate_if_stale,
  would_invalidate_if_stale, current_book_quality_flags, book_integrity_quality_flags,
}
use pmkt_core.Streaming.Instrument.Flags.{record_book-flags, integrity_verdict}
use pmkt_core.Streaming.Instrument.Staleness.{would_invalidate-eq-transitioned}
use pmkt_core.Streaming.Projection.{Cache, rebuild, instrument_projection, adjust_projection}
use pmkt_core.Streaming.Projection.Counts.{count_by}
use pmkt_core.Streaming.Projection.Matches.{is_invalid, shows}
use pmkt_core.Streaming.Shard.{FeedShardHealth, initialized, refresh_derived_book_flags}
use pmkt_core.Streaming.Consistency.{IsConsistent}
use pmkt_core.Streaming.ShardOps.{post_init}
use pmkt_core.Streaming.ShardCalls.{Call, connect, book, gap, reconnect, expire, perform_all}
use pmkt_core.Streaming.ShardCalls.Reachable.{reachable-eq-rebuild, post_init-IsConsistent}
use pmkt_core.Streaming.Derived.{deadline_ns, stale_iff_deadline, refresh_derived-flags}

abbrev no_cache : Cache
no_cache = record {
  tracked_instrument_count = 0;
  valid_instrument_count = 0;
  invalid_instrument_count = 0;
  stale_instrument_count = 0;
  reconnect_blocking_instrument_count = 0;
  current_book_flag_counts = λ _. 0;
  book_integrity_flag_counts = λ _. 0;
}

abbrev two_books : FeedShardHealth
two_books = record {
  venue = "kalshi";
  shard_id = "kalshi-0";
  subscribed_instruments = "A" ∷ "B" ∷ [];
  relation_ids = [];
  connection_state = initialized;
  connected_monotonic_ns = none;
  last_message_monotonic_ns = none;
  last_valid_book_monotonic_ns = none;
  reconnect_count = 0;
  sequence_gap_count = 0;
  resync_count = 0;
  error_count = 0;
  valid_book_count = 0;
  invalid_book_count = 0;
  quality_flags = [];
  instrument_health = [];
  cache = no_cache;
  notices = [];
}

abbrev good_book : BookReport
good_book = record {
  valid_state = true;
  quality_flags = [];
  book_integrity_valid = some true;
  initial_snapshot_received = some true;
}

abbrev crossed : BookReport
crossed = record {
  valid_state = false;
  quality_flags = "crossed_book" ∷ "malformed_book" ∷ [];
  book_integrity_valid = some false;
  initial_snapshot_received = some true;
}

abbrev calls : List Call
calls =
    connect 1
    ∷ book good_book 2 (some "A")
    ∷ book crossed 3 (some "B")
    ∷ gap (some "A") none
    ∷ expire 9000000000 5000 5000
    ∷ reconnect none
    ∷ book good_book 10000000000 (some "A")
    ∷ []

reachable-eq-rebuild_example :
    (u : FeedShardHealth) × (perform_all calls two_books ≡ some u)
    × (rebuild u.instrument_health ≡ some u.cache)
unfolding post_init rebuild diff mem
reachable-eq-rebuild_example = reachable-eq-rebuild two_books two_books calls refl

abbrev broken_b : InstrumentFeedHealth
broken_b = record {
  instrument = "B";
  last_message_monotonic_ns = some 3;
  last_valid_book_monotonic_ns = none;
  last_book_monotonic_ns = some 3;
  valid_state = false;
  book_integrity_valid = false;
  initial_snapshot_received = true;
  valid_book_count = 0;
  invalid_book_count = 1;
  quality_flags = "crossed_book" ∷ "invalid_book" ∷ [];
}

abbrev one_broken : FeedShardHealth
one_broken = record two_books {
  instrument_health = ("B", broken_b) ∷ [];
  quality_flags = "empty_bid" ∷ [];
}

-- the shard that `__post_init__` makes of `one_broken`
abbrev broken_shard : FeedShardHealth
broken_shard = record one_broken {
  cache = record {
    tracked_instrument_count = 1;
    valid_instrument_count = 0;
    invalid_instrument_count = 1;
    stale_instrument_count = 0;
    reconnect_blocking_instrument_count = 1;
    current_book_flag_counts = λ f. if f == "crossed_book" then 1 else 0;
    book_integrity_flag_counts = λ f. 0;
  };
}

broken_shard-IsConsistent : IsConsistent broken_shard
unfolding post_init rebuild diff mem inter instrument_projection adjust_projection
broken_shard-IsConsistent = post_init-IsConsistent one_broken broken_shard refl

refresh_derived-flags_example :
    mem "crossed_book" (refresh_derived_book_flags broken_shard).quality_flags ≡ (
      if ◌==◌ {A = String} "crossed_book" "invalid_book"
      then ltb 0 (count_by is_invalid broken_shard.instrument_health)
      else if mem "crossed_book" current_book_quality_flags
      then ltb 0 (count_by (shows "crossed_book") broken_shard.instrument_health)
      else mem "crossed_book" broken_shard.quality_flags)
refresh_derived-flags_example =
    refresh_derived-flags "crossed_book" broken_shard broken_shard-IsConsistent refl

would_invalidate-eq-transitioned_example :
    would_invalidate_if_stale 9000000000 5000 5000 broken_b
    ≡ (invalidate_if_stale 9000000000 5000 5000 broken_b).1
would_invalidate-eq-transitioned_example =
    would_invalidate-eq-transitioned 9000000000 5000 5000 broken_b

stale_iff_deadline_example :
    is_stale (age_ms 5001000007 (some 7)) 5000 ≡ leb (deadline_ns (some 7) 5000) 5001000007
stale_iff_deadline_example = stale_iff_deadline 5001000007 5000 (some 7)

record_book-flags_example :
    (mem "crossed_book" current_book_quality_flags ≡ true
      → mem "crossed_book" (record_book good_book 4 broken_b).quality_flags
        ≡ mem "crossed_book" (stripped good_book.quality_flags))
    × (mem "crossed_book" book_integrity_quality_flags ≡ true
        → mem "crossed_book" (record_book good_book 4 broken_b).quality_flags ≡ (
            if good_book.valid_state
            then false
            else (mem "crossed_book" (stripped good_book.quality_flags)
                || (mem "crossed_book" broken_b.quality_flags
                    && not (integrity_verdict good_book)))))
record_book-flags_example = record_book-flags "crossed_book" good_book 4 broken_b
