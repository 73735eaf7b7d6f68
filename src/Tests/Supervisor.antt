-- ===== src/Tests/Supervisor.antt =====
-- The theorems on the supervisor at concrete inputs.
use pmkt_core.Prelude.{
  map, ◌&&◌, ◌≡◌, refl, true, false, List, [], ◌∷◌, none, some, String, if◌then◌else◌, or_else,
  string_eq, ◌==◌,
}
use pmkt_core.Collections.Dict.{get}
use pmkt_core.Collections.Sets.{mem, same, add}
use pmkt_core.Collections.Sorting.{pair_leb}
use pmkt_core.Streaming.Instrument.{InstrumentFeedHealth, is_stale, age_ms}
use pmkt_core.Streaming.Projection.{Cache}
use pmkt_core.Streaming.Shard.{FeedShardHealth, initialized, disconnected}
use pmkt_core.Streaming.Deadlines.{Key, key_eq, expire_venue}
use pmkt_core.Streaming.Deadlines.Popping.{waiting}
use pmkt_core.Streaming.Registry.{Pair, pair_eq}
use pmkt_core.Streaming.Supervisor.{
  LiveFeedSupervisor, new_supervisor, supervise, schedule_shards, schedule_instrument_deadlines,
  deadline_key,
}
use pmkt_core.Streaming.Supervisor.Checks.{invalidate_stale}
use pmkt_core.Streaming.Supervisor.Reachable.{
  Reached, built, Reached-owner, Reached-no_deadline_due,
}
use pmkt_core.Streaming.Supervisor.Recovery.{FeedRecoveryAction, of_venue, current_recovery_actions}
use pmkt_core.Streaming.Supervisor.Actions.{target, needs_action, current_recovery_actions-exact}
use pmkt_core.Streaming.Supervisor.Scheduled.{clock_of, handled_iff_stale}

abbrev no_cache : Cache
no_cache = record {
  tracked_instrument_count = 0;
  valid_instrument_count = 0;
  invalid_instrument_count = 0;
  stale_instrument_count = 0;
  reconnect_blocking_instrument_count = 0;
  current_book_flag_counts = λ _. 0;
  book_integrity_flag_counts = λ _. 0;
}

abbrev new_shard : String → List String → FeedShardHealth
new_shard name instruments = record {
  venue = "kalshi";
  shard_id = name;
  subscribed_instruments = instruments;
  relation_ids = [];
  connection_state = initialized;
  connected_monotonic_ns = none;
  last_message_monotonic_ns = none;
  last_valid_book_monotonic_ns = none;
  reconnect_count = 0;
  sequence_gap_count = 0;
  resync_count = 0;
  error_count = 0;
  valid_book_count = 0;
  invalid_book_count = 0;
  quality_flags = [];
  instrument_health = [];
  cache = no_cache;
  notices = [];
}

abbrev first_shard : FeedShardHealth
first_shard = new_shard "s1" ("A" ∷ "B" ∷ [])

abbrev second_shard : FeedShardHealth
second_shard = record (new_shard "s2" ("C" ∷ [])) { connection_state = disconnected }

abbrev supervisor : LiveFeedSupervisor
supervisor = supervise 5000 5000 record {
  shards = (("kalshi", "s1"), first_shard) ∷ (("kalshi", "s2"), second_shard) ∷ [];
  instrument_shards =
      (("kalshi", "A"), ("kalshi", "s1"))
      ∷ (("kalshi", "B"), ("kalshi", "s1"))
      ∷ (("kalshi", "C"), ("kalshi", "s2"))
      ∷ [];
}

abbrev first_key : Pair
first_key = ("kalshi", "s1")

abbrev second_key : Pair
second_key = ("kalshi", "s2")

supervisor-Reached : Reached supervisor
unfolding new_supervisor
supervisor-Reached = built (first_shard ∷ second_shard ∷ []) 5000 5000 supervisor refl

Reached-owner_example :
    (first_key ≡ first_key) × (get ("kalshi", "B") supervisor.instrument_shards ≡ some first_key)
unfolding get schedule_shards
Reached-owner_example =
    Reached-owner supervisor first_key first_key first_shard first_shard "B" supervisor-Reached refl
      refl refl refl refl

-- both clocks of both shards are due from the start, since nothing has come
abbrev later : LiveFeedSupervisor
later = (or_else (invalidate_stale 9 (some "kalshi") supervisor) (supervisor, [])).0

abbrev message_key : Key
message_key = record { venue = "kalshi"; shard_id = "s2"; instrument = ""; kind = "message" }

Reached-no_deadline_due_example : get message_key later.deadlines.values ≡ (
    if message_key.venue == "kalshi"
    then waiting 9 (get message_key supervisor.deadlines.values)
    else get message_key supervisor.deadlines.values)
unfolding invalidate_stale schedule_shards same add pair_leb
Reached-no_deadline_due_example =
    Reached-no_deadline_due supervisor later 9 "kalshi" (("kalshi", "s1") ∷ ("kalshi", "s2") ∷ [])
      message_key supervisor-Reached refl

abbrev known : InstrumentFeedHealth
known = record {
  instrument = "A";
  last_message_monotonic_ns = some 1000000;
  last_valid_book_monotonic_ns = none;
  last_book_monotonic_ns = none;
  valid_state = false;
  book_integrity_valid = true;
  initial_snapshot_received = true;
  valid_book_count = 0;
  invalid_book_count = 1;
  quality_flags = [];
}

abbrev connected_shard : FeedShardHealth
connected_shard = record first_shard {
  connected_monotonic_ns = some 2000000;
  instrument_health = ("A", known) ∷ [];
}

handled_iff_stale_example :
    let handled =
      (expire_venue ◌∷◌ 5002000000 "kalshi"
        (schedule_instrument_deadlines connected_shard "A" supervisor).deadlines
        []).1 in
    (mem (deadline_key connected_shard "A" "message") handled
      ≡ is_stale (age_ms 5002000000 (clock_of connected_shard known (some 1000000))) 5000)
    × (mem (deadline_key connected_shard "A" "book") handled
        ≡ is_stale (age_ms 5002000000 (clock_of connected_shard known none)) 5000)
unfolding get schedule_shards
handled_iff_stale_example =
    handled_iff_stale connected_shard "A" known supervisor 5002000000 supervisor-Reached refl refl

-- the second shard is disconnected and gets an action
current_recovery_actions-exact_example :
    (actions : List FeedRecoveryAction) × (current_recovery_actions (some "kalshi") none supervisor
      ≡ some actions)
    × (mem second_key (map target actions)
        ≡ (of_venue (some "kalshi") second_shard.venue && needs_action second_shard))
unfolding get schedule_shards
current_recovery_actions-exact_example =
    current_recovery_actions-exact supervisor (some "kalshi") second_key second_shard
      supervisor-Reached refl
