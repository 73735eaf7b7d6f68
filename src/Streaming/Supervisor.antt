-- ===== src/Streaming/Supervisor.antt =====
-- `LiveFeedSupervisor` of src/pmkt/streaming/supervisor.py: its constructor and the deadlines that it
-- schedules. The callback that it gives to a shard reads the clocks that a notice of the shard has.
-- `_overdue_initial_instruments` has an entry for each shard and is a function.
pub mod Actions
pub mod Checks
pub mod Identity
pub mod Keeping
pub mod Kept
pub mod Owners
pub mod Reachable
pub mod Recovery
pub mod SameShard
pub mod Scheduled
use pmkt_core.Prelude.{
  ℕ, ◌+◌, ◌-◌, ◌*◌, ◌≡◌, ◌↔◌, Bool, true, false, not, ◌&&◌, ◌||◌, List, [], ◌∷◌, Option, none, some,
  String, if◌then◌else◌, ltb, leb, max, Eq, string_eq, nat_eq, ◌==◌, or_else, is_some, arith,
}
use pmkt_core.Collections.Dict.{get, put}
use pmkt_core.Collections.Sets.{mem, add, discard}
use pmkt_core.Streaming.Instrument.{InstrumentFeedHealth}
use pmkt_core.Streaming.Projection.{◌>>=◌}
use pmkt_core.Streaming.Shard.{FeedShardHealth, Notice}
use pmkt_core.Streaming.Derived.{deadline_ns}
use pmkt_core.Streaming.Deadlines.{Key, Deadlines, no_deadlines, schedule, cancel}
use pmkt_core.Streaming.Registry.{
  Pair, pair_eq, Checked, refused, done, Registry, key_of, silent, register_shards,
}

pub record LiveFeedSupervisor : Type 0 where
  pub shards : List (Pair × FeedShardHealth)
  pub instrument_shards : List (Pair × Pair)
  pub max_message_age_ms : ℕ
  pub max_valid_book_age_ms : ℕ
  pub initialization_sla_ms : ℕ
  pub deadlines : Deadlines
  -- _overdue_initial_instruments
  pub overdue : Pair → List String
  pub last_staleness_instruments_examined : ℕ

abbrev pub deadline_key : FeedShardHealth → String → String → Key
deadline_key s instrument kind = record {
  venue = s.venue;
  shard_id = s.shard_id;
  instrument = instrument;
  kind = kind;
}

-- _schedule_stale_deadline
unfoldable pub schedule_deadline :
    FeedShardHealth → String → String → Option ℕ → ℕ → LiveFeedSupervisor → LiveFeedSupervisor
unfolding schedule deadline_ns
schedule_deadline s instrument kind source max_age sup = record sup {
  deadlines = schedule (deadline_key s instrument kind) (deadline_ns source max_age) sup.deadlines;
}

-- _cancel_stale_deadline
unfoldable pub cancel_deadline :
    FeedShardHealth → String → String → LiveFeedSupervisor → LiveFeedSupervisor
unfolding cancel
cancel_deadline s instrument kind sup = record sup {
  deadlines = cancel (deadline_key s instrument kind) sup.deadlines;
}

-- the set of a shard is changed
abbrev pub set_overdue : Pair → List String → (Pair → List String) → Pair → List String
set_overdue key instruments overdue k = if key == k then instruments else overdue k

-- _overdue_initial_instruments[...].discard(instrument)
unfoldable pub not_overdue : FeedShardHealth → String → LiveFeedSupervisor → LiveFeedSupervisor
unfolding discard
not_overdue s instrument sup = record sup {
  overdue = set_overdue (key_of s) (discard instrument (sup.overdue (key_of s))) sup.overdue;
}

-- the first of two clocks that is set
abbrev pub first_set : Option ℕ → Option ℕ → Option ℕ
first_set none b = b
first_set (some a) b = some a

-- source or connected; 0 is false
abbrev pub or_connected : Option ℕ → ℕ → ℕ
or_connected none connected = connected
or_connected (some source) connected = if source == 0 then connected else source

-- the clock of an instrument, which a connection starts again
unfoldable pub restarted : Option ℕ → Bool → Option ℕ → Option ℕ
restarted none reconnect source = source
restarted (some connected) reconnect source =
    if not (is_some source) || reconnect
    then some (max (or_connected source connected) connected)
    else source

unfoldable pub schedule_initial :
    FeedShardHealth → String → Option ℕ → LiveFeedSupervisor → LiveFeedSupervisor
unfolding cancel_deadline not_overdue schedule_deadline
schedule_initial s instrument none sup =
    not_overdue s instrument (cancel_deadline s instrument "initial_book" sup)
schedule_initial s instrument (some connected) sup =
    schedule_deadline s instrument "initial_book" (some connected) sup.initialization_sla_ms sup

unfoldable pub schedule_clocks :
    FeedShardHealth → String → InstrumentFeedHealth → LiveFeedSupervisor → LiveFeedSupervisor
unfolding cancel_deadline not_overdue schedule_deadline restarted mem
schedule_clocks s instrument state sup0 =
    let reconnect = mem "reconnect" state.quality_flags in
    let sup1 = not_overdue s instrument (cancel_deadline s instrument "initial_book" sup0) in
    let message_source =
      restarted s.connected_monotonic_ns reconnect state.last_message_monotonic_ns in
    let book_source =
      restarted s.connected_monotonic_ns reconnect state.last_valid_book_monotonic_ns in
    let sup =
      schedule_deadline s instrument "message" message_source sup1.max_message_age_ms sup1 in
    schedule_deadline s instrument "book" book_source sup.max_valid_book_age_ms sup

unfoldable pub schedule_state :
    FeedShardHealth → String → Option InstrumentFeedHealth → LiveFeedSupervisor → LiveFeedSupervisor
unfolding schedule_initial schedule_clocks
schedule_state s instrument none sup = schedule_initial s instrument s.connected_monotonic_ns sup
schedule_state s instrument (some state) sup =
    if state.initial_snapshot_received
    then schedule_clocks s instrument state sup
    else schedule_initial s instrument s.connected_monotonic_ns sup

-- _schedule_instrument_deadlines
unfoldable pub schedule_instrument_deadlines :
    FeedShardHealth → String → LiveFeedSupervisor → LiveFeedSupervisor
unfolding schedule_state get
schedule_instrument_deadlines s instrument sup =
    schedule_state s instrument (get instrument s.instrument_health) sup

unfoldable pub schedule_all_instruments :
    FeedShardHealth → List String → LiveFeedSupervisor → LiveFeedSupervisor
unfolding schedule_instrument_deadlines
schedule_all_instruments s [] sup = sup
schedule_all_instruments s (i ∷ instruments) sup =
    schedule_all_instruments s instruments (schedule_instrument_deadlines s i sup)

-- _schedule_shard_deadlines
unfoldable pub schedule_shard_deadlines :
    FeedShardHealth → Bool → LiveFeedSupervisor → LiveFeedSupervisor
unfolding schedule_deadline schedule_all_instruments
schedule_shard_deadlines s rebuild sup0 =
    let sup1 =
      schedule_deadline s "" "message" s.last_message_monotonic_ns sup0.max_message_age_ms sup0 in
    let source = first_set s.last_valid_book_monotonic_ns s.connected_monotonic_ns in
    let sup = schedule_deadline s "" "book" source sup1.max_valid_book_age_ms sup1 in
    if rebuild then schedule_all_instruments s s.subscribed_instruments sup else sup

-- the shard as a notice shows it
abbrev pub noticed : Notice → FeedShardHealth → FeedShardHealth
noticed n s = record s {
  last_message_monotonic_ns = n.last_message_monotonic_ns;
  last_valid_book_monotonic_ns = n.last_valid_book_monotonic_ns;
  connected_monotonic_ns = n.connected_monotonic_ns;
  instrument_health = n.instrument_health;
}

abbrev pub schedule_named :
    FeedShardHealth → Option String → LiveFeedSupervisor → LiveFeedSupervisor
schedule_named s none sup = sup
schedule_named s (some instrument) sup = schedule_instrument_deadlines s instrument sup

-- _on_shard_deadline_change
unfoldable pub on_shard_deadline_change :
    FeedShardHealth → Option String → Bool → LiveFeedSupervisor → LiveFeedSupervisor
unfolding schedule_shard_deadlines schedule_all_instruments schedule_instrument_deadlines
on_shard_deadline_change s instrument rebuild sup0 =
    let sup = schedule_shard_deadlines s false sup0 in
    if rebuild
    then schedule_all_instruments s s.subscribed_instruments sup
    else schedule_named s instrument sup

-- the callbacks of a log, whose latest is its first
unfoldable pub deliver : FeedShardHealth → List Notice → LiveFeedSupervisor → LiveFeedSupervisor
unfolding on_shard_deadline_change
deliver s [] sup = sup
deliver s (n ∷ earlier) sup =
    on_shard_deadline_change (noticed n s) n.instrument n.rebuild_instruments
      (deliver s earlier sup)

unfoldable pub schedule_shards :
    List (Pair × FeedShardHealth) → LiveFeedSupervisor → LiveFeedSupervisor
unfolding schedule_shard_deadlines
schedule_shards [] sup = sup
schedule_shards ((key, s) ∷ shards) sup =
    schedule_shards shards (schedule_shard_deadlines s true sup)

abbrev pub supervise : ℕ → ℕ → Registry → LiveFeedSupervisor
supervise max_message_age_ms max_valid_book_age_ms r = schedule_shards r.shards record {
  shards = r.shards;
  instrument_shards = r.instrument_shards;
  max_message_age_ms = max_message_age_ms;
  max_valid_book_age_ms = max_valid_book_age_ms;
  initialization_sla_ms = 30000;
  deadlines = no_deadlines;
  overdue = λ key. [];
  last_staleness_instruments_examined = 0;
}

-- LiveFeedSupervisor(shards, ...)
unfoldable pub new_supervisor : List FeedShardHealth → ℕ → ℕ → Checked LiveFeedSupervisor
unfolding register_shards schedule_shards
new_supervisor shards max_message_age_ms max_valid_book_age_ms =
    elim (register_shards shards record { shards = []; instrument_shards = [] }) [
      | refused e ↦ refused e
      | done r ↦ done (supervise max_message_age_ms max_valid_book_age_ms r)
    ]

abbrev pub with_shard :
    {A : Type 0} → Pair → FeedShardHealth × A → LiveFeedSupervisor → LiveFeedSupervisor × A
with_shard key (s, a) sup =
    (deliver s s.notices (record sup { shards = put key (silent s) sup.shards }), a)

-- a method of the shard at a key, with the callbacks that it makes; the notices of a shard at rest have
-- been delivered. `none` stands for a KeyError or the error of the method.
unfoldable pub call_shard :
    {A : Type 0}
    → Pair
    → (FeedShardHealth → Option (FeedShardHealth × A))
    → LiveFeedSupervisor
    → Option (LiveFeedSupervisor × A)
unfolding get put deliver
call_shard key method sup =
    get key sup.shards >>= λ s. method s >>= λ r. some (with_shard key r sup)
