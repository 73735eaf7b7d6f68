-- ===== src/Streaming/Supervisor/Checks.antt =====
-- invalidate_stale of `LiveFeedSupervisor`. `none` stands for an exception: a KeyError, or the error of
-- a shard's method.
use pmkt_core.Prelude.{
  ℕ, Bool, true, false, not, ◌&&◌, List, [], ◌∷◌, Option, none, some, String, if◌then◌else◌, Eq,
  string_eq, ◌==◌, is_some, length, map,
}
use pmkt_core.Text.{truthy}
use pmkt_core.Collections.Dict.{get, put}
use pmkt_core.Collections.Sets.{mem, add}
use pmkt_core.Collections.Sorting.{text_leb, pair_leb, sort_by}
use pmkt_core.Streaming.Instrument.{InstrumentFeedHealth}
use pmkt_core.Streaming.Projection.{◌>>=◌}
use pmkt_core.Streaming.Shard.{FeedShardHealth}
use pmkt_core.Streaming.ShardStale.{
  invalidate_instrument_if_stale, invalidate_shard_clocks_if_stale,
}
use pmkt_core.Streaming.Deadlines.{Key, key_eq, Deadlines, expire_venue}
use pmkt_core.Streaming.Registry.{Pair, pair_eq}
use pmkt_core.Streaming.Supervisor.{LiveFeedSupervisor, set_overdue}

-- what the loop changes beside the deadlines; the sets have no element twice
pub record Check : Type 0 where
  pub shards : List (Pair × FeedShardHealth)
  pub overdue : Pair → List String
  pub changed : List Pair
  pub examined : List Key

-- s.add(x), where the size of the set is observed
unfoldable pub include : {A : Type 0} → ⦃e : Eq A⦄ → A → List A → List A
unfolding mem
include x s = if mem x s then s else x ∷ s

-- the instrument of a deadline; `examined` has no kind
abbrev pub examined_key : Key → Key
examined_key key = record key { kind = "" }

abbrev pub has_snapshot : Option InstrumentFeedHealth → Bool
has_snapshot none = false
has_snapshot (some state) = state.initial_snapshot_received

abbrev pub note_changed : Bool → Pair → Check → Check
note_changed transitioned key c =
    if transitioned then record c { changed = include key c.changed } else c

abbrev pub shard_key : Key → Pair
shard_key key = (key.venue, key.shard_id)

-- the case of an initial book that has not come
unfoldable pub check_initial : Key → FeedShardHealth → Check → Check
unfolding mem get include
check_initial key shard c0 =
    let c = record c0 { examined = include (examined_key key) c0.examined } in
    let overdue = c.overdue (shard_key key) in
    if not (has_snapshot (get key.instrument shard.instrument_health))
      && is_some shard.connected_monotonic_ns
      && not (mem key.instrument overdue)
    then note_changed true (shard_key key)
        (record c { overdue = set_overdue (shard_key key) (add key.instrument overdue) c.overdue })
    else c

-- the shard after a check of its own, and whether that changed it
abbrev pub after_check : Key → Check → FeedShardHealth × Bool → Check
after_check key c (shard, transitioned) =
    note_changed transitioned (shard_key key)
      (record c { shards = put (shard_key key) shard c.shards })

unfoldable pub check_shard : ℕ → LiveFeedSupervisor → Key → FeedShardHealth → Check → Option Check
unfolding check_initial include invalidate_instrument_if_stale invalidate_shard_clocks_if_stale put
    truthy
check_shard now sup key shard c =
    let a = sup.max_message_age_ms in
    let b = sup.max_valid_book_age_ms in
    if truthy key.instrument && key.kind == "initial_book"
    then some (check_initial key shard c)
    else if truthy key.instrument
    then (invalidate_instrument_if_stale now a b true key.instrument shard >>= λ r.
        some (after_check key (record c { examined = include (examined_key key) c.examined }) r))
    else (invalidate_shard_clocks_if_stale now a b shard >>= λ r. some (after_check key c r))

-- what the loop does for a live deadline
unfoldable pub check_key : ℕ → LiveFeedSupervisor → Key → Option Check → Option Check
unfolding check_shard get
check_key now sup key check =
    check >>= λ c. get (shard_key key) c.shards >>= λ shard. check_shard now sup key shard c

-- the heaps that are examined: of one venue, or all by name
abbrev pub selected_venues : Option String → Deadlines → List String
selected_venues (some venue) q = venue ∷ []
selected_venues none q = sort_by text_leb (map (λ h. h.0) q.heaps)

unfoldable pub check_venues :
    ℕ → LiveFeedSupervisor → List String → Deadlines → Option Check → Deadlines × Option Check
unfolding check_key expire_venue
check_venues now sup [] q check = (q, check)
check_venues now sup (venue ∷ venues) q check =
    let r = expire_venue (check_key now sup) now venue q check in
    check_venues now sup venues r.0 r.1

abbrev pub checked :
    LiveFeedSupervisor → Deadlines × Option Check → Option (LiveFeedSupervisor × List Pair)
checked sup (q, none) = none
checked sup (q, some c) = some (
  record sup {
    shards = c.shards;
    deadlines = q;
    overdue = c.overdue;
    last_staleness_instruments_examined = length c.examined;
  },
  sort_by pair_leb c.changed,
)

-- invalidate_stale
unfoldable pub invalidate_stale :
    ℕ → Option String → LiveFeedSupervisor → Option (LiveFeedSupervisor × List Pair)
unfolding check_venues sort_by
invalidate_stale now venue sup = checked sup (
    check_venues now sup (selected_venues venue sup.deadlines) sup.deadlines
      (some record { shards = sup.shards; overdue = sup.overdue; changed = []; examined = [] }))
