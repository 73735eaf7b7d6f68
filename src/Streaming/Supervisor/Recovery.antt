-- ===== src/Streaming/Supervisor/Recovery.antt =====
-- The recovery actions of `LiveFeedSupervisor`. `none` stands for a KeyError.
use pmkt_core.Prelude.{
  ℕ, Bool, true, false, not, ◌&&◌, List, [], ◌∷◌, ◌++◌, Option, none, some, String, if◌then◌else◌,
  string_eq, ◌==◌, map, null,
}
use pmkt_core.Collections.Dict.{get}
use pmkt_core.Collections.Sets.{mem}
use pmkt_core.Collections.Sorting.{text_leb, pair_leb, sort_by}
use pmkt_core.Streaming.Instrument.{InstrumentFeedHealth}
use pmkt_core.Streaming.Projection.{Instruments, ◌>>=◌}
use pmkt_core.Streaming.Shard.{FeedShardHealth, ConnectionState, disconnected}
use pmkt_core.Streaming.Registry.{Pair, pair_eq}
use pmkt_core.Streaming.Supervisor.{LiveFeedSupervisor}
use pmkt_core.Streaming.Supervisor.Checks.{invalidate_stale}

pub record FeedRecoveryAction : Type 0 where
  pub action : String
  pub venue : String
  pub shard_id : String
  pub reasons : List String
  pub instruments : List String

abbrev pub is_disconnected : ConnectionState → Bool
is_disconnected disconnected = true
is_disconnected _ = false

-- _socket_recovery_reasons; the reasons are distinct, so dict.fromkeys keeps them
unfoldable pub socket_recovery_reasons : FeedShardHealth → List String
unfolding mem
socket_recovery_reasons s =
    (if is_disconnected s.connection_state then "connection_disconnected" ∷ [] else [])
    ++ (if mem "hash_mismatch" s.quality_flags then "hash_mismatch" ∷ "book_integrity" ∷ [] else [])

abbrev pub is_broken : InstrumentFeedHealth → Bool
is_broken state =
    state.initial_snapshot_received
    && not state.book_integrity_valid
    && not (mem "reconnect" state.quality_flags)

-- the keys of `broken`
unfoldable pub broken_instruments : Instruments → List String
unfolding mem
broken_instruments [] = []
broken_instruments ((i, state) ∷ health) =
    let rest = broken_instruments health in if is_broken state then i ∷ rest else rest

abbrev pub action_on : FeedShardHealth → List String → List String → FeedRecoveryAction
action_on s reasons instruments = record {
  action = "reconnect_socket";
  venue = s.venue;
  shard_id = s.shard_id;
  reasons = reasons;
  instruments = instruments;
}

-- what the loop of `current_recovery_actions` appends for a shard
unfoldable pub action_for : FeedShardHealth → Option FeedRecoveryAction
unfolding socket_recovery_reasons broken_instruments sort_by
action_for s =
    let reasons = socket_recovery_reasons s in
    let broken = broken_instruments s.instrument_health in
    if not (null reasons)
    then some (action_on s reasons [])
    else if not (null broken)
    then some (action_on s ("book_integrity" ∷ []) (sort_by text_leb broken))
    else none

abbrev pub of_venue : Option String → String → Bool
of_venue none v = true
of_venue (some venue) v = v == venue

unfoldable pub keys_of_venue : Option String → List Pair → List Pair
keys_of_venue venue [] = []
keys_of_venue venue (key ∷ keys) =
    let rest = keys_of_venue venue keys in if of_venue venue key.0 then key ∷ rest else rest

-- shard_keys
unfoldable pub shard_keys : Option String → LiveFeedSupervisor → List Pair
unfolding keys_of_venue sort_by
shard_keys venue sup = keys_of_venue venue (sort_by pair_leb (map (λ h. h.0) sup.shards))

-- the loop of `_selected_shards` over sorted keys
unfoldable pub select_shards :
    List (Pair × FeedShardHealth)
    → Option String
    → List Pair
    → List Pair
    → Option (List FeedShardHealth)
unfolding mem get
select_shards shards venue [] seen = some []
select_shards shards venue (key ∷ keys) seen = elim (mem key seen) [
  | true ↦ select_shards shards venue keys seen
  | false ↦ get key shards >>= λ s. select_shards shards venue keys (key ∷ seen) >>= λ rest.
      some (if of_venue venue s.venue then s ∷ rest else rest)
]

abbrev pub given_keys : Option (List Pair) → Option String → LiveFeedSupervisor → List Pair
given_keys none venue sup = shard_keys venue sup
given_keys (some keys) venue sup = keys

-- _selected_shards
unfoldable pub selected_shards :
    Option (List Pair) → Option String → LiveFeedSupervisor → Option (List FeedShardHealth)
unfolding select_shards shard_keys sort_by
selected_shards keys venue sup =
    select_shards sup.shards venue (sort_by pair_leb (given_keys keys venue sup)) []

unfoldable pub actions_for : List FeedShardHealth → List FeedRecoveryAction
unfolding action_for
actions_for [] = []
actions_for (s ∷ shards) = elim (action_for s) [
  | none ↦ actions_for shards
  | some action ↦ action ∷ actions_for shards
]

-- current_recovery_actions
unfoldable pub current_recovery_actions :
    Option String → Option (List Pair) → LiveFeedSupervisor → Option (List FeedRecoveryAction)
unfolding selected_shards actions_for
current_recovery_actions venue keys sup =
    selected_shards keys venue sup >>= λ shards. some (actions_for shards)

-- recovery_actions: the staleness of all venues is refreshed
unfoldable pub recovery_actions :
    ℕ → Option String → LiveFeedSupervisor → Option (LiveFeedSupervisor × List FeedRecoveryAction)
unfolding invalidate_stale current_recovery_actions
recovery_actions now venue sup = invalidate_stale now none sup >>= λ r.
    current_recovery_actions venue none r.0 >>= λ actions. some (r.0, actions)
