-- ===== src/Book/Polymarket.antt =====
-- `MarketBookState` of src/pmkt/exchanges/polymarket/ws.py: the state of one token's book and the
-- judgement of its validity. `now` stands for time.monotonic_ns(), and a float is its bit pattern.
pub mod Validity
use pmkt_core.Prelude.{
  ℕ, ◌+◌, Bool, true, false, not, ◌&&◌, List, [], ◌∷◌, Option, none, some, String, if◌then◌else◌,
  string_eq, ◌==◌, null, or_else,
}
use pmkt_core.Prelude.Int.{ℤ, pos, ltb_ℤ, leb_ℤ, int_eq}
use pmkt_core.Collections.Sets.{mem, add, inter, diff, union}
use pmkt_core.Json.{Value, null_value, Fields, get_value, Python, str_or, str, is_none}
use pmkt_core.Book.Levels.{Ladder, max_price, min_price}

pub record MarketBookState : Type 0 where
  pub asset_id : String
  pub market : Option String
  pub bids : Ladder
  pub asks : Ladder
  pub best_bid : Option ℤ
  pub best_ask : Option ℤ
  pub last_trade_price : Option ℕ
  pub last_trade_size : Option ℕ
  pub last_trade_side : Option String
  pub tick_size : Option ℕ
  pub timestamp : Value
  pub last_event_type : Option String
  pub initial_snapshot_received : Bool
  pub valid_state : Bool
  pub quality_flags : List String
  pub last_hash : Option String
  pub last_received_at_monotonic_ns : Option ℕ
  pub reconnect_count : ℕ

-- MarketBookState(asset_id=token)
unfoldable pub new_book : String → MarketBookState
new_book token = record {
  asset_id = token;
  market = none;
  bids = [];
  asks = [];
  best_bid = none;
  best_ask = none;
  last_trade_price = none;
  last_trade_size = none;
  last_trade_side = none;
  tick_size = none;
  timestamp = null_value;
  last_event_type = none;
  initial_snapshot_received = false;
  valid_state = false;
  quality_flags = "no_initial_snapshot" ∷ [];
  last_hash = none;
  last_received_at_monotonic_ns = none;
  reconnect_count = 0;
}

unfoldable pub book_integrity_valid : MarketBookState → Bool
book_integrity_valid s =
    s.initial_snapshot_received
    && null
        (diff s.quality_flags ("empty_bid" ∷ "empty_ask" ∷ "new_market" ∷ "market_resolved" ∷ []))

unfoldable pub mark_reconnect : MarketBookState → MarketBookState
mark_reconnect s = record s {
  reconnect_count = s.reconnect_count + 1;
  bids = [];
  asks = [];
  best_bid = none;
  best_ask = none;
  valid_state = false;
  initial_snapshot_received = false;
  quality_flags = "reconnect" ∷ "no_initial_snapshot" ∷ [];
  last_received_at_monotonic_ns = none;
  last_hash = none;
}

-- _recompute_best_prices
unfoldable pub recompute_best_prices : MarketBookState → MarketBookState
unfolding max_price min_price
recompute_best_prices s = record s { best_bid = max_price s.bids; best_ask = min_price s.asks }

abbrev pub persistent : List String
persistent =
    "malformed_book" ∷ "delta_before_snapshot" ∷ "hash_mismatch" ∷ "market_resolved"
    ∷ "no_initial_snapshot" ∷ "new_market" ∷ "reconnect" ∷ []

-- _persistent_flags
unfoldable pub persistent_flags : MarketBookState → List String
persistent_flags s = inter s.quality_flags persistent

unfoldable pub crossed_flags : Option ℤ → Option ℤ → List String → List String
crossed_flags (some bid) (some ask) flags =
    if ltb_ℤ ask bid
    then add "crossed_book" (add "negative_spread" flags)
    else if ask == bid
    then add "crossed_book" flags
    else flags
crossed_flags _ _ flags = flags

abbrev pub missing : Option ℤ → String → List String → List String
missing none flag flags = add flag flags
missing (some _) flag flags = flags

-- the flags that `_refresh_validity` computes
unfoldable pub refreshed_flags : List String → MarketBookState → List String
unfolding crossed_flags
refreshed_flags preserve s =
    let received =
      if s.initial_snapshot_received then preserve else add "no_initial_snapshot" preserve in
    crossed_flags s.best_bid s.best_ask
      (missing s.best_ask "empty_ask" (missing s.best_bid "empty_bid" received))

-- _refresh_validity
unfoldable pub refresh_validity : List String → MarketBookState → MarketBookState
unfolding refreshed_flags
refresh_validity preserve s =
    let flags = refreshed_flags preserve s in
    record s { quality_flags = flags; valid_state = s.initial_snapshot_received && null flags }
