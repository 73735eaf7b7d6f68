-- ===== src/Book/PolymarketMessages.antt =====
-- The messages of src/pmkt/exchanges/polymarket/ws.py that change a book.
-- The returned snapshots render the changed books and are left out.
pub mod Sticky
pub mod Dispatch
pub mod Changes
pub mod Reachable
pub mod Routing
use pmkt_core.Prelude.{
  ℕ, Bool, true, false, not, ◌&&◌, ◌||◌, List, [], ◌∷◌, Option, none, some, String, if◌then◌else◌,
  string_eq, ◌==◌, null, or_else,
}
use pmkt_core.Prelude.Int.{ℤ, pos, ltb_ℤ, leb_ℤ, int_eq}
use pmkt_core.Collections.Sets.{mem, add, union}
use pmkt_core.Collections.Dict.{get, put}
use pmkt_core.Text.{truthy}
use pmkt_core.Json.{
  Value, null_value, arr, obj, Items, nil, cons, Fields, get_value, Python, str_or, str, is_none,
  finite_decimal, parse_float,
}
use pmkt_core.Book.Levels.{Ladder, is_price, set_level, decimal_levels, well_formed_levels}
use pmkt_core.Book.Polymarket.{
  MarketBookState, new_book, recompute_best_prices, persistent_flags, refresh_validity,
}

module _ (py : Python) where
  -- str(value), None where the value is None
  unfoldable pub optional_str : Value → Option String
  unfolding str
  optional_str value = if is_none value then none else some (str py value)

  -- what every message updates: the market, the time and the kind of the last event
  unfoldable pub take_header : ℕ → Fields → Value → String → MarketBookState → MarketBookState
  unfolding get_value str_or
  take_header now message timestamp event_type s = record s {
    market = some (str_or py (get_value message "market") (or_else s.market ""));
    timestamp = timestamp;
    last_received_at_monotonic_ns = some now;
    last_event_type = some event_type;
  }

  -- self.last_hash = str(message["hash"]) if message.get("hash") is not None
  unfoldable pub take_hash : Fields → MarketBookState → MarketBookState
  unfolding get_value optional_str
  take_hash message s = record s {
    last_hash =
        (if is_none (get_value message "hash")
          then s.last_hash
          else optional_str (get_value message "hash"));
  }

  unfoldable pub load_book : Fields → MarketBookState → MarketBookState
  unfolding get_value decimal_levels recompute_best_prices
  load_book message s = recompute_best_prices (record s {
    bids = decimal_levels py (get_value message "bids");
    asks = decimal_levels py (get_value message "asks");
    initial_snapshot_received = true;
  })

  -- apply_book
  unfoldable pub apply_book : ℕ → Fields → MarketBookState → MarketBookState
  unfolding take_header take_hash load_book well_formed_levels refresh_validity get_value
  apply_book now message s =
      let malformed = not (
        well_formed_levels py false (get_value message "bids")
        && well_formed_levels py false (get_value message "asks")) in
      refresh_validity (if malformed then "malformed_book" ∷ [] else []) (
        load_book message
          (take_hash message (take_header now message (get_value message "timestamp") "book" s)))

  unfoldable pub early_change : MarketBookState → MarketBookState
  early_change s = if s.initial_snapshot_received then s else record s {
    valid_state = false;
    quality_flags = union s.quality_flags ("delta_before_snapshot" ∷ "no_initial_snapshot" ∷ []);
  }

  unfoldable pub is_buy : String → Bool
  is_buy side = mem side ("BUY" ∷ "BID" ∷ "BIDS" ∷ [])

  unfoldable pub is_sell : String → Bool
  is_sell side = mem side ("SELL" ∷ "ASK" ∷ "ASKS" ∷ [])

  -- _set_level
  unfoldable pub set_side : String → ℤ → ℤ → MarketBookState → MarketBookState
  unfolding is_buy is_sell set_level recompute_best_prices
  set_side side price size s =
      if is_buy side
      then recompute_best_prices (record s { bids = set_level price size s.bids })
      else if is_sell side
      then recompute_best_prices (record s { asks = set_level price size s.asks })
      else s

  unfoldable pub add_flag : String → MarketBookState → MarketBookState
  add_flag flag s = record s { quality_flags = add flag s.quality_flags }

  -- the change of one level, of a side in upper case
  unfoldable pub change_level : String → Option ℤ → Option ℤ → MarketBookState → MarketBookState
  unfolding set_side add_flag is_buy is_sell
  change_level side (some price) (some size) s =
      if (not (is_buy side || is_sell side) || not (is_price py price)) || ltb_ℤ size (pos 0)
      then add_flag "malformed_book" s
      else set_side side price size s
  change_level side _ _ s = add_flag "malformed_book" s

  first_text : Fields → List String → Option String
  unfolding get_value optional_str
  first_text payload [] = none
  first_text payload (key ∷ keys) =
      let rest = first_text payload keys in
      if is_none (get_value payload key) then rest else optional_str (get_value payload key)

  -- _previous_hash
  unfoldable pub previous_hash : Fields → Fields → Option String
  unfolding first_text
  previous_hash change parent =
      let keys = "previous_hash" ∷ "prev_hash" ∷ "old_hash" ∷ "previous_book_hash" ∷ [] in
      let above = first_text parent keys in
      let own = first_text change keys in first_known own above
    where
      first_known : Option String → Option String → Option String
      first_known none above = above
      first_known (some h) above = some h

  unfoldable pub check_hash : Option String → Option String → MarketBookState → MarketBookState
  check_hash (some previous) (some known) s =
      if previous == known
      then s
      else record s { valid_state = false; quality_flags = add "hash_mismatch" s.quality_flags }
  check_hash _ _ s = s

  -- the time of a change: that of the message, or else its own
  unfoldable pub change_timestamp : Fields → Fields → Value
  unfolding get_value
  change_timestamp change parent =
      if is_none (get_value parent "timestamp")
      then get_value change "timestamp"
      else get_value parent "timestamp"

  -- what a change does to the ladders and flags, before its hashes are looked at
  unfoldable pub change_effect : ℕ → Fields → Fields → MarketBookState → MarketBookState
  unfolding take_header early_change change_level change_timestamp get_value str_or finite_decimal
  change_effect now change parent s =
      change_level (py.upper (str_or py (get_value change "side") ""))
        (finite_decimal py (get_value change "price")) (finite_decimal py (get_value change "size"))
        (early_change (take_header now parent (change_timestamp change parent) "price_change" s))

  -- the book before its validity is refreshed
  unfoldable pub hashed : Fields → Fields → MarketBookState → MarketBookState
  unfolding take_hash check_hash previous_hash
  hashed change parent s = take_hash change (check_hash (previous_hash change parent) s.last_hash s)

  -- apply_price_change
  unfoldable pub apply_price_change : ℕ → Fields → Fields → MarketBookState → MarketBookState
  unfolding change_effect hashed refresh_validity persistent_flags
  apply_price_change now change parent s0 =
      let s = hashed change parent (change_effect now change parent s0) in
      refresh_validity (persistent_flags s) s

  unfoldable pub refresh_persistent : MarketBookState → MarketBookState
  unfolding refresh_validity persistent_flags
  refresh_persistent s = refresh_validity (persistent_flags s) s

  -- _apply_best_fields
  unfoldable pub apply_best_fields : Fields → MarketBookState → MarketBookState
  unfolding get_value finite_decimal
  apply_best_fields payload s =
      let bid = finite_decimal py (get_value payload "best_bid") in
      let ask = finite_decimal py (get_value payload "best_ask") in
      record s { best_bid = keep bid s.best_bid; best_ask = keep ask s.best_ask }
    where
      keep : Option ℤ → Option ℤ → Option ℤ
      keep none old = old
      keep (some p) old = some p

  -- apply_best_bid_ask
  unfoldable pub apply_best_bid_ask : ℕ → Fields → MarketBookState → MarketBookState
  unfolding take_header apply_best_fields refresh_persistent get_value
  apply_best_bid_ask now message s = refresh_persistent (
      apply_best_fields message
        (take_header now message (get_value message "timestamp") "best_bid_ask" s))

  unfoldable pub take_trade : Fields → MarketBookState → MarketBookState
  unfolding get_value parse_float optional_str
  take_trade message s = record s {
    last_trade_price = parse_float py (get_value message "price");
    last_trade_size = parse_float py (get_value message "size");
    last_trade_side = optional_str (get_value message "side");
  }

  -- apply_last_trade
  unfoldable pub apply_last_trade : ℕ → Fields → MarketBookState → MarketBookState
  unfolding take_header refresh_persistent get_value take_trade
  apply_last_trade now message s = refresh_persistent (
      take_trade message
        (take_header now message (get_value message "timestamp") "last_trade_price" s))

  unfoldable pub take_tick_size : Fields → MarketBookState → MarketBookState
  unfolding get_value parse_float
  take_tick_size message s = record s {
    tick_size = parse_float py (get_value message "new_tick_size");
  }

  -- apply_tick_size_change
  unfoldable pub apply_tick_size_change : ℕ → Fields → MarketBookState → MarketBookState
  unfolding take_header refresh_persistent get_value take_tick_size
  apply_tick_size_change now message s = refresh_persistent (
      take_tick_size message
        (take_header now message (get_value message "timestamp") "tick_size_change" s))

  -- apply_lifecycle
  unfoldable pub apply_lifecycle : ℕ → Fields → String → MarketBookState → MarketBookState
  unfolding take_header refresh_validity persistent_flags get_value add_flag
  apply_lifecycle now message event_type s0 =
      let s = take_header now message (get_value message "timestamp") event_type s0 in
      let opened = add_flag "new_market" s in
      if event_type == "market_resolved"
      then record (add_flag "market_resolved" s) { valid_state = false }
      else if event_type == "new_market"
      then refresh_validity (add "new_market" (persistent_flags opened)) opened
      else s
