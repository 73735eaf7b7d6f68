-- ===== src/Book/KalshiMessages.antt =====
-- How a message changes the books of src/pmkt/exchanges/kalshi/ws.py. The snapshot that the
-- methods return is a function of the book that they leave, and is not repeated here.
pub mod Sticky
pub mod Deltas
pub mod Reachable
use pmkt_core.Prelude.{
  Bool, true, false, not, ◌&&◌, ◌||◌, List, [], ◌∷◌, Option, none, some, String, if◌then◌else◌,
  or_else, string_eq, ◌==◌,
}
use pmkt_core.Prelude.Int.{ℤ, pos, leb_ℤ, ltb_ℤ, ◌+ℤ◌, int_eq}
use pmkt_core.Text.{truthy}
use pmkt_core.Collections.Dict.{get, put, remove}
use pmkt_core.Collections.Sets.{add, union}
use pmkt_core.Json.{
  Value, Fields, Python, get_value, first_present, is_none, str, str_or, parse_int, finite_decimal,
}
use pmkt_core.Book.Levels.{set_level, Ladder, is_price, decimal_levels, well_formed_levels}
use pmkt_core.Book.Kalshi.{
  KalshiOrderBookState, new_book, message_payload, persistent_flags, sequence_flags, apply_sequence,
  refresh_validity,
}

-- msg.get("ts_ms") if it is not None, else msg.get("ts")
unfoldable pub message_timestamp : Fields → Value
unfolding get_value
message_timestamp msg =
    let ms = get_value msg "ts_ms" in if is_none ms then get_value msg "ts" else ms

module _ (py : Python) where
  unfoldable pub optional_id : Value → Option String → Option String
  unfolding str
  optional_id value known = if is_none value then known else some (str py value)

  -- the fields that a snapshot and a delta take over alike
  unfoldable pub take_header : Fields → KalshiOrderBookState → KalshiOrderBookState
  unfolding get_value str_or optional_id message_timestamp
  take_header msg s = record s {
    market_ticker = str_or py (get_value msg "market_ticker") s.market_ticker;
    market_id = optional_id (get_value msg "market_id") s.market_id;
    timestamp = message_timestamp msg;
  }

  -- self._apply_sequence(message.get("sid"), message.get("seq"))
  unfoldable pub sequence_of : Fields → KalshiOrderBookState → KalshiOrderBookState
  unfolding get_value parse_int
  sequence_of message =
      apply_sequence (parse_int py (get_value message "sid"))
        (parse_int py (get_value message "seq"))

  unfoldable pub yes_ladder : Fields → Value
  unfolding first_present
  yes_ladder msg = first_present msg ("yes_dollars_fp" ∷ "yes_dollars" ∷ "yes" ∷ [])

  unfoldable pub no_ladder : Fields → Value
  unfolding first_present
  no_ladder msg = first_present msg ("no_dollars_fp" ∷ "no_dollars" ∷ "no" ∷ [])

  unfoldable pub ladders_well_formed : Fields → Bool
  unfolding yes_ladder no_ladder well_formed_levels
  ladders_well_formed msg =
      well_formed_levels py true (yes_ladder msg) && well_formed_levels py true (no_ladder msg)

  -- the book of a snapshot, before its sequence is applied
  unfoldable pub load_snapshot : Fields → KalshiOrderBookState → KalshiOrderBookState
  unfolding yes_ladder no_ladder decimal_levels take_header
  load_snapshot msg s = record (take_header msg s) {
    yes_bids = decimal_levels py (yes_ladder msg);
    no_bids = decimal_levels py (no_ladder msg);
    initial_snapshot_received = true;
    valid_state = true;
    quality_flags = [];
    sid = none;
    last_seq = none;
  }

  -- apply_snapshot
  unfoldable pub apply_snapshot : Fields → KalshiOrderBookState → KalshiOrderBookState
  unfolding message_payload load_snapshot sequence_of sequence_flags ladders_well_formed
      refresh_validity
  apply_snapshot message s0 =
      let msg = message_payload message in
      let s = sequence_of message (load_snapshot msg s0) in
      let flags = sequence_flags s in
      let preserve = if ladders_well_formed msg then flags else add "malformed_book" flags in
      record (refresh_validity py.one preserve s) { last_event_type = some "orderbook_snapshot" }

  unfoldable pub early_delta : KalshiOrderBookState → KalshiOrderBookState
  early_delta s = if s.initial_snapshot_received then s else record s {
    valid_state = false;
    quality_flags = union s.quality_flags ("delta_before_snapshot" ∷ "no_initial_snapshot" ∷ []);
  }

  unfoldable pub add_flag : String → KalshiOrderBookState → KalshiOrderBookState
  add_flag flag s = record s { quality_flags = add flag s.quality_flags }

  -- levels.get(price, Decimal(0)) + delta
  unfoldable pub next_size : ℤ → ℤ → Ladder → ℤ
  unfolding get ◌+ℤ◌
  next_size price delta ladder = or_else (get price ladder) (pos 0) +ℤ delta

  unfoldable pub change_yes : ℤ → ℤ → KalshiOrderBookState → KalshiOrderBookState
  unfolding set_level next_size
  change_yes price delta s = record s {
    yes_bids = set_level price (next_size price delta s.yes_bids) s.yes_bids;
  }

  unfoldable pub change_no : ℤ → ℤ → KalshiOrderBookState → KalshiOrderBookState
  unfolding set_level next_size
  change_no price delta s = record s {
    no_bids = set_level price (next_size price delta s.no_bids) s.no_bids;
  }

  unfoldable pub flag_negative : ℤ → KalshiOrderBookState → KalshiOrderBookState
  unfolding add_flag
  flag_negative size s = if ltb_ℤ size (pos 0) then add_flag "malformed_book" s else s

  -- the change of a level by a delta on a side whose text is lower case
  unfoldable pub change_level :
      String → Option ℤ → Option ℤ → KalshiOrderBookState → KalshiOrderBookState
  unfolding add_flag change_yes change_no flag_negative next_size
  change_level side (some price) (some delta) s =
      if not (is_price py price)
      then add_flag "malformed_book" s
      else if side == "yes"
      then change_yes price delta (flag_negative (next_size price delta s.yes_bids) s)
      else if side == "no"
      then change_no price delta (flag_negative (next_size price delta s.no_bids) s)
      else add_flag "malformed_book" s
  change_level side _ _ s = add_flag "malformed_book" s

  -- the side, the price and the change of size of a delta; a decimal is its own finite_decimal
  unfoldable pub change_of : Fields → KalshiOrderBookState → KalshiOrderBookState
  unfolding get_value str_or first_present finite_decimal
  change_of msg =
      change_level (py.lower (str_or py (get_value msg "side") ""))
        (finite_decimal py (first_present msg ("price_dollars" ∷ "price" ∷ [])))
        (finite_decimal py (first_present msg ("delta_fp" ∷ "delta" ∷ "size_delta" ∷ [])))

  -- what a delta changes before the validity of the book is refreshed
  unfoldable pub delta_effect : Fields → KalshiOrderBookState → KalshiOrderBookState
  unfolding message_payload take_header early_delta sequence_of change_of change_level
  delta_effect message s =
      let msg = message_payload message in
      change_of msg (sequence_of message (early_delta (take_header msg s)))

  -- apply_delta
  unfoldable pub apply_delta : Fields → KalshiOrderBookState → KalshiOrderBookState
  unfolding delta_effect persistent_flags refresh_validity
  apply_delta message s0 =
      let s = delta_effect message s0 in
      record (refresh_validity py.one (persistent_flags s) s) {
        last_event_type = some "orderbook_delta";
      }

  abbrev pub Books : Type 0
  Books = List (String × KalshiOrderBookState)

  -- _state_for and a change of the state that it finds or creates
  unfoldable pub update_book :
      (KalshiOrderBookState → KalshiOrderBookState) → Bool → Value → Books → Books
  unfolding get put new_book str truthy
  update_book f use_yes_price ticker_value books =
      let ticker = str py ticker_value in
      if is_none ticker_value || not (truthy ticker)
      then books
      else let state = or_else (get ticker books) (new_book ticker use_yes_price) in
        put ticker (f (record state { use_yes_price = use_yes_price })) books

  -- apply_kalshi_orderbook_message
  unfoldable pub apply_message : Bool → Fields → Books → Books
  unfolding update_book str_or get_value message_payload apply_snapshot apply_delta
  apply_message use_yes_price message books =
      let event_type = str_or py (get_value message "type") "" in
      let ticker = get_value (message_payload message) "market_ticker" in
      if event_type == "orderbook_snapshot"
      then update_book (apply_snapshot message) use_yes_price ticker books
      else if event_type == "orderbook_delta"
      then update_book (apply_delta message) use_yes_price ticker books
      else books
