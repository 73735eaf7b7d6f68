-- ===== src/Book/Kalshi.antt =====
-- `KalshiOrderBookState` of src/pmkt/exchanges/kalshi/ws.py.
pub mod Validity
use pmkt_core.Prelude.{
  ℕ, Bool, false, ◌&&◌, List, [], ◌∷◌, Option, none, some, String, if◌then◌else◌, string_eq, ◌==◌,
  null,
}
use pmkt_core.Prelude.Int.{ℤ, pos, leb_ℤ, ltb_ℤ, ◌-ℤ◌, int_eq}
use pmkt_core.Collections.Sets.{add, inter, diff}
use pmkt_core.Json.{Value, null_value, obj, Fields, get_value}
use pmkt_core.Book.Levels.{Ladder, max_price, min_price}

pub record KalshiOrderBookState : Type 0 where
  pub market_ticker : String
  pub use_yes_price : Bool
  pub market_id : Option String
  pub yes_bids : Ladder
  pub no_bids : Ladder
  pub last_event_type : Option String
  pub sid : Option ℤ
  pub last_seq : Option ℤ
  pub timestamp : Value
  pub initial_snapshot_received : Bool
  pub valid_state : Bool
  pub quality_flags : List String

-- KalshiOrderBookState(ticker, use_yes_price=use_yes_price)
unfoldable pub new_book : String → Bool → KalshiOrderBookState
new_book ticker yes_price = record {
  market_ticker = ticker;
  use_yes_price = yes_price;
  market_id = none;
  yes_bids = [];
  no_bids = [];
  last_event_type = none;
  sid = none;
  last_seq = none;
  timestamp = null_value;
  initial_snapshot_received = false;
  valid_state = false;
  quality_flags = "no_initial_snapshot" ∷ [];
}

unfoldable pub mark_reconnect : KalshiOrderBookState → KalshiOrderBookState
mark_reconnect s = record s {
  sid = none;
  last_seq = none;
  yes_bids = [];
  no_bids = [];
  initial_snapshot_received = false;
  valid_state = false;
  quality_flags = "reconnect" ∷ "no_initial_snapshot" ∷ [];
}

unfoldable pub book_integrity_valid : KalshiOrderBookState → Bool
book_integrity_valid s =
    s.initial_snapshot_received && null (diff s.quality_flags ("empty_bid" ∷ "empty_ask" ∷ []))

unfoldable pub object_or : Fields → Value → Fields
object_or message (obj fields) = fields
object_or message _ = message

-- _message_payload
unfoldable pub message_payload : Fields → Fields
unfolding object_or get_value
message_payload message = object_or message (get_value message "msg")

abbrev pub persistent : List String
persistent =
    "malformed_book" ∷ "delta_before_snapshot" ∷ "missing_sequence" ∷ "no_initial_snapshot"
    ∷ "reconnect" ∷ "seq_gap" ∷ "sid_changed" ∷ []

-- _persistent_flags
unfoldable pub persistent_flags : KalshiOrderBookState → List String
persistent_flags s = inter s.quality_flags persistent

-- _sequence_flags
unfoldable pub sequence_flags : KalshiOrderBookState → List String
sequence_flags s = inter s.quality_flags ("missing_sequence" ∷ "seq_gap" ∷ "sid_changed" ∷ [])

-- self.valid_state = False; self.quality_flags.add(flag)
unfoldable pub flag_invalid : String → KalshiOrderBookState → KalshiOrderBookState
flag_invalid flag s = record s { valid_state = false; quality_flags = add flag s.quality_flags }

-- mark_sequence_gap
unfoldable pub mark_sequence_gap : KalshiOrderBookState → KalshiOrderBookState
unfolding flag_invalid
mark_sequence_gap = flag_invalid "seq_gap"

unfoldable pub set_sid : ℤ → Option ℤ → KalshiOrderBookState → KalshiOrderBookState
unfolding flag_invalid
set_sid sid none s = record s { sid = some sid }
set_sid sid (some known) s = if sid == known then s else flag_invalid "sid_changed" s

unfoldable pub check_seq : ℤ → Option ℤ → KalshiOrderBookState → KalshiOrderBookState
unfolding flag_invalid
check_seq seq none s = s
check_seq seq (some last) s = if leb_ℤ seq last then flag_invalid "seq_gap" s else s

unfoldable pub set_seq : ℤ → KalshiOrderBookState → KalshiOrderBookState
set_seq seq s = record s { last_seq = some seq }

unfoldable pub sequence : Option ℤ → Option ℤ → KalshiOrderBookState → KalshiOrderBookState
unfolding set_sid check_seq flag_invalid set_seq
sequence (some sid) (some seq) s0 =
    let s = set_sid sid s0.sid s0 in set_seq seq (check_seq seq s.last_seq s)
sequence _ _ s = flag_invalid "missing_sequence" s

-- _apply_sequence
unfoldable pub apply_sequence : Option ℤ → Option ℤ → KalshiOrderBookState → KalshiOrderBookState
unfolding sequence
apply_sequence sid seq s = sequence sid seq s

module _ (one : ℕ) where
  -- Decimal(1) - price
  unfoldable pub complement : Option ℤ → Option ℤ
  complement none = none
  complement (some price) = some (pos one -ℤ price)

  -- yes_ask, on the scale of YES prices
  unfoldable pub yes_ask : KalshiOrderBookState → Option ℤ
  unfolding min_price max_price complement
  yes_ask s = if s.use_yes_price then min_price s.no_bids else complement (max_price s.no_bids)

  unfoldable pub crossed_flags : Option ℤ → Option ℤ → List String → List String
  crossed_flags (some bid) (some ask) flags =
      if ltb_ℤ ask bid then "crossed_book" ∷ "negative_spread" ∷ flags else flags
  crossed_flags _ _ flags = flags

  -- the flags that `_refresh_validity` computes
  unfoldable pub refreshed_flags : List String → KalshiOrderBookState → List String
  unfolding crossed_flags yes_ask max_price
  refreshed_flags preserve s =
      let f1 =
        if s.initial_snapshot_received then preserve else add "no_initial_snapshot" preserve in
      let f2 = if null s.yes_bids then add "empty_bid" f1 else f1 in
      let f3 = if null s.no_bids then add "empty_ask" f2 else f2 in
      crossed_flags (max_price s.yes_bids) (yes_ask s) f3

  -- _refresh_validity
  unfoldable pub refresh_validity : List String → KalshiOrderBookState → KalshiOrderBookState
  unfolding refreshed_flags
  refresh_validity preserve s =
      let flags = refreshed_flags preserve s in
      record s { quality_flags = flags; valid_state = s.initial_snapshot_received && null flags }
