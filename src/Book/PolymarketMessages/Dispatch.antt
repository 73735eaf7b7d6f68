-- ===== src/Book/PolymarketMessages/Dispatch.antt =====
-- `apply_market_message` of src/pmkt/exchanges/polymarket/ws.py, which finds the books that a message
-- is for. The returned snapshots render the changed books and are left out.
use pmkt_core.Prelude.{
  ℕ, Bool, false, not, ◌||◌, List, Option, none, some, String, if◌then◌else◌, string_eq, ◌==◌,
  or_else,
}
use pmkt_core.Prelude.Int.{int_eq}
use pmkt_core.Collections.Sets.{mem}
use pmkt_core.Collections.Dict.{get, put}
use pmkt_core.Text.{truthy}
use pmkt_core.Json.{
  Value, arr, obj, Items, nil, cons, Fields, get_value, Python, str_or, str, is_none,
}
use pmkt_core.Book.Polymarket.{MarketBookState, new_book}
use pmkt_core.Book.PolymarketMessages.{apply_book, apply_price_change}

module _ (py : Python) where
  abbrev pub Books : Type 0
  Books = List (String × MarketBookState)

  -- _state_for and a change of the state that it finds or creates
  unfoldable pub update_book : (MarketBookState → MarketBookState) → Value → Books → Books
  unfolding get put new_book str truthy
  update_book f asset_id books =
      let token = str py asset_id in
      if is_none asset_id || not (truthy token)
      then books
      else put token (f (or_else (get token books) (new_book token))) books

  -- allowed_asset_ids is not None and str(asset_id or "") not in allowed_asset_ids
  unfoldable pub is_skipped : Option (List String) → Value → Bool
  unfolding str_or
  is_skipped none asset_id = false
  is_skipped (some allowed) asset_id = not (mem (str_or py asset_id "") allowed)

  -- the loop over the changes of a message; an item that is no object is passed over
  unfoldable pub apply_changes : ℕ → Option (List String) → Fields → Items → Books → Books
  unfolding get_value is_skipped update_book apply_price_change
  apply_changes now allowed message nil books = books
  apply_changes now allowed message (cons (obj change) rest) books =
      let asset_id = get_value change "asset_id" in
      let after =
        if is_skipped allowed asset_id
        then books
        else update_book (apply_price_change py now change message) asset_id books in
      apply_changes now allowed message rest after
  apply_changes now allowed message (cons _ rest) books =
      apply_changes now allowed message rest books

  unfoldable pub apply_price_changes : ℕ → Option (List String) → Fields → Value → Books → Books
  unfolding apply_changes
  apply_price_changes now allowed message (arr changes) books =
      apply_changes now allowed message changes books
  apply_price_changes now allowed message _ books = books

  -- apply_market_message
  unfoldable pub apply_market_message : ℕ → Option (List String) → Fields → Books → Books
  unfolding get_value str_or is_skipped update_book apply_book apply_price_changes
  apply_market_message now allowed message books =
      let event_type =
        str_or py (get_value message "event_type") (str_or py (get_value message "type") "") in
      let asset_id = get_value message "asset_id" in
      if event_type == "book"
      then (if is_skipped allowed asset_id
          then books
          else update_book (apply_book py now message) asset_id books)
      else if event_type == "price_change"
      then apply_price_changes now allowed message (get_value message "price_changes") books
      else books
