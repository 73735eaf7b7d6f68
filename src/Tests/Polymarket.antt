-- ===== src/Tests/Polymarket.antt =====
-- The theorems on Polymarket books at concrete inputs. Prices and sizes count units of 1 / 10000.
use pmkt_core.Prelude.{
  ◌≡◌, refl, true, false, if◌then◌else◌, ◌==◌, [], ◌∷◌, none, some, String, string_eq,
}
use pmkt_core.Prelude.Int.{ℤ, pos, leb_ℤ, int_eq}
use pmkt_core.Collections.Sets.{mem, inter}
use pmkt_core.Collections.Dict.{get}
use pmkt_core.Json.{num, text, arr, obj, nil, cons, Fields, end, field}
use pmkt_core.Book.Polymarket.{MarketBookState, new_book}
use pmkt_core.Book.PolymarketMessages.{apply_price_change, is_buy}
use pmkt_core.Book.PolymarketMessages.Dispatch.{Books, apply_market_message}
use pmkt_core.Book.PolymarketMessages.Sticky.{
  price_change, lifecycle, IsFlagged, update_all, update_all-IsFlagged,
}
use pmkt_core.Book.PolymarketMessages.Changes.{apply_price_change-buy, valid_change-hash}
use pmkt_core.Book.PolymarketMessages.Reachable.{
  Event, book, reconnect, IsBook, react_all, reached-IsMarketBook,
}
use pmkt_core.Book.PolymarketMessages.Reachable
use pmkt_core.Book.PolymarketMessages.Routing.{get-apply_market_message}
use pmkt_core.Tests.Book.{python, level}

abbrev book_message : Fields
book_message = field "event_type" (text "book") (
    field "asset_id" (text "A") (
      field "hash" (text "h1") (
        field "bids" (arr (cons (level (pos 4000) (pos 20000)) nil))
          (field "asks" (arr (cons (level (pos 6000) (pos 10000)) nil)) end))))

-- a bid at 0.45
abbrev change : Fields
change = field "asset_id" (text "A") (
    field "side" (text "BUY") (
      field "price" (num (pos 4500)) (
        field "size" (num (pos 5000))
          (field "previous_hash" (text "h1") (field "hash" (text "h2") end)))))

abbrev change_message : Fields
change_message =
    field "event_type" (text "price_change")
      (field "price_changes" (arr (cons (obj change) nil)) end)

abbrev known : MarketBookState
known = record (new_book "A") {
  market = some "";
  bids = (pos 4000, pos 20000) ∷ [];
  asks = (pos 6000, pos 10000) ∷ [];
  best_bid = some (pos 4000);
  best_ask = some (pos 6000);
  initial_snapshot_received = true;
  valid_state = true;
  quality_flags = [];
  last_hash = some "h1";
}

reached-IsMarketBook_example : IsBook python (
    react_all python
      ((1, book book_message)
        ∷ (2, Reachable.price_change change change_message)
        ∷ (3, reconnect)
        ∷ [])
      (new_book "A"))
reached-IsMarketBook_example = reached-IsMarketBook python "A" (
    (1, book book_message)
    ∷ (2, Reachable.price_change change change_message)
    ∷ (3, reconnect)
    ∷ [])

abbrev mismatched : MarketBookState
mismatched = record known { quality_flags = "hash_mismatch" ∷ []; valid_state = false }

mismatched-IsFlagged : IsFlagged "hash_mismatch" mismatched
unfolding mem
mismatched-IsFlagged = record { up = refl; invalid = refl }

update_all-IsFlagged_example : IsFlagged "hash_mismatch" (
    update_all python
      ((1, price_change change change_message) ∷ (2, lifecycle end "new_market") ∷ [])
      mismatched)
unfolding mem
update_all-IsFlagged_example =
    update_all-IsFlagged python "hash_mismatch"
      ((1, price_change change change_message) ∷ (2, lifecycle end "new_market") ∷ []) mismatched
      refl mismatched-IsFlagged

valid_change-hash_example : ◌≡◌ {A = String} "h1" "h1"
unfolding apply_price_change mem inter
valid_change-hash_example =
    valid_change-hash python 5 change change_message "h1" "h1" known refl refl refl

apply_price_change-buy_example :
    (get (pos 4500) (apply_price_change python 5 change change_message known).bids ≡ (
      if ◌==◌ {A = ℤ} (pos 4500) (pos 4500)
      then (if leb_ℤ (pos 5000) (pos 0) then none else some (pos 5000))
      else get (pos 4500) known.bids))
    × ((apply_price_change python 5 change change_message known).asks ≡ known.asks)
unfolding apply_price_change is_buy mem
apply_price_change-buy_example =
    apply_price_change-buy python 5 change change_message known (pos 4500) (pos 5000) refl refl refl
      refl refl (pos 4500)

abbrev two_books : Books python
two_books = ("A", known) ∷ ("B", new_book "B") ∷ []

get-apply_market_message_example :
    get "A" (apply_market_message python 5 (some ("B" ∷ [])) change_message two_books)
    ≡ get "A" two_books
unfolding mem
get-apply_market_message_example =
    get-apply_market_message python ("B" ∷ []) "A" 5 change_message two_books refl refl
