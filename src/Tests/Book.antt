-- ===== src/Tests/Book.antt =====
-- The theorems on order books at concrete inputs. Prices and sizes count units of 1 / 10000.
use pmkt_core.Prelude.{
  or_else, ◌≡◌, refl, true, false, if◌then◌else◌, ◌==◌, [], ◌∷◌, none, some, string_eq,
}
use pmkt_core.Prelude.Int.{◌+ℤ◌, ℤ, pos, leb_ℤ, ◌<ℤ◌, ◌-ℤ◌, int_eq}
use pmkt_core.Collections.Sets.{mem, inter}
use pmkt_core.Collections.Dict.{get}
use pmkt_core.Json.{Value, int, num, text, arr, obj, nil, cons, Fields, end, field, Python}
use pmkt_core.Book.Levels.{decimal_levels}
use pmkt_core.Book.Levels.Sound.{IsLadder, decimal_levels-IsLadder}
use pmkt_core.Book.Kalshi.{KalshiOrderBookState, new_book, apply_sequence}
use pmkt_core.Book.KalshiMessages.{apply_delta, apply_snapshot}
use pmkt_core.Book.KalshiMessages.Sticky.{apply_deltas, flagged_until_snapshot}
use pmkt_core.Book.KalshiMessages.Deltas.{sid_of, seq_of, apply_delta-yes, valid_delta-sequence}
use pmkt_core.Book.KalshiMessages.Reachable.{
  snapshot, delta, gap, react_all, IsBook, reached-IsBook,
}

abbrev pub python : Python
python = record {
  one = 10000;
  decimal_numbers = true;
  decimal_of_text = λ _. none;
  fits_float = λ _. true;
  is_integer_text = λ _. false;
  str_of = λ _. "";
  float_of_number = λ _. none;
  float_of_text = λ _. none;
  lower = λ s. s;
  upper = λ s. s;
}

abbrev pub level : ℤ → ℤ → Value
level price size = arr (cons (num price) (cons (num size) nil))

-- two bids at 0.40 and 0.45, and one NO bid at 0.50
abbrev snapshot_message : Fields
snapshot_message = field "type" (text "orderbook_snapshot") (
    field "sid" (int (pos 7)) (
      field "seq" (int (pos 1)) (
        field "msg"
          (obj (
            field "market_ticker" (text "T") (
              field "yes_dollars"
                (arr
                  (cons (level (pos 4000) (pos 20000)) (cons (level (pos 4500) (pos 10000)) nil)))
                (field "no_dollars" (arr (cons (level (pos 5000) (pos 30000)) nil)) end))))
          end)))

-- the YES bid at 0.40 grows by 0.5
abbrev delta_message : Fields
delta_message = field "type" (text "orderbook_delta") (
    field "sid" (int (pos 7)) (
      field "seq" (int (pos 2)) (
        field "msg"
          (obj (
            field "market_ticker" (text "T") (
              field "side" (text "yes")
                (field "price_dollars" (num (pos 4000)) (field "delta_fp" (num (pos 5000)) end)))))
          end)))

abbrev book : KalshiOrderBookState
book = record (new_book "T" false) {
  yes_bids = (pos 4000, pos 20000) ∷ (pos 4500, pos 10000) ∷ [];
  no_bids = (pos 5000, pos 30000) ∷ [];
  sid = some (pos 7);
  last_seq = some (pos 1);
  initial_snapshot_received = true;
  valid_state = true;
  quality_flags = [];
}

snapshot_then_delta :
    (apply_delta python delta_message
      (apply_snapshot python snapshot_message (new_book "T" false))).yes_bids
    ≡ (pos 4000, pos 25000) ∷ (pos 4500, pos 10000) ∷ []
unfolding apply_delta apply_snapshot apply_sequence
snapshot_then_delta = refl

reached-IsBook_example : IsBook python (
    react_all python
      (snapshot snapshot_message ∷ delta delta_message ∷ gap ∷ [])
      (new_book "T" false))
reached-IsBook_example =
    reached-IsBook python "T" false (snapshot snapshot_message ∷ delta delta_message ∷ gap ∷ [])

abbrev gapped : KalshiOrderBookState
gapped = record book { quality_flags = "seq_gap" ∷ []; valid_state = false }

flagged_until_snapshot_example :
    ((apply_deltas python (delta_message ∷ delta_message ∷ []) gapped).valid_state ≡ false)
    × (mem "seq_gap" (apply_deltas python (delta_message ∷ delta_message ∷ []) gapped).quality_flags
        ≡ true)
unfolding mem
flagged_until_snapshot_example =
    flagged_until_snapshot python "seq_gap" (delta_message ∷ []) delta_message gapped refl refl

valid_delta-sequence_example :
    (n : ℤ) × (sid_of python delta_message ≡ some (pos 7))
    × (seq_of python delta_message ≡ some n)
    × (pos 1 <ℤ n)
    × ((apply_delta python delta_message book).sid ≡ some (pos 7))
    × ((apply_delta python delta_message book).last_seq ≡ some n)
unfolding apply_delta apply_sequence new_book ◌-ℤ◌ inter
valid_delta-sequence_example =
    valid_delta-sequence python delta_message book (pos 7) (pos 1) refl refl refl

apply_delta-yes_example :
    (get (pos 4000) (apply_delta python delta_message book).yes_bids ≡ (
      if ◌==◌ {A = ℤ} (pos 4000) (pos 4000)
      then (let size = or_else (get (pos 4000) book.yes_bids) (pos 0) +ℤ pos 5000 in
          if leb_ℤ size (pos 0) then none else some size)
      else get (pos 4000) book.yes_bids))
    × ((apply_delta python delta_message book).no_bids ≡ book.no_bids)
unfolding apply_delta
apply_delta-yes_example =
    apply_delta-yes python delta_message book (pos 4000) (pos 5000) refl refl refl refl (pos 4000)

decimal_levels-IsLadder_example :
    IsLadder python
      (decimal_levels python (arr (cons (level (pos 4000) (pos 20000)) (cons (text "x") nil))))
decimal_levels-IsLadder_example =
    decimal_levels-IsLadder python (arr (cons (level (pos 4000) (pos 20000)) (cons (text "x") nil)))
