-- ===== src/Book/KalshiMessages/Reachable.antt =====
-- What holds of a Kalshi book after any messages, reconnects and sequence gaps.
use pmkt_core.Prelude.{
  ◌≡◌, sym, Bool, true, List, [], ◌∷◌, Option, none, some, String, if◌then◌else◌, arith, string_eq,
  inl, inr, Bool-cases, ◌==◌,
}
use mathlib.Core.Path.{subst}
use pmkt_core.Prelude.Int.{ℤ}
use pmkt_core.Collections.Sets.{add}
use pmkt_core.Json.{Fields, Python, get_value, parse_int, str_or, first_present, finite_decimal}
use pmkt_core.Book.Levels.{Ladder, is_price}
use pmkt_core.Book.Levels.Sound.{set_level-IsLadder, IsLadder, decimal_levels-IsLadder}
use pmkt_core.Book.Kalshi.{
  KalshiOrderBookState, new_book, mark_reconnect, mark_sequence_gap, flag_invalid, message_payload,
  persistent_flags, sequence_flags, apply_sequence, set_sid, check_seq, set_seq, sequence,
  refresh_validity,
}
use pmkt_core.Book.Kalshi.Validity.{IsTradable, refresh-IsTradable}
use pmkt_core.Book.KalshiMessages.{
  take_header, sequence_of, early_delta, change_of, change_level, delta_effect, apply_delta,
  apply_snapshot, load_snapshot, yes_ladder, no_ladder, add_flag, flag_negative, change_yes,
  change_no, next_size, ladders_well_formed,
}

pub data Event : Type 0 where
  snapshot delta : Fields → Event
  reconnect gap : Event

-- both ladders of the book
abbrev Ladders : KalshiOrderBookState → Ladder × Ladder
Ladders s = (s.yes_bids, s.no_bids)

ladders-sequence :
    (sid seq : Option ℤ) (s : KalshiOrderBookState) → Ladders (apply_sequence sid seq s) ≡ Ladders s
unfolding apply_sequence sequence set_sid check_seq set_seq flag_invalid
ladders-sequence none seq s = ground arith
ladders-sequence (some sid) none s = ground arith
ladders-sequence (some sid) (some seq) s = ground arith

module _ (py : Python) where
  unfoldable pub react : Event → KalshiOrderBookState → KalshiOrderBookState
  react (snapshot message) s = apply_snapshot py message s
  react (delta message) s = apply_delta py message s
  react reconnect s = mark_reconnect s
  react gap s = mark_sequence_gap s

  unfoldable pub react_all : List Event → KalshiOrderBookState → KalshiOrderBookState
  unfolding react
  react_all [] s = s
  react_all (e ∷ es) s = react_all es (react e s)

  pub record IsBook (s : KalshiOrderBookState) : Type 0 where
    pub yes_side : IsLadder py s.yes_bids
    pub no_side : IsLadder py s.no_bids
    pub tradable : s.valid_state ≡ true → IsTradable py.one s

  abbrev BothLadders : Ladder × Ladder → Type 0
  BothLadders l = IsLadder py l.0 × IsLadder py l.1

  sequence-BothLadders :
      (sid seq : Option ℤ) (s : KalshiOrderBookState)
      → BothLadders (Ladders s)
      → BothLadders (Ladders (apply_sequence sid seq s))
  sequence-BothLadders sid seq s h = subst BothLadders (sym (ladders-sequence sid seq s)) h

  ladders-early : (s : KalshiOrderBookState) → Ladders (early_delta py s) ≡ Ladders s
  unfolding early_delta
  ladders-early s = ground arith

  flag_negative-same :
      (size : ℤ) (s : KalshiOrderBookState) → Ladders (flag_negative py size s) ≡ Ladders s
  unfolding flag_negative add_flag
  flag_negative-same size s = ground arith

  change_yes-BothLadders :
      (p d : ℤ) (s : KalshiOrderBookState)
      → is_price py p ≡ true
      → BothLadders (Ladders s)
      → BothLadders (Ladders (change_yes py p d s))
  unfolding change_yes
  change_yes-BothLadders p d s e h =
      (set_level-IsLadder py p (next_size py p d s.yes_bids) s.yes_bids e h.0, h.1)

  change_no-BothLadders :
      (p d : ℤ) (s : KalshiOrderBookState)
      → is_price py p ≡ true
      → BothLadders (Ladders s)
      → BothLadders (Ladders (change_no py p d s))
  unfolding change_no
  change_no-BothLadders p d s e h =
      (h.0, set_level-IsLadder py p (next_size py p d s.no_bids) s.no_bids e h.1)

  change_level-BothLadders :
      (side : String) (price size : Option ℤ) (s : KalshiOrderBookState)
      → BothLadders (Ladders s)
      → BothLadders (Ladders (change_level py side price size s))
  unfolding change_level add_flag
  change_level-BothLadders side none size s h = h
  change_level-BothLadders side (some p) none s h = h
  change_level-BothLadders side (some p) (some d) s h = elim (Bool-cases (is_price py p)) [
    | inr e ↦ rw e h
    | inl e ↦ rw e (elim (Bool-cases (side == "yes")) [
      | inl y ↦ rw y (
          change_yes-BothLadders p d (flag_negative py (next_size py p d s.yes_bids) s) e
            (subst BothLadders (sym (flag_negative-same (next_size py p d s.yes_bids) s)) h))
      | inr y ↦ rw y (elim (Bool-cases (side == "no")) [
        | inl n ↦ rw n (
            change_no-BothLadders p d (flag_negative py (next_size py p d s.no_bids) s) e
              (subst BothLadders (sym (flag_negative-same (next_size py p d s.no_bids) s)) h))
        | inr n ↦ rw n h
      ])
    ])
  ]

  delta_effect-BothLadders :
      (message : Fields) (s : KalshiOrderBookState)
      → BothLadders (Ladders s)
      → BothLadders (Ladders (delta_effect py message s))
  unfolding delta_effect sequence_of change_of take_header
  delta_effect-BothLadders message s h =
      let msg = message_payload message in
      let s1 = take_header py msg s in
      let s2 = early_delta py s1 in
      change_level-BothLadders (py.lower (str_or py (get_value msg "side") ""))
        (finite_decimal py (first_present msg ("price_dollars" ∷ "price" ∷ [])))
        (finite_decimal py (first_present msg ("delta_fp" ∷ "delta" ∷ "size_delta" ∷ [])))
        (sequence_of py message s2)
        (sequence-BothLadders (parse_int py (get_value message "sid"))
          (parse_int py (get_value message "seq")) s2
          (subst BothLadders (sym (ladders-early s1)) h))

  -- a book whose validity has just been refreshed
  refreshed-IsBook :
      (preserve : List String) (kind : Option String) (s : KalshiOrderBookState)
      → BothLadders (Ladders s)
      → IsBook (record (refresh_validity py.one preserve s) { last_event_type = kind })
  unfolding refresh_validity
  refreshed-IsBook preserve kind s h = record {
    yes_side = h.0;
    no_side = h.1;
    tradable = λ v.
        let t = refresh-IsTradable py.one preserve s v in
        record {
          received = t.received;
          clean = t.clean;
          bids = t.bids;
          asks = t.asks;
          uncrossed = t.uncrossed;
        };
  }

  snapshot-BothLadders :
      (message : Fields) (s : KalshiOrderBookState)
      → BothLadders
          (Ladders (sequence_of py message (load_snapshot py (message_payload message) s)))
  unfolding sequence_of load_snapshot
  snapshot-BothLadders message s =
      let msg = message_payload message in
      sequence-BothLadders (parse_int py (get_value message "sid"))
        (parse_int py (get_value message "seq")) (load_snapshot py msg s)
        (
          decimal_levels-IsLadder py (yes_ladder py msg),
          decimal_levels-IsLadder py (no_ladder py msg),
        )

  react-IsBook : (e : Event) (s : KalshiOrderBookState) → IsBook s → IsBook (react e s)
  unfolding react apply_snapshot apply_delta mark_reconnect mark_sequence_gap flag_invalid
  react-IsBook (snapshot message) s b =
      let t = sequence_of py message (load_snapshot py (message_payload message) s) in
      refreshed-IsBook
        (if ladders_well_formed py (message_payload message)
          then sequence_flags t
          else add "malformed_book" (sequence_flags t))
        (some "orderbook_snapshot") t (snapshot-BothLadders message s)
  react-IsBook (delta message) s b =
      let t = delta_effect py message s in
      refreshed-IsBook (persistent_flags t) (some "orderbook_delta") t
        (delta_effect-BothLadders message s (b.yes_side, b.no_side))
  react-IsBook reconnect s b = record { yes_side = tt; no_side = tt; tradable = λ v. cc }
  react-IsBook gap s b = record { yes_side = b.yes_side; no_side = b.no_side; tradable = λ v. cc }

  react_all-IsBook :
      (es : List Event) (s : KalshiOrderBookState) → IsBook s → IsBook (react_all es s)
  unfolding react_all
  react_all-IsBook [] s b = b
  react_all-IsBook (e ∷ es) s b = react_all-IsBook es (react e s) (react-IsBook e s b)

  new_book-IsBook : (ticker : String) (yes_price : Bool) → IsBook (new_book ticker yes_price)
  unfolding new_book
  new_book-IsBook ticker yes_price = record { yes_side = tt; no_side = tt; tradable = λ v. cc }

  -- Whatever messages a book receives, and whatever reconnects and gaps come between them: its two
  -- ladders hold prices from 0 to 1 without a repeat and positive sizes, and when it is called valid
  -- it has had a snapshot, carries no flag, has both sides, and its best bid is not above its ask.
  pub reached-IsBook :
      (ticker : String) (yes_price : Bool) (events : List Event)
      → IsBook (react_all events (new_book ticker yes_price))
  reached-IsBook ticker yes_price events =
      react_all-IsBook events (new_book ticker yes_price) (new_book-IsBook ticker yes_price)
