-- ===== src/Book/PolymarketMessages/Reachable.antt =====
-- What holds of a Polymarket book after any messages and reconnects.
use pmkt_core.Prelude.{
  ℕ, ◌≡◌, refl, ap, sym, ◌∙◌, true, not, ◌||◌, List, [], ◌∷◌, Option, none, some, String, arith,
  string_eq, inl, inr, Bool-cases,
}
use mathlib.Core.Path.{subst}
use pmkt_core.Prelude.Int.{ℤ, pos, int_eq, ltb_ℤ}
use pmkt_core.Json.{Fields, Python, str_or, finite_decimal, get_value}
use pmkt_core.Book.Levels.{Ladder, is_price, set_level, max_price, min_price, decimal_levels}
use pmkt_core.Book.Levels.Sound.{IsLadder, set_level-IsLadder, decimal_levels-IsLadder}
use pmkt_core.Book.Polymarket.{
  MarketBookState, new_book, mark_reconnect, persistent_flags, refresh_validity,
  recompute_best_prices,
}
use pmkt_core.Book.Polymarket.Validity.{IsTradable, refresh-IsTradable}
use pmkt_core.Book.PolymarketMessages.{
  take_header, take_hash, load_book, apply_book, early_change, set_side, add_flag, change_level,
  check_hash, change_effect, hashed, previous_hash, is_buy, is_sell, apply_price_change,
  change_timestamp,
}

pub data Event : Type 0 where
  book : Fields → Event
  price_change : (change parent : Fields) → Event
  reconnect : Event

module _ (py : Python) where
  unfoldable pub react : ℕ → Event → MarketBookState → MarketBookState
  react now (book message) s = apply_book py now message s
  react now (price_change change parent) s = apply_price_change py now change parent s
  react now reconnect s = mark_reconnect s

  unfoldable pub react_all : List (ℕ × Event) → MarketBookState → MarketBookState
  unfolding react
  react_all [] s = s
  react_all ((now, e) ∷ es) s = react_all es (react now e s)

  -- both ladders are ladders, and the best prices are those of the ladders
  pub record IsSynced (s : MarketBookState) : Type 0 where
    pub bid_side : IsLadder py s.bids
    pub ask_side : IsLadder py s.asks
    pub best_bid : s.best_bid ≡ max_price s.bids
    pub best_ask : s.best_ask ≡ min_price s.asks

  pub record IsBook (s : MarketBookState) : Type 0 where
    pub synced : IsSynced s
    pub tradable : s.valid_state ≡ true → IsTradable s

  recompute-IsSynced :
      (s : MarketBookState)
      → IsLadder py s.bids
      → IsLadder py s.asks
      → IsSynced (recompute_best_prices s)
  unfolding recompute_best_prices
  recompute-IsSynced s b a = record { bid_side = b; ask_side = a; best_bid = refl; best_ask = refl }

  set_side-IsSynced :
      (side : String) (p size : ℤ) (s : MarketBookState)
      → is_price py p ≡ true
      → IsSynced s
      → IsSynced (set_side py side p size s)
  unfolding set_side
  set_side-IsSynced side p size s e h = elim (Bool-cases (is_buy py side)) [
    | inl b ↦ rw b (
        recompute-IsSynced (record s { bids = set_level p size s.bids })
          (set_level-IsLadder py p size s.bids e h.bid_side) h.ask_side)
    | inr b ↦ rw b (elim (Bool-cases (is_sell py side)) [
      | inl a ↦ rw a (
          recompute-IsSynced (record s { asks = set_level p size s.asks }) h.bid_side
            (set_level-IsLadder py p size s.asks e h.ask_side))
      | inr a ↦ rw a h
    ])
  ]

  flagged-IsSynced : (f : String) (s : MarketBookState) → IsSynced s → IsSynced (add_flag py f s)
  unfolding add_flag
  flagged-IsSynced f s h = record {
    bid_side = h.bid_side;
    ask_side = h.ask_side;
    best_bid = h.best_bid;
    best_ask = h.best_ask;
  }

  change-IsSynced :
      (side : String) (price size : Option ℤ) (s : MarketBookState)
      → IsSynced s
      → IsSynced (change_level py side price size s)
  unfolding change_level
  change-IsSynced side none size s h = flagged-IsSynced "malformed_book" s h
  change-IsSynced side (some p) none s h = flagged-IsSynced "malformed_book" s h
  change-IsSynced side (some p) (some d) s h =
      elim (Bool-cases
        ((not (is_buy py side || is_sell py side) || not (is_price py p)) || ltb_ℤ d (pos 0))) [
          | inl e ↦ rw e (flagged-IsSynced "malformed_book" s h)
          | inr e ↦ rw e (set_side-IsSynced side p d s (ground arith) h)
        ]

  -- what the invariant reads of a book
  abbrev Sides : MarketBookState → (Ladder × Ladder) × (Option ℤ × Option ℤ)
  Sides s = ((s.bids, s.asks), (s.best_bid, s.best_ask))

  same-IsSynced : (s t : MarketBookState) → Sides s ≡ Sides t → IsSynced s → IsSynced t
  same-IsSynced s t e h = record {
    bid_side = subst (IsLadder py) (ap (λ x. x.0.0) e) h.bid_side;
    ask_side = subst (IsLadder py) (ap (λ x. x.0.1) e) h.ask_side;
    best_bid = sym (ap (λ x. x.1.0) e) ∙ h.best_bid ∙ ap (λ x. max_price x.0.0) e;
    best_ask = sym (ap (λ x. x.1.1) e) ∙ h.best_ask ∙ ap (λ x. min_price x.0.1) e;
  }

  early-same : (s : MarketBookState) → Sides s ≡ Sides (early_change py s)
  unfolding early_change
  early-same s = ground arith

  check-same :
      (previous known : Option String) (s : MarketBookState)
      → Sides s ≡ Sides (check_hash py previous known s)
  unfolding check_hash
  check-same none known s = refl
  check-same (some p) none s = refl
  check-same (some p) (some k) s = ground arith

  hashed-IsSynced :
      (change parent : Fields) (s : MarketBookState)
      → IsSynced s
      → IsSynced (hashed py change parent s)
  unfolding hashed take_hash
  hashed-IsSynced change parent s h =
      let t = check_hash py (previous_hash py change parent) s.last_hash s in
      same-IsSynced t (take_hash py change t) refl
        (same-IsSynced s t (check-same (previous_hash py change parent) s.last_hash s) h)

  effect-IsSynced :
      (now : ℕ) (change parent : Fields) (s : MarketBookState)
      → IsSynced s
      → IsSynced (change_effect py now change parent s)
  unfolding change_effect take_header
  effect-IsSynced now change parent s h =
      let t = take_header py now parent (change_timestamp py change parent) "price_change" s in
      change-IsSynced (py.upper (str_or py (get_value change "side") ""))
        (finite_decimal py (get_value change "price")) (finite_decimal py (get_value change "size"))
        (early_change py t)
        (same-IsSynced t (early_change py t) (early-same t) (same-IsSynced s t refl h))

  refreshed-IsBook :
      (preserve : List String) (s : MarketBookState)
      → IsSynced s
      → IsBook (refresh_validity preserve s)
  unfolding refresh_validity
  refreshed-IsBook preserve s h = record {
    synced = same-IsSynced s (refresh_validity preserve s) refl h;
    tradable = refresh-IsTradable preserve s;
  }

  react-IsBook : (now : ℕ) (e : Event) (s : MarketBookState) → IsBook s → IsBook (react now e s)
  unfolding react apply_book apply_price_change load_book mark_reconnect
  react-IsBook now (book message) s h =
      let t =
        take_hash py message
          (take_header py now message (get_value message "timestamp") "book" s) in
      let bids = decimal_levels py (get_value message "bids") in
      let asks = decimal_levels py (get_value message "asks") in
      refreshed-IsBook _ (load_book py message t) (
        recompute-IsSynced (record t { bids = bids; asks = asks; initial_snapshot_received = true })
          (decimal_levels-IsLadder py (get_value message "bids"))
          (decimal_levels-IsLadder py (get_value message "asks")))
  react-IsBook now (price_change change parent) s h =
      let t = change_effect py now change parent s in
      refreshed-IsBook (persistent_flags (hashed py change parent t)) (hashed py change parent t)
        (hashed-IsSynced change parent t (effect-IsSynced now change parent s h.synced))
  react-IsBook now reconnect s h = record {
    synced = record { bid_side = tt; ask_side = tt; best_bid = refl; best_ask = refl };
    tradable = λ v. cc;
  }

  react_all-IsBook :
      (events : List (ℕ × Event)) (s : MarketBookState) → IsBook s → IsBook (react_all events s)
  unfolding react_all
  react_all-IsBook [] s h = h
  react_all-IsBook ((now, e) ∷ es) s h =
      react_all-IsBook es (react now e s) (react-IsBook now e s h)

  new_book-IsBook : (token : String) → IsBook (new_book token)
  unfolding new_book max_price min_price
  new_book-IsBook token = record {
    synced = record { bid_side = tt; ask_side = tt; best_bid = refl; best_ask = refl };
    tradable = λ v. cc;
  }

  -- Whatever full books, price changes and reconnects a Polymarket book goes through, its ladders hold
  -- prices from 0 to 1 without a repeat and positive sizes, its best bid and best ask are the largest
  -- bid and the smallest ask of them, and when it is called valid it has had a full book, carries no
  -- flag, and its best bid is below its best ask.
  pub reached-IsMarketBook :
      (token : String) (events : List (ℕ × Event)) → IsBook (react_all events (new_book token))
  reached-IsMarketBook token events =
      react_all-IsBook events (new_book token) (new_book-IsBook token)
