-- ===== src/Book/PolymarketMessages/Sticky.antt =====
-- A flag that makes a Polymarket book unfit stays until the next full book.
use pmkt_core.Prelude.{
  ℕ, ◌≡◌, refl, true, false, List, [], ◌∷◌, Option, none, some, String, arith, string_eq, inl, inr,
  Bool-cases, ◌==◌,
}
use pmkt_core.Prelude.Int.{ℤ, int_eq}
use pmkt_core.Collections.Sets.{
  mem, add, inter, mem-add, mem-union, mem-inter, mem-of-null, set_laws,
}
use pmkt_core.Json.{Fields, Python, str_or, finite_decimal, get_value}
use pmkt_core.Book.Polymarket.{
  MarketBookState, persistent, persistent_flags, refreshed_flags, refresh_validity,
  recompute_best_prices,
}
use pmkt_core.Book.Polymarket.Validity.{refresh-IsTradable, mem-refreshed}
use pmkt_core.Book.PolymarketMessages.{
  take_trade, take_tick_size, take_header, take_hash, early_change, set_side, add_flag,
  change_level, check_hash, change_effect, hashed, previous_hash, apply_price_change,
  refresh_persistent, apply_best_fields, apply_best_bid_ask, apply_last_trade,
  apply_tick_size_change, apply_lifecycle, change_timestamp,
}

-- the messages that update a book without replacing it
pub data Update : Type 0 where
  price_change : (change parent : Fields) → Update
  best_bid_ask last_trade tick_size_change : Fields → Update
  lifecycle : Fields → String → Update

abbrev pub Keeps : String → MarketBookState → MarketBookState → Type 0
Keeps f s t = mem f s.quality_flags ≡ true → mem f t.quality_flags ≡ true

-- the flag is up and the book is not called valid
pub record IsFlagged (f : String) (s : MarketBookState) : Type 0 where
  pub up : mem f s.quality_flags ≡ true
  pub invalid : s.valid_state ≡ false

refreshed-IsFlagged :
    (f : String) (preserve : List String) (s : MarketBookState)
    → mem f preserve ≡ true
    → IsFlagged f (refresh_validity preserve s)
unfolding refresh_validity
refreshed-IsFlagged f preserve s h =
    let up = mem-refreshed f preserve s h in
    record {
      up = up;
      invalid = elim (Bool-cases (refresh_validity preserve s).valid_state) [
        | inr e ↦ e
        | inl e ↦
            let n =
              mem-of-null f (refreshed_flags preserve s) (refresh-IsTradable preserve s e).clean in
            cc (up, n)
      ];
    }

pub persistent-IsFlagged :
    (f : String) (s : MarketBookState)
    → mem f persistent ≡ true
    → mem f s.quality_flags ≡ true
    → IsFlagged f (refresh_validity (persistent_flags s) s)
unfolding persistent_flags
persistent-IsFlagged f s p h =
    refreshed-IsFlagged f (inter s.quality_flags persistent) s (rw mem-inter (rw (h, p) refl))

module _ (py : Python) where
  Keeps-set_side :
      (f side : String) (price size : ℤ) (s : MarketBookState)
      → Keeps f s (set_side py side price size s)
  unfolding set_side recompute_best_prices
  Keeps-set_side f side price size s h = ground arith

  Keeps-change :
      (f side : String) (price size : Option ℤ) (s : MarketBookState)
      → Keeps f s (change_level py side price size s)
  unfolding change_level add_flag add mem
  Keeps-change f side none size s h = ground arith
  Keeps-change f side (some p) none s h = ground arith
  Keeps-change f side (some p) (some d) s h = ground (arith, Keeps-set_side f side p d s h)

  Keeps-early : (f : String) (s : MarketBookState) → Keeps f s (early_change py s)
  unfolding early_change
  Keeps-early f s h = elim (Bool-cases s.initial_snapshot_received) [
    | inl e ↦ rw e h
    | inr e ↦ rw e (rw mem-union (ground arith))
  ]

  Keeps-check :
      (f : String) (previous known : Option String) (s : MarketBookState)
      → Keeps f s (check_hash py previous known s)
  unfolding check_hash add mem
  Keeps-check f none known s h = h
  Keeps-check f (some p) none s h = h
  Keeps-check f (some p) (some k) s h = ground arith

  pub Keeps-hashed :
      (f : String) (change parent : Fields) (s : MarketBookState)
      → Keeps f s (hashed py change parent s)
  unfolding hashed take_hash
  Keeps-hashed f change parent s h = Keeps-check f (previous_hash py change parent) s.last_hash s h

  Keeps-effect :
      (f : String) (now : ℕ) (change parent : Fields) (s : MarketBookState)
      → Keeps f s (change_effect py now change parent s)
  unfolding change_effect take_header
  Keeps-effect f now change parent s h =
      let t = take_header py now parent (change_timestamp py change parent) "price_change" s in
      Keeps-change f (py.upper (str_or py (get_value change "side") ""))
        (finite_decimal py (get_value change "price")) (finite_decimal py (get_value change "size"))
        (early_change py t) (Keeps-early f t h)

  unfoldable pub update : ℕ → Update → MarketBookState → MarketBookState
  update now (price_change change parent) s = apply_price_change py now change parent s
  update now (best_bid_ask message) s = apply_best_bid_ask py now message s
  update now (last_trade message) s = apply_last_trade py now message s
  update now (tick_size_change message) s = apply_tick_size_change py now message s
  update now (lifecycle message event_type) s = apply_lifecycle py now message event_type s

  unfoldable pub update_all : List (ℕ × Update) → MarketBookState → MarketBookState
  unfolding update
  update_all [] s = s
  update_all ((now, u) ∷ us) s = update_all us (update now u s)

  abbrev opened : ℕ → Fields → String → MarketBookState → MarketBookState
  opened now message event_type s =
      add_flag py "new_market"
        (take_header py now message (get_value message "timestamp") event_type s)

  lifecycle-IsFlagged :
      (f : String) (now : ℕ) (message : Fields) (event_type : String) (s : MarketBookState)
      → mem f persistent ≡ true
      → IsFlagged f s
      → IsFlagged f (apply_lifecycle py now message event_type s)
  unfolding apply_lifecycle add_flag take_header persistent_flags
  lifecycle-IsFlagged f now message event_type s p h =
      elim (Bool-cases (event_type == "market_resolved")) [
        | inl e ↦ rw e (record { up = rw mem-add (ground (arith, h.up)); invalid = refl })
        | inr e ↦ rw e (elim (Bool-cases (event_type == "new_market")) [
          | inl n ↦ rw n (
              refreshed-IsFlagged f
                (add "new_market" (persistent_flags (opened now message event_type s)))
                (opened now message event_type s) (simp set_laws (ground (arith, h.up))))
          | inr n ↦ rw n (record { up = h.up; invalid = h.invalid })
        ])
      ]

  update-IsFlagged :
      (f : String) (now : ℕ) (u : Update) (s : MarketBookState)
      → mem f persistent ≡ true
      → IsFlagged f s
      → IsFlagged f (update now u s)
  unfolding update apply_price_change apply_best_bid_ask apply_last_trade apply_tick_size_change
      refresh_persistent apply_best_fields take_header take_trade take_tick_size
  update-IsFlagged f now (price_change change parent) s p h =
      let t = change_effect py now change parent s in
      persistent-IsFlagged f (hashed py change parent t) p
        (Keeps-hashed f change parent t (Keeps-effect f now change parent s h.up))
  update-IsFlagged f now (best_bid_ask message) s p h =
      let t = take_header py now message (get_value message "timestamp") "best_bid_ask" s in
      persistent-IsFlagged f (apply_best_fields py message t) p h.up
  update-IsFlagged f now (last_trade message) s p h =
      let t = take_header py now message (get_value message "timestamp") "last_trade_price" s in
      persistent-IsFlagged f (take_trade py message t) p h.up
  update-IsFlagged f now (tick_size_change message) s p h =
      let t = take_header py now message (get_value message "timestamp") "tick_size_change" s in
      persistent-IsFlagged f (take_tick_size py message t) p h.up
  update-IsFlagged f now (lifecycle message event_type) s p h =
      lifecycle-IsFlagged f now message event_type s p h

  -- Once a Polymarket book carries a persistent flag and is invalid, no price change, quote, trade, tick
  -- size or lifecycle message makes it valid again or clears the flag, in any number and order: only
  -- a full book or a reconnect does.
  pub update_all-IsFlagged :
      (f : String) (updates : List (ℕ × Update)) (s : MarketBookState)
      → mem f persistent ≡ true
      → IsFlagged f s
      → IsFlagged f (update_all updates s)
  unfolding update_all
  update_all-IsFlagged f [] s p h = h
  update_all-IsFlagged f ((now, u) ∷ us) s p h =
      update_all-IsFlagged f us (update now u s) p (update-IsFlagged f now u s p h)
