-- ===== src/Book/Kalshi/Validity.antt =====
-- What `_refresh_validity` of src/pmkt/exchanges/kalshi/ws.py promises of a book that it calls valid.
use pmkt_core.Prelude.{
  ℕ, ◌≡◌, Bool, true, false, List, Option, none, some, String, if◌then◌else◌, arith, string_eq,
  null,
}
use pmkt_core.Prelude.Int.{ℤ, ◌≤ℤ◌}
use pmkt_core.Collections.Sets.{add}
use pmkt_core.Book.Levels.{max_price}
use pmkt_core.Book.Kalshi.{
  KalshiOrderBookState, yes_ask, crossed_flags, refreshed_flags, refresh_validity,
}

module _ (one : ℕ) where
  -- What a valid book shows: it has had a snapshot, has no flag and two sides, and is not crossed.
  pub record IsTradable (s : KalshiOrderBookState) : Type 0 where
    pub received : s.initial_snapshot_received ≡ true
    pub clean : null s.quality_flags ≡ true
    pub bids : null s.yes_bids ≡ false
    pub asks : null s.no_bids ≡ false
    pub uncrossed :
        (bid ask : ℤ) → max_price s.yes_bids ≡ some bid → yes_ask one s ≡ some ask → bid ≤ℤ ask

  crossed-null :
      (bid ask : Option ℤ) (flags : List String)
      → null (crossed_flags one bid ask flags) ≡ true
      → (null flags ≡ true) × ((b a : ℤ) → bid ≡ some b → ask ≡ some a → b ≤ℤ a)
  unfolding crossed_flags
  crossed-null none ask flags h = (h, λ b a e f. cc)
  crossed-null (some b) none flags h = (h, λ b' a e f. cc)
  crossed-null (some b) (some a) flags h = (ground arith, λ b' a' e f. ground arith)

  flags-null :
      (preserve : List String) (received no_yes no_no : Bool)
      → null (
          let f1 = if received then preserve else add "no_initial_snapshot" preserve in
          let f2 = if no_yes then add "empty_bid" f1 else f1 in
          if no_no then add "empty_ask" f2 else f2)
        ≡ true
      → (no_yes ≡ false) × (no_no ≡ false)
  unfolding add
  flags-null preserve received no_yes no_no h = ground arith

  -- A book is called valid only if it can be traded on.
  pub refresh-IsTradable :
      (preserve : List String) (s : KalshiOrderBookState)
      → (refresh_validity one preserve s).valid_state ≡ true
      → IsTradable (refresh_validity one preserve s)
  unfolding refresh_validity
  refresh-IsTradable preserve s h =
      let flags = refreshed_flags one preserve s in
      let clean : null flags ≡ true = ground arith in
      let c =
        crossed-null (max_price s.yes_bids) (yes_ask one s) _ (unfold refreshed_flags in clean) in
      let n =
        flags-null preserve s.initial_snapshot_received (null s.yes_bids) (null s.no_bids) c.0 in
      record {
        received = ground arith;
        clean = clean;
        bids = n.0;
        asks = n.1;
        uncrossed = unfold yes_ask in c.1;
      }
