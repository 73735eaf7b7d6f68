-- ===== src/Book/Polymarket/Validity.antt =====
-- What `_refresh_validity` of src/pmkt/exchanges/polymarket/ws.py promises of a book that it calls valid.
use pmkt_core.Prelude.{
  ◌≡◌, refl, true, false, List, [], ◌∷◌, Option, none, some, String, arith, string_eq, null,
}
use pmkt_core.Prelude.Int.{ℤ, ◌<ℤ◌, int_eq}
use pmkt_core.Collections.Sets.{add, mem}
use pmkt_core.Book.Polymarket.{
  ◌∷◌, MarketBookState, missing, crossed_flags, refreshed_flags, refresh_validity,
}

-- What a valid book shows: it has had a snapshot, has no flag, and its best bid is below its best ask.
pub record IsTradable (s : MarketBookState) : Type 0 where
  pub received : s.initial_snapshot_received ≡ true
  pub clean : null s.quality_flags ≡ true
  pub two_sided :
      (bid : ℤ) × (ask : ℤ) × (s.best_bid ≡ some bid) × (s.best_ask ≡ some ask) × (bid <ℤ ask)

add-null : (f : String) (flags : List String) → null (add f flags) ≡ false
unfolding add mem
add-null f [] = refl
add-null f (g ∷ flags) = ground arith

sides-null :
    (bid ask : Option ℤ) (flags : List String)
    → null (crossed_flags bid ask (missing ask "empty_ask" (missing bid "empty_bid" flags))) ≡ true
    → (b : ℤ) × (a : ℤ) × (bid ≡ some b) × (ask ≡ some a) × (b <ℤ a)
unfolding crossed_flags
sides-null none none flags h = absurd (ground (arith, add-null "empty_ask" (add "empty_bid" flags)))
sides-null none (some a) flags h = absurd (ground (arith, add-null "empty_bid" flags))
sides-null (some b) none flags h = absurd (ground (arith, add-null "empty_ask" flags))
sides-null (some b) (some a) flags h =
    let x = add-null "crossed_book" (add "negative_spread" flags) in
    let y = add-null "crossed_book" flags in (b, a, refl, refl, ground (arith, x, y))

-- A book is called valid only if it can be traded on.
pub refresh-IsTradable :
    (preserve : List String) (s : MarketBookState)
    → (refresh_validity preserve s).valid_state ≡ true
    → IsTradable (refresh_validity preserve s)
unfolding refresh_validity
refresh-IsTradable preserve s h =
    let clean : null (refreshed_flags preserve s) ≡ true = ground arith in
    record {
      received = ground arith;
      clean = clean;
      two_sided = sides-null s.best_bid s.best_ask _ (unfold refreshed_flags in clean);
    }

crossed-keeps :
    (f : String) (bid ask : Option ℤ) (flags : List String)
    → mem f flags ≡ true
    → mem f (crossed_flags bid ask flags) ≡ true
unfolding crossed_flags add mem
crossed-keeps f (some b) (some a) flags h = ground arith
crossed-keeps f none ask flags h = h
crossed-keeps f (some b) none flags h = h

missing-keeps :
    (f g : String) (side : Option ℤ) (flags : List String)
    → mem f flags ≡ true
    → mem f (missing side g flags) ≡ true
unfolding add mem
missing-keeps f g none flags h = ground arith
missing-keeps f g (some _) flags h = h

-- every flag that is to be preserved is
pub mem-refreshed :
    (f : String) (preserve : List String) (s : MarketBookState)
    → mem f preserve ≡ true
    → mem f (refreshed_flags preserve s) ≡ true
unfolding refreshed_flags add mem
mem-refreshed f preserve s h = crossed-keeps f s.best_bid s.best_ask _ (
    missing-keeps f "empty_ask" s.best_ask _
      (missing-keeps f "empty_bid" s.best_bid _ (ground arith)))
