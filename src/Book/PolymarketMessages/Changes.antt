-- ===== src/Book/PolymarketMessages/Changes.antt =====
-- What one price change does to a Polymarket book.
use pmkt_core.Prelude.{
  ℕ, ◌≡◌, refl, ◌∙◌, true, false, Option, none, some, String, arith, string_eq, inl, inr,
  Bool-cases, if◌then◌else◌, ◌==◌,
}
use pmkt_core.Prelude.Int.{ℤ, pos, int_eq, ltb_ℤ, leb_ℤ}
use pmkt_core.Collections.Dict.{get}
use pmkt_core.Collections.Sets.{mem, add}
use pmkt_core.Json.{Fields, Python, str_or, finite_decimal, get_value}
use pmkt_core.Book.Levels.{is_price, set_level}
use pmkt_core.Book.Levels.Sound.{get-set_level}
use pmkt_core.Book.Polymarket.{MarketBookState, refresh_validity, recompute_best_prices}
use pmkt_core.Book.PolymarketMessages.{
  take_header, take_hash, early_change, set_side, add_flag, change_level, check_hash, change_effect,
  hashed, previous_hash, is_buy, apply_price_change, change_timestamp,
}
use pmkt_core.Book.PolymarketMessages.Sticky.{persistent-IsFlagged}

module _ (py : Python) where
  -- the side, the price and the size that a change carries
  abbrev pub side_of : Fields → String
  side_of change = py.upper (str_or py (get_value change "side") "")

  abbrev pub price_of : Fields → Option ℤ
  price_of change = finite_decimal py (get_value change "price")

  abbrev pub size_of : Fields → Option ℤ
  size_of change = finite_decimal py (get_value change "size")

  headed : ℕ → Fields → Fields → MarketBookState → MarketBookState
  headed now change parent s =
      early_change py
        (take_header py now parent (change_timestamp py change parent) "price_change" s)

  headed-same :
      (now : ℕ) (change parent : Fields) (s : MarketBookState)
      → let t = headed now change parent s in
        (t.last_hash ≡ s.last_hash) × (t.bids ≡ s.bids) × (t.asks ≡ s.asks)
  unfolding headed early_change take_header
  headed-same now change parent s = ground arith

  set_side-hash :
      (side : String) (price size : ℤ) (s : MarketBookState)
      → (set_side py side price size s).last_hash ≡ s.last_hash
  unfolding set_side recompute_best_prices
  set_side-hash side price size s = ground arith

  change-hash :
      (side : String) (price size : Option ℤ) (s : MarketBookState)
      → (change_level py side price size s).last_hash ≡ s.last_hash
  unfolding change_level add_flag
  change-hash side none size s = refl
  change-hash side (some p) none s = refl
  change-hash side (some p) (some d) s = ground (arith, set_side-hash side p d s)

  effect-hash :
      (now : ℕ) (change parent : Fields) (s : MarketBookState)
      → (change_effect py now change parent s).last_hash ≡ s.last_hash
  unfolding change_effect headed
  effect-hash now change parent s =
      change-hash (side_of change) (price_of change) (size_of change) (headed now change parent s)
      ∙ (headed-same now change parent s).0

  mismatch_up :
      (a b : Option String) (previous known : String) (s : MarketBookState)
      → a ≡ some previous
      → b ≡ some known
      → (previous == known) ≡ false
      → mem "hash_mismatch" (check_hash py a b s).quality_flags ≡ true
  unfolding check_hash add mem
  mismatch_up none b previous known s e k n = absurd cc
  mismatch_up (some p) none previous known s e k n = absurd cc
  mismatch_up (some p) (some h) previous known s e k n =
      ground (arith, (string_eq.beq_iff p h).0, (string_eq.beq_iff previous known).1)

  hashed-mismatch :
      (change parent : Fields) (known previous : String) (s : MarketBookState)
      → s.last_hash ≡ some known
      → previous_hash py change parent ≡ some previous
      → (previous == known) ≡ false
      → mem "hash_mismatch" (hashed py change parent s).quality_flags ≡ true
  unfolding hashed take_hash
  hashed-mismatch change parent known previous s k e n =
      mismatch_up (previous_hash py change parent) s.last_hash previous known s e k n

  -- A book that knows the hash of its last state is valid after a price change that names a previous
  -- hash only if the two hashes are the same.
  pub valid_change-hash :
      (now : ℕ) (change parent : Fields) (known previous : String) (s : MarketBookState)
      → s.last_hash ≡ some known
      → previous_hash py change parent ≡ some previous
      → (apply_price_change py now change parent s).valid_state ≡ true
      → previous ≡ known
  unfolding apply_price_change mem
  valid_change-hash now change parent known previous s k e v =
      elim (Bool-cases (previous == known)) [
        | inl q ↦ (string_eq.beq_iff previous known).0 q
        | inr n ↦
            let t = change_effect py now change parent s in
            let up =
              hashed-mismatch change parent known previous t (effect-hash now change parent s ∙ k) e
                n in
            let flagged =
              persistent-IsFlagged "hash_mismatch" (hashed py change parent t) refl up in
            absurd (cc (v, flagged.invalid))
      ]

  buy_change :
      (side : String) (p d : ℤ) (s : MarketBookState)
      → is_buy py side ≡ true
      → is_price py p ≡ true
      → ltb_ℤ d (pos 0) ≡ false
      → let t = change_level py side (some p) (some d) s in
        (t.bids ≡ set_level p d s.bids) × (t.asks ≡ s.asks)
  unfolding change_level set_side recompute_best_prices
  buy_change side p d s b e n = ground arith

  checked-ladders :
      (previous known : Option String) (s : MarketBookState)
      → let t = check_hash py previous known s in (t.bids ≡ s.bids) × (t.asks ≡ s.asks)
  unfolding check_hash
  checked-ladders none known s = (refl, refl)
  checked-ladders (some p) none s = (refl, refl)
  checked-ladders (some p) (some k) s = ground arith

  hashed-ladders :
      (change parent : Fields) (s : MarketBookState)
      → let t = hashed py change parent s in (t.bids ≡ s.bids) × (t.asks ≡ s.asks)
  unfolding hashed take_hash
  hashed-ladders change parent s = checked-ladders (previous_hash py change parent) s.last_hash s

  -- A price change on the buying side with a price from 0 to 1 and a size that is not negative leaves
  -- the asks and sets the bid at that price to the size, or removes it where the size is 0; the bids
  -- at all other prices are as before.
  pub apply_price_change-buy :
      (now : ℕ) (change parent : Fields) (s : MarketBookState) (p d : ℤ)
      → is_buy py (side_of change) ≡ true
      → price_of change ≡ some p
      → size_of change ≡ some d
      → is_price py p ≡ true
      → ltb_ℤ d (pos 0) ≡ false
      → (q : ℤ)
      → (get q (apply_price_change py now change parent s).bids
          ≡ (if p == q then (if leb_ℤ d (pos 0) then none else some d) else get q s.bids))
        × ((apply_price_change py now change parent s).asks ≡ s.asks)
  unfolding apply_price_change refresh_validity change_effect headed
  apply_price_change-buy now change parent s p d b e f g n q =
      let t = headed now change parent s in
      let h = hashed-ladders change parent (change_effect py now change parent s) in
      let y = buy_change (side_of change) p d t b g n in
      let same = headed-same now change parent s in
      rw (h.0, h.1, e, f, y.0, y.1, same.1, same.2) (get-set_level p q d s.bids, refl)
