-- ===== src/Book/Levels.antt =====
-- src/pmkt/exchanges/book_integrity.py: the ladders that a message carries. A ladder is the dict
-- from prices to sizes.
pub mod Sound
use pmkt_core.Prelude.{
  Bool, true, false, not, ◌&&◌, List, [], ◌∷◌, Option, none, some, if◌then◌else◌, string_eq,
}
use pmkt_core.Prelude.Int.{ℤ, pos, leb_ℤ, ltb_ℤ, int_eq}
use pmkt_core.Collections.Dict.{put, remove}
use pmkt_core.Json.{
  Value, null_value, arr, obj, Items, nil, cons, Python, first_present, finite_decimal,
}

abbrev pub Ladder : Type 0
Ladder = List (ℤ × ℤ)

-- the price and the size of one level, `none` for a level of neither form
level_parts : Value → Option (Value × Value)
unfolding first_present
level_parts (obj level) = some (
  first_present level ("price" ∷ "price_dollars" ∷ []),
  first_present level ("size" ∷ "count" ∷ "count_fp" ∷ []),
)
level_parts (arr (cons price (cons size nil))) = some (price, size)
level_parts _ = none

module _ (py : Python) where
  -- 0 <= p <= 1
  abbrev pub is_price : ℤ → Bool
  is_price p = leb_ℤ (pos 0) p && leb_ℤ p (pos py.one)

  parsed_pair : Option ℤ → Option ℤ → Option (ℤ × ℤ)
  parsed_pair (some p) (some s) = some (p, s)
  parsed_pair _ _ = none

  parsed_parts : Option (Value × Value) → Option (ℤ × ℤ)
  unfolding parsed_pair finite_decimal
  parsed_parts none = none
  parsed_parts (some (price, size)) = parsed_pair (finite_decimal py price) (finite_decimal py size)

  -- the decimals of a level that has both
  unfoldable pub parse_level : Value → Option (ℤ × ℤ)
  unfolding level_parts parsed_parts
  parse_level level = parsed_parts (level_parts level)

  -- if p is not None and s is not None and 0 <= p <= 1 and s > 0: parsed[p] = s
  unfoldable pub put_level : Option (ℤ × ℤ) → Ladder → Ladder
  unfolding put
  put_level none ladder = ladder
  put_level (some (p, s)) ladder = if is_price p && ltb_ℤ (pos 0) s then put p s ladder else ladder

  unfoldable pub collect_levels : Items → Ladder → Ladder
  unfolding put_level parse_level
  collect_levels nil ladder = ladder
  collect_levels (cons level rest) ladder =
      collect_levels rest (put_level (parse_level level) ladder)

  -- decimal_levels
  unfoldable pub decimal_levels : Value → Ladder
  unfolding collect_levels
  decimal_levels (arr levels) = collect_levels levels []
  decimal_levels _ = []

  unfoldable pub well_formed_level : Option (ℤ × ℤ) → Bool
  well_formed_level none = false
  well_formed_level (some (p, s)) = is_price p && not (ltb_ℤ s (pos 0))

  unfoldable pub well_formed_items : Items → Bool
  unfolding well_formed_level parse_level
  well_formed_items nil = true
  well_formed_items (cons level rest) =
      well_formed_level (parse_level level) && well_formed_items rest

  -- well_formed_levels
  unfoldable pub well_formed_levels : Bool → Value → Bool
  unfolding well_formed_items
  well_formed_levels allow_missing null_value = allow_missing
  well_formed_levels allow_missing (arr levels) = well_formed_items levels
  well_formed_levels allow_missing _ = false

abbrev larger : ℤ → Option ℤ → Option ℤ
larger p none = some p
larger p (some q) = some (if ltb_ℤ p q then q else p)

abbrev smaller : ℤ → Option ℤ → Option ℤ
smaller p none = some p
smaller p (some q) = some (if ltb_ℤ q p then q else p)

-- max(ladder) and min(ladder), None for an empty one
unfoldable pub max_price : Ladder → Option ℤ
max_price [] = none
max_price ((p, _) ∷ rest) = larger p (max_price rest)

unfoldable pub min_price : Ladder → Option ℤ
min_price [] = none
min_price ((p, _) ∷ rest) = smaller p (min_price rest)

-- the ladder after a change of one level: a size of 0 or less removes the level
unfoldable pub set_level : ℤ → ℤ → Ladder → Ladder
unfolding put remove
set_level price size ladder =
    if leb_ℤ size (pos 0) then remove price ladder else put price size ladder
