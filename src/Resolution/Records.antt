-- ===== src/Resolution/Records.antt =====
-- The values of a resolution record, as src/pmkt/resolution/terminal_labels.py reads them. A record is
-- a decoded JSON object; its only number that is not finite is a NaN.
use pmkt_core.Prelude.{
  Bool, true, false, not, List, [], ◌∷◌, Option, none, some, String, if◌then◌else◌, string_eq, ◌==◌,
  map, length, nat_eq,
}
use pmkt_core.Prelude.Int.{ℤ, leb_ℤ}
use pmkt_core.Text.{strip, truthy}
use pmkt_core.Collections.Sorting.{sort_by}
use pmkt_core.Json.{
  Value, null_value, nonfinite, int, text, obj, arr, Fields, Items, nil, cons, Python, str, str_or,
  get_value,
}

-- _is_missing
abbrev pub is_missing : Value → Bool
is_missing null_value = true
is_missing nonfinite = true
is_missing _ = false

-- is_missing_or_blank_scalar
unfoldable pub is_blank : Value → Bool
unfolding strip truthy
is_blank (text s) = not (truthy (strip s))
is_blank value = is_missing value

unfoldable pub list_of : Items → List Value
list_of nil = []
list_of (cons v items) = v ∷ list_of items

abbrev array_of : Option Value → List Value
array_of (some (arr items)) = list_of items
array_of _ = []

-- an item of an array that is an object
unfoldable pub objects_of : List Value → List Fields
objects_of [] = []
objects_of (obj fs ∷ values) = fs ∷ objects_of values
objects_of (_ ∷ values) = objects_of values

-- isinstance(index, int) and not isinstance(index, bool)
abbrev index_of : Value → Option ℤ
index_of (int n) = some n
index_of _ = none

-- the items with their indices
unfoldable pub indexed_items : List Fields → List (ℤ × Fields)
unfolding get_value
indexed_items [] = []
indexed_items (fs ∷ items) = elim (index_of (get_value fs "outcome_index")) [
  | none ↦ indexed_items items
  | some n ↦ (n, fs) ∷ indexed_items items
]

module _ (py : Python) (loads : String → Option Value) where
  -- _clean_text
  unfoldable pub clean_text : Value → Option String
  unfolding str strip truthy
  clean_text value =
      if is_missing value
      then none
      else let t = strip (str py value) in if truthy t then some t else none

  -- str(value).strip().lower(), "" for a missing or blank value
  unfoldable pub outcome_of : Fields → String
  unfolding is_blank str strip get_value
  outcome_of fs =
      let value = get_value fs "outcome" in
      if is_blank value then "" else py.lower (strip (str py value))

  -- json_array; `loads` is json.loads, `none` where it raises
  unfoldable pub json_array : Value → List Value
  unfolding strip truthy list_of
  json_array (arr items) = list_of items
  json_array (text s) = let raw = strip s in if truthy raw then array_of (loads raw) else []
  json_array _ = []

  abbrev outcome_text : Fields → String
  outcome_text fs = py.lower (strip (str_or py (get_value fs "outcome") ""))

  -- _ordered_outcomes
  unfoldable pub ordered_outcomes : Value → List String
  unfolding json_array objects_of indexed_items sort_by str_or strip get_value
  ordered_outcomes value =
      let items = objects_of (json_array value) in
      let indexed = indexed_items items in
      if length indexed == length items
      then map (λ p. outcome_text p.1) (sort_by (λ p q. leb_ℤ p.0 q.0) indexed)
      else map outcome_text items
