-- ===== src/Streaming/Plan.antt =====
-- The shards that a subscription plan names, in src/pmkt/streaming/supervisor.py. `none` stands for the
-- TypeError of a value that is iterated and cannot be. The FeedShardHealth of a planned shard is made by
-- its constructor from these fields.
pub mod Unique
use Prim.Native.String.{[] as end_of_text, ◌∷◌ as cons_text}
use pmkt_core.Prelude.{
  ℕ, ◌+◌, Bool, true, false, not, ◌&&◌, ◌||◌, List, [], ◌∷◌, ◌++◌, Option, none, some, String,
  if◌then◌else◌, string_eq, ◌==◌, map, null, leb, any, or_else,
}
use pmkt_core.Text.{strip, truthy}
use pmkt_core.Collections.Dict.{get, put}
use pmkt_core.Collections.Sets.{mem}
use pmkt_core.Collections.Sorting.{text_leb, sort_by}
use pmkt_core.Json.{
  Value, null_value, text, obj, arr, Fields, end, field, Items, nil, cons, Python, str, str_or,
  is_truthy, is_none, get_value,
}
use pmkt_core.Resolution.Records.{list_of, objects_of}
use pmkt_core.Streaming.Projection.{◌>>=◌}

-- the fields of a FeedShardHealth that a plan sets
pub record PlannedShard : Type 0 where
  pub venue : String
  pub shard_id : String
  pub subscribed_instruments : List String
  pub relation_ids : List String

-- dict[str, list[dict]]
abbrev pub Groups : Type 0
Groups = List (String × List Fields)

-- grouped.setdefault(shard_id, []).append(entry)
unfoldable pub add_entry : String → Fields → Groups → Groups
unfolding get put
add_entry shard_id entry groups =
    put shard_id (or_else (get shard_id groups) [] ++ (entry ∷ [])) groups

abbrev pub sorted_groups : Groups → Groups
sorted_groups groups = sort_by (λ p q. text_leb p.0 q.0) groups

-- the position of a text in a list, the length where it is not there
unfoldable pub position : String → List String → ℕ
position x [] = 0
position x (y ∷ ys) = let rest = position x ys in if x == y then 0 else rest + 1

-- each text once, in order; `seen` holds those before
unfoldable pub unique_from : List String → List String → List String
unfolding mem strip truthy
unique_from seen [] = []
unique_from seen (value ∷ values) =
    let t = strip value in
    if not (truthy t) || mem t seen
    then unique_from seen values
    else t ∷ unique_from (t ∷ seen) values

-- _ordered_unique, of the texts of the values
unfoldable pub ordered_unique : List String → List String
unfolding unique_from
ordered_unique values = unique_from [] values

-- the elements of a set of texts
unfoldable pub unique_texts : List String → List String → List String
unfolding mem
unique_texts seen [] = []
unique_texts seen (t ∷ ts) =
    if mem t seen then unique_texts seen ts else t ∷ unique_texts (t ∷ seen) ts

-- the characters of a text, and the keys of an object
unfoldable pub characters : String → List String
characters end_of_text = []
characters (cons_text c t) = cons_text c "" ∷ characters t

unfoldable pub keys_of : Fields → List String
keys_of end = []
keys_of (field key value fs) = key ∷ keys_of fs

module _ (py : Python) where
  -- for entry in entries: grouped.setdefault(str(entry.get("shard_id") or default), []).append(entry)
  unfoldable pub group_entries : String → List Fields → Groups → Groups
  unfolding add_entry str_or get_value
  group_entries default [] groups = groups
  group_entries default (entry ∷ entries) groups =
      group_entries default entries
        (add_entry (str_or py (get_value entry "shard_id") default) entry groups)

  -- str(value) for value in values if value is not None
  unfoldable pub texts_of : List Value → List String
  unfolding str
  texts_of [] = []
  texts_of (value ∷ values) =
      let rest = texts_of values in if is_none value then rest else str py value ∷ rest

  abbrev match_ids : Value → List Value
  match_ids (arr items) = list_of items
  match_ids _ = []

  unfoldable pub all_match_ids : List Fields → List String
  unfolding texts_of list_of get_value
  all_match_ids [] = []
  all_match_ids (entry ∷ entries) =
      texts_of (match_ids (get_value entry "match_ids")) ++ all_match_ids entries

  -- _relation_ids: the set of the texts, sorted
  unfoldable pub relation_ids : List Fields → List String
  unfolding all_match_ids sort_by unique_texts
  relation_ids entries = sort_by text_leb (unique_texts [] (all_match_ids entries))

  unfoldable pub planned_shards : String → String → Groups → List PlannedShard
  unfolding relation_ids texts_of get_value
  planned_shards venue id_key [] = []
  planned_shards venue id_key ((shard_id, entries) ∷ groups) =
      record {
        venue = venue;
        shard_id = shard_id;
        subscribed_instruments = texts_of (map (λ entry. get_value entry id_key) entries);
        relation_ids = relation_ids entries;
      }
      ∷ planned_shards venue id_key groups

  -- `x or []`, iterated and turned into texts
  unfoldable pub iterated : Value → Option (List String)
  unfolding is_truthy list_of str characters keys_of
  iterated (arr items) = some (map (str py) (list_of items))
  iterated (text t) = some (characters t)
  iterated (obj fs) = some (keys_of fs)
  iterated value = if is_truthy value then none else some []

  -- plan.get(section).get(key), of a legacy plan; [] where the section is no object
  abbrev legacy_value : Value → String → Value
  legacy_value (obj legacy) key = get_value legacy key
  legacy_value _ key = null_value

  abbrev single_shard : String → String → List String → PlannedShard
  single_shard venue shard_id instruments = record {
    venue = venue;
    shard_id = shard_id;
    subscribed_instruments = instruments;
    relation_ids = [];
  }

  -- _polymarket_shards and _kalshi_shards: the venue, the section and the key of an entry, the default
  -- shard, and the section and the key of a legacy plan
  unfoldable pub venue_shards :
      String → String → String → String → String → Fields → Option (List PlannedShard)
  unfolding group_entries planned_shards sort_by iterated list_of objects_of get_value
  venue_shards venue section id_key legacy_key default plan = elim (get_value plan section) [
    | arr (cons first rest) ↦ some (
        planned_shards venue id_key
          (sorted_groups (group_entries default (objects_of (list_of (cons first rest))) [])))
    | _ ↦ iterated (legacy_value (get_value plan venue) legacy_key) >>= λ instruments.
        some (single_shard venue default instruments ∷ [])
  ]

  -- _shards_from_plan
  unfoldable pub shards_from_plan : Fields → Option (List PlannedShard)
  unfolding venue_shards
  shards_from_plan plan = do
    polymarket ←
        venue_shards "polymarket" "polymarket_assets" "asset_id" "assets_ids" "polymarket-0" plan
    kalshi ←
        venue_shards "kalshi" "kalshi_market_tickers" "market_ticker" "market_tickers" "kalshi-0"
          plan
    some (polymarket ++ kalshi)

  -- _legacy_polymarket_assets and _legacy_kalshi_tickers
  unfoldable pub legacy_instruments : String → String → Fields → Option (List String)
  unfolding iterated ordered_unique get_value
  legacy_instruments venue legacy_key plan =
      iterated (legacy_value (get_value plan venue) legacy_key) >>= λ texts.
      some (ordered_unique texts)

  -- the entries of the selected instruments, by shard, and those instruments
  unfoldable pub select_entries :
      String → String → List String → List Fields → Groups → List String → Groups × List String
  unfolding add_entry str_or strip truthy mem get_value
  select_entries default id_key selected [] groups planned = (groups, planned)
  select_entries default id_key selected (entry ∷ entries) groups planned =
      let instrument = strip (str_or py (get_value entry id_key) "") in
      if not (truthy instrument) || not (mem instrument selected)
      then select_entries default id_key selected entries groups planned
      else select_entries default id_key selected entries
          (add_entry (str_or py (get_value entry "shard_id") default) entry groups)
          (instrument ∷ planned)

  -- the selected instruments that no entry names go to the default shard
  unfoldable pub add_leftovers : String → String → List String → List String → Groups → Groups
  unfolding add_entry mem
  add_leftovers default id_key planned [] groups = groups
  add_leftovers default id_key planned (i ∷ selected) groups =
      add_leftovers default id_key planned selected (
        if mem i planned
        then groups
        else add_entry default (field id_key (text i) (field "match_ids" (arr nil) end)) groups)

  -- the entries of a shard, in the order of the selection
  unfoldable pub ordered_groups : String → List String → Groups → Groups
  unfolding position str sort_by get_value
  ordered_groups id_key selected [] = []
  ordered_groups id_key selected ((shard_id, entries) ∷ groups) =
      let place = λ (entry : Fields). position (str py (get_value entry id_key)) selected in
      (shard_id, sort_by (λ a b. leb (place a) (place b)) entries)
      ∷ ordered_groups id_key selected groups

  abbrev selection_groups : String → String → List String → List Fields → Groups
  selection_groups default id_key selected entries =
      let (groups, planned) = select_entries default id_key selected entries [] [] in
      add_leftovers default id_key planned selected groups

  abbrev select_from : String → String → String → List String → Value → List PlannedShard
  select_from venue id_key default selected (arr items) =
      let entries = objects_of (list_of items) in
      if null entries
      then single_shard venue default selected ∷ []
      else planned_shards venue id_key (
          ordered_groups id_key selected
            (sorted_groups (selection_groups default id_key selected entries)))
  select_from venue id_key default selected _ = single_shard venue default selected ∷ []

  -- _selected_shards, of texts that are distinct
  unfoldable pub selected_shards :
      String → String → String → String → String → List String → Fields → Option (List PlannedShard)
  unfolding legacy_instruments select_entries add_leftovers ordered_groups planned_shards sort_by
      objects_of list_of get_value
  selected_shards venue section id_key legacy_key default selected plan =
      legacy_instruments venue legacy_key plan >>= λ legacy. some (
        select_from venue id_key default (if null selected then legacy else selected)
          (get_value plan section))

  -- _shards_from_plan_selection; `none` is also the ValueError of another venue
  unfoldable pub shards_from_plan_selection :
      Fields → String → List String → Option (List PlannedShard)
  unfolding selected_shards ordered_unique
  shards_from_plan_selection plan venue instruments =
      let selected = ordered_unique instruments in
      if venue == "polymarket"
      then selected_shards venue "polymarket_assets" "asset_id" "assets_ids" "polymarket-0" selected
          plan
      else if venue == "kalshi"
      then selected_shards venue "kalshi_market_tickers" "market_ticker" "market_tickers" "kalshi-0"
          selected plan
      else none
