-- ===== src/Tests/Plan.antt =====
-- The plan of a selection at concrete inputs.
use pmkt_core.Prelude.{
  ◌≡◌, refl, true, false, [], ◌∷◌, none, some, String, string_eq, ◌==◌, any, ◌&&◌,
}
use pmkt_core.Text.{strip, truthy}
use pmkt_core.Collections.Sets.{mem}
use pmkt_core.Collections.Sorting.{text_leb}
use pmkt_core.Json.{Value, text, obj, arr, Fields, end, field, nil, cons, Python}
use pmkt_core.Streaming.ShardOps.{has_repeat}
use pmkt_core.Streaming.Plan.{ordered_unique, shards_from_plan_selection}
use pmkt_core.Streaming.Plan.Unique.{ordered_unique-distinct}

abbrev python : Python
python = record {
  one = 10000;
  decimal_numbers = true;
  decimal_of_text = λ _. none;
  fits_float = λ _. true;
  is_integer_text = λ _. false;
  str_of = λ _. "";
  float_of_number = λ _. none;
  float_of_text = λ _. none;
  lower = λ s. s;
  upper = λ s. s;
}

abbrev entry : String → String → Value
entry ticker shard_id =
    obj (field "market_ticker" (text ticker) (field "shard_id" (text shard_id) end))

abbrev plan : Fields
plan = field "kalshi_market_tickers" (arr (cons (entry "B" "k1") (cons (entry "A" "k1") nil))) end

-- a shard of the plan in the order of the selection, and the default shard with the instrument left over
planned :
    shards_from_plan_selection python plan "kalshi" ("A" ∷ " C" ∷ "B" ∷ "A" ∷ [])
    ≡ some (
        record {
          venue = "kalshi";
          shard_id = "k1";
          subscribed_instruments = "A" ∷ "B" ∷ [];
          relation_ids = [];
        }
        ∷ record {
          venue = "kalshi";
          shard_id = "kalshi-0";
          subscribed_instruments = "C" ∷ [];
          relation_ids = [];
        }
        ∷ [])
unfolding shards_from_plan_selection text_leb
planned = refl

ordered_unique-distinct_example :
    (has_repeat (ordered_unique (" C" ∷ "A" ∷ "C" ∷ [])) ≡ false)
    × (mem "C" (ordered_unique (" C" ∷ "A" ∷ "C" ∷ []))
        ≡ (truthy "C" && any (λ v. "C" == strip v) (" C" ∷ "A" ∷ "C" ∷ [])))
ordered_unique-distinct_example = ordered_unique-distinct "C" (" C" ∷ "A" ∷ "C" ∷ [])
