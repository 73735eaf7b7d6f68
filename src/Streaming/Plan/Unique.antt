-- ===== src/Streaming/Plan/Unique.antt =====
-- The instruments of a selection are distinct, so that a shard of them is not refused.
use pmkt_core.Prelude.{
  ◌≡◌, refl, ap, Bool, false, not, ◌&&◌, ◌||◌, List, [], ◌∷◌, String, string_eq, ◌==◌, any, inl,
  inr, Bool-cases, arith,
}
use pmkt_core.Text.{strip, truthy}
use pmkt_core.Collections.Sets.{mem}
use pmkt_core.Streaming.ShardOps.{has_repeat}
use pmkt_core.Streaming.Plan.{unique_from, ordered_unique}

-- the text of some value
abbrev pub is_text_of : String → List String → Bool
is_text_of x values = truthy x && any (λ v. x == strip v) values

mem-unique_from :
    (x : String) (seen values : List String)
    → mem x (unique_from seen values) ≡ (not (mem x seen) && is_text_of x values)
unfolding mem unique_from
mem-unique_from x seen [] = ground arith
mem-unique_from x seen (value ∷ values) =
    elim (Bool-cases (not (truthy (strip value)) || mem (strip value) seen)) [
      | inl b ↦
          let rest = mem-unique_from x seen values in
          elim (Bool-cases (x == strip value)) [
            | inr o ↦ rw (unique_from, b) (ground arith)
            | inl e ↦
                let same = (string_eq.beq_iff x (strip value)).0 e in
                let truths = ap truthy same in
                let seens = ap (λ y. mem y seen) same in rw (unique_from, b) (ground arith)
          ]
      | inr b ↦
          let rest = mem-unique_from x (strip value ∷ seen) values in
          elim (Bool-cases (x == strip value)) [
            | inr o ↦ rw (unique_from, b) (ground arith)
            | inl e ↦
                let same = (string_eq.beq_iff x (strip value)).0 e in
                let truths = ap truthy same in
                let seens = ap (λ y. mem y seen) same in rw (unique_from, b) (ground arith)
          ]
    ]

has_repeat-unique_from : (seen values : List String) → has_repeat (unique_from seen values) ≡ false
unfolding mem unique_from has_repeat
has_repeat-unique_from seen [] = refl
has_repeat-unique_from seen (value ∷ values) =
    elim (Bool-cases (not (truthy (strip value)) || mem (strip value) seen)) [
      | inl b ↦ rw (unique_from, b) (has_repeat-unique_from seen values)
      | inr b ↦
          let t = strip value in
          let rest = has_repeat-unique_from (t ∷ seen) values in
          let absent = mem-unique_from t (t ∷ seen) values in
          let self = (string_eq.beq_iff t t).1 refl in rw (unique_from, b) (ground arith)
    ]

-- the instruments of a selection have no repeat, and are the texts of the given values, without the space
-- around them and without the empty text
pub ordered_unique-distinct :
    (x : String) (values : List String)
    → (has_repeat (ordered_unique values) ≡ false)
      × (mem x (ordered_unique values) ≡ (truthy x && any (λ v. x == strip v) values))
unfolding ordered_unique mem
ordered_unique-distinct x values = (has_repeat-unique_from [] values, mem-unique_from x [] values)
