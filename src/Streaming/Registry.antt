-- ===== src/Streaming/Registry.antt =====
-- The shards that the constructor of `LiveFeedSupervisor` in src/pmkt/streaming/supervisor.py accepts, and
-- the shard that owns each instrument.
use pmkt_core.Prelude.{
  ◌≡◌, ◌↔◌, Bool, true, ◌&&◌, List, [], ◌∷◌, none, some, String, Eq, string_eq, ◌==◌, arith,
}
use pmkt_core.Collections.Dict.{get, put}
use pmkt_core.Streaming.Shard.{FeedShardHealth}

-- (venue, shard_id), and (venue, instrument)
abbrev pub Pair : Type 0
Pair = String × String

abbrev pair_beq : Pair → Pair → Bool
pair_beq (a, b) (c, d) = a == c && b == d

pub pair_beq_iff : (p q : Pair) → (pair_beq p q ≡ true) ↔ (p ≡ q)
pair_beq_iff (a, b) (c, d) = (
  λ h. ground (arith, string_eq.beq_iff a c, string_eq.beq_iff b d),
  λ h. ground (arith, string_eq.beq_iff a c, string_eq.beq_iff b d),
)

instance abbrev pub pair_eq : Eq Pair
pair_eq = record { beq = pair_beq; beq_iff = pair_beq_iff }

pub data Refusal : Type 0 where
  -- "duplicate feed shard"
  duplicate_shard : Pair → Refusal
  -- "instrument subscribed by multiple feed shards": the instrument, and the two shards
  shared_instrument : Pair → Pair → Pair → Refusal

pub data Checked (A : Type 0) : Type 0 where
  refused : Refusal → Checked A
  done : A → Checked A

-- self.shards and self._instrument_shards, which has the key of a shard for the shard
pub record Registry : Type 0 where
  pub shards : List (Pair × FeedShardHealth)
  pub instrument_shards : List (Pair × Pair)

-- for instrument in shard.subscribed_instruments
unfoldable pub register_instruments :
    Pair → List String → List (Pair × Pair) → Checked (List (Pair × Pair))
unfolding get put
register_instruments key [] owners = done owners
register_instruments key (i ∷ instruments) owners = elim (get (key.0, i) owners) [
  | some existing ↦ refused (shared_instrument (key.0, i) existing key)
  | none ↦ register_instruments key instruments (put (key.0, i) key owners)
]

abbrev pub key_of : FeedShardHealth → Pair
key_of s = (s.venue, s.shard_id)

-- before the constructor a shard has no callback
abbrev pub silent : FeedShardHealth → FeedShardHealth
silent s = record s { notices = [] }

abbrev pub with_owners :
    FeedShardHealth → Registry → Checked (List (Pair × Pair)) → Checked Registry
with_owners s r (refused e) = refused e
with_owners s r (done owners) =
    done record { shards = put (key_of s) (silent s) r.shards; instrument_shards = owners }

unfoldable pub register_shard : FeedShardHealth → Registry → Checked Registry
unfolding register_instruments get put
register_shard s r = elim (get (key_of s) r.shards) [
  | some other ↦ refused (duplicate_shard (key_of s))
  | none ↦
      with_owners s r (register_instruments (key_of s) s.subscribed_instruments r.instrument_shards)
]

-- the loop of the constructor
unfoldable pub register_shards : List FeedShardHealth → Registry → Checked Registry
unfolding register_shard
register_shards [] r = done r
register_shards (s ∷ shards) r = elim (register_shard s r) [
  | refused e ↦ refused e
  | done next ↦ register_shards shards next
]
