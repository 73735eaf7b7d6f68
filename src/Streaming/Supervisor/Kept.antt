-- ===== src/Streaming/Supervisor/Kept.antt =====
-- Calls and checks keep the registry of a supervisor.
use pmkt_core.Prelude.{
  ℕ, ◌≡◌, refl, ap, sym, ◌∙◌, Bool, true, false, List, [], ◌∷◌, Option, none, some, String,
  string_eq, ◌==◌, inl, inr, Bool-cases, Option-cases, arith,
}
use mathlib.Core.Option.{some-injective}
use mathlib.Core.Path.{subst}
use pmkt_core.Collections.Dict.{get, put, get-put_self, get-put_other}
use pmkt_core.Collections.Sets.{mem}
use pmkt_core.Text.{truthy}
use pmkt_core.Streaming.Projection.{◌>>=◌}
use pmkt_core.Streaming.Shard.{FeedShardHealth}
use pmkt_core.Streaming.ShardStale.{
  invalidate_instrument_if_stale, invalidate_shard_clocks_if_stale,
}
use pmkt_core.Streaming.Deadlines.{Key, key_eq, Deadlines, expire_venue}
use pmkt_core.Streaming.Deadlines.Queue.{IsQueue}
use pmkt_core.Streaming.Deadlines.Expiry.{expire-IsQueue}
use pmkt_core.Streaming.Deadlines.Handling.{expire_venue-deadlines, expire_venue-keeps}
use pmkt_core.Streaming.Registry.{Pair, pair_eq, pair_beq_iff, key_of}
use pmkt_core.Streaming.Supervisor.{LiveFeedSupervisor}
use pmkt_core.Streaming.Supervisor.Owners.{IsRegistry}
use pmkt_core.Streaming.Supervisor.Identity.{Identity, identity, IsOfPair}
use pmkt_core.Streaming.Supervisor.SameShard.{invalidate_clocks-IsOf, invalidate_instrument-IsOf}
use pmkt_core.Streaming.Supervisor.Checks.{
  Check, check_key, check_shard, check_initial, check_venues, shard_key, note_changed, after_check,
  include, examined_key,
}

-- a shard of the same name and subscriptions may take the place of another
pub put-IsRegistry :
    (k : Pair) (s t : FeedShardHealth) (shards : List (Pair × FeedShardHealth))
    (owners : List (Pair × Pair))
    → IsRegistry shards owners
    → get k shards ≡ some s
    → identity t ≡ identity s
    → IsRegistry (put k t shards) owners
put-IsRegistry k s t shards owners r found same = record {
  keyed = λ j u g. elim (Bool-cases (k == j)) [
    | inr n ↦ r.keyed j u (sym (get-put_other k j t shards n) ∙ g)
    | inl e ↦
        let new : t ≡ u = some-injective t u (sym (get-put_self k j t shards e) ∙ g) in
        ap key_of (sym new)
        ∙ ap (λ (i : Identity). (i.0, i.1)) same
        ∙ r.keyed k s found
        ∙ (pair_beq_iff k j).0 e
  ];
  owned = λ j u i g m. elim (Bool-cases (k == j)) [
    | inr n ↦ r.owned j u i (sym (get-put_other k j t shards n) ∙ g) m
    | inl e ↦
        let new : t ≡ u = some-injective t u (sym (get-put_self k j t shards e) ∙ g) in
        let subscribed : mem i s.subscribed_instruments ≡ true =
          ap (λ x. mem i x)
            (sym (ap (λ (d : Identity). d.2) same)
              ∙ ap (λ (x : FeedShardHealth). x.subscribed_instruments) new)
          ∙ m in
        subst (λ x. get (x.0, i) owners ≡ some x) ((pair_beq_iff k j).0 e)
          (r.owned k s i found subscribed)
  ];
}

-- the check keeps the registry
abbrev pub Kept : List (Pair × Pair) → Option Check → Type 0
Kept owners none = Unit
Kept owners (some c) = IsRegistry c.shards owners

note_changed-shards : (b : Bool) (key : Pair) (c : Check) → (note_changed b key c).shards ≡ c.shards
note_changed-shards true key c = refl
note_changed-shards false key c = refl

check_initial-shards :
    (key : Key) (s : FeedShardHealth) (c : Check) → (check_initial key s c).shards ≡ c.shards
unfolding check_initial
check_initial-shards key s c = ground arith

module _ (owners : List (Pair × Pair)) (key : Key) (s : FeedShardHealth) where
  after_check-Kept :
      (c : Check) (o : Option (FeedShardHealth × Bool))
      → IsRegistry c.shards owners
      → get (shard_key key) c.shards ≡ some s
      → IsOfPair s o
      → Kept owners (o >>= λ r. some (after_check key c r))
  after_check-Kept c none h g same = tt
  after_check-Kept c (some (t, b)) h g same =
      rw
        (note_changed-shards b (shard_key key)
          (record c { shards = put (shard_key key) t c.shards }))
        (put-IsRegistry (shard_key key) s t c.shards owners h g same)

  check_shard-Kept :
      (now : ℕ) (sup : LiveFeedSupervisor) (c : Check)
      → IsRegistry c.shards owners
      → get (shard_key key) c.shards ≡ some s
      → Kept owners (check_shard now sup key s c)
  unfolding check_shard
  check_shard-Kept now sup c h g =
      let a = sup.max_message_age_ms in
      let b = sup.max_valid_book_age_ms in
      elim (Bool-cases (truthy key.instrument)) [
        | inr n ↦ rw n (
            after_check-Kept c (invalidate_shard_clocks_if_stale now a b s) h g
              (invalidate_clocks-IsOf now a b s))
        | inl y ↦ elim (Bool-cases (key.kind == "initial_book")) [
          | inl k ↦ rw (y, k) (rw (check_initial-shards key s c) h)
          | inr k ↦
              rw (y, k)
                (after_check-Kept (record c { examined = include (examined_key key) c.examined })
                  (invalidate_instrument_if_stale now a b true key.instrument s) h g
                  (invalidate_instrument-IsOf now a b true key.instrument s))
        ]
      ]

check_key-Kept :
    (now : ℕ) (sup : LiveFeedSupervisor) (owners : List (Pair × Pair)) (key : Key)
    (o : Option Check)
    → Kept owners o
    → Kept owners (check_key now sup key o)
unfolding check_key
check_key-Kept now sup owners key none h = tt
check_key-Kept now sup owners key (some c) h = elim (Option-cases (get (shard_key key) c.shards)) [
  | inl n ↦ rw n tt
  | inr (s, g) ↦ rw g (check_shard-Kept owners key s now sup c h g)
]

pub check_venues-Kept :
    (now : ℕ) (sup : LiveFeedSupervisor) (owners : List (Pair × Pair)) (venues : List String)
    (q : Deadlines) (o : Option Check)
    → Kept owners o × IsQueue q
    → let r = check_venues now sup venues q o in Kept owners r.1 × IsQueue r.0
unfolding check_venues
check_venues-Kept now sup owners [] q o h = h
check_venues-Kept now sup owners (venue ∷ venues) q o h =
    let handle = check_key now sup in
    let r = expire_venue handle now venue q o in
    check_venues-Kept now sup owners venues r.0 r.1 (
      expire_venue-keeps handle now venue (Kept owners) (check_key-Kept now sup owners) q o h.0,
      subst IsQueue (sym (expire_venue-deadlines handle now venue q o))
          (expire-IsQueue now venue q h.1),
    )
