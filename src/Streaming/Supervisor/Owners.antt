-- ===== src/Streaming/Supervisor/Owners.antt =====
-- What the constructor of `LiveFeedSupervisor` promises of its shards and their instruments.
use pmkt_core.Prelude.{
  ◌⊎◌, ◌≡◌, refl, ap, sym, ◌∙◌, true, List, [], ◌∷◌, none, some, String, string_eq, ◌==◌, inl, inr,
  Bool-cases, Option-cases, arith,
}
use mathlib.Core.Path.{subst}
use pmkt_core.Collections.Dict.{get, put, get-put}
use pmkt_core.Collections.Sets.{mem}
use pmkt_core.Streaming.Shard.{FeedShardHealth}
use pmkt_core.Streaming.Registry.{
  Pair, pair_eq, pair_beq_iff, Refusal, Checked, refused, done, Registry, register_instruments,
  key_of, silent, with_owners, register_shard, register_shards,
}

pub done_injective : {A : Type 0} → (a b : A) → done a ≡ done b → a ≡ b
done_injective {A = A} a b h = ap value h
  where
    value : Checked A → A
    value (done x) = x
    value (refused e) = a

pub refused_done : {A : Type 0} → (e : Refusal) → (a : A) → refused e ≡ done a → ⊥
refused_done e a h = absurd cc

pub Checked-cases :
    {A : Type 0} → (c : Checked A) → ((e : Refusal) × (c ≡ refused e)) ⊎ ((a : A) × (c ≡ done a))
Checked-cases (refused e) = inl (e, refl)
Checked-cases (done a) = inr (a, refl)

put_absent :
    {V : Type 0} (j k : Pair) (new v : V) (d : List (Pair × V))
    → get j d ≡ none
    → get k d ≡ some v
    → get k (put j new d) ≡ some v
put_absent j k new v d a g = elim (Bool-cases (j == k)) [
  | inr n ↦ get-put j k new d ∙ (rw n g)
  | inl e ↦
      let same = (pair_beq_iff j k).0 e in
      let gone : get k d ≡ none = subst (λ x. get x d ≡ none) same a in absurd (cc (gone, g))
]

module _ (key : Pair) where
  -- an owner stays
  kept_owner :
      (p k : Pair) (instruments : List String) (owners after : List (Pair × Pair))
      → register_instruments key instruments owners ≡ done after
      → get p owners ≡ some k
      → get p after ≡ some k
  unfolding register_instruments
  kept_owner p k [] owners after h g = ap (get p) (sym (done_injective owners after h)) ∙ g
  kept_owner p k (i ∷ instruments) owners after h g = elim (Option-cases (get (key.0, i) owners)) [
    | inr (other, found) ↦ absurd (refused_done _ after (rw (register_instruments, found) at h))
    | inl found ↦
        kept_owner p k instruments (put (key.0, i) key owners) after
          (rw (register_instruments, found) at h) (put_absent (key.0, i) p key k owners found g)
  ]

  new_owner :
      (j : String) (instruments : List String) (owners after : List (Pair × Pair))
      → register_instruments key instruments owners ≡ done after
      → mem j instruments ≡ true
      → get (key.0, j) after ≡ some key
  unfolding register_instruments mem
  new_owner j [] owners after h m = absurd cc
  new_owner j (i ∷ instruments) owners after h m = elim (Option-cases (get (key.0, i) owners)) [
    | inr (other, found) ↦ absurd (refused_done _ after (rw (register_instruments, found) at h))
    | inl found ↦ elim (Bool-cases (j == i)) [
      | inr n ↦
          new_owner j instruments (put (key.0, i) key owners) after
            (rw (register_instruments, found) at h) (ground arith)
      | inl e ↦
          let same = (string_eq.beq_iff j i).0 e in
          let self = (pair_beq_iff (key.0, i) (key.0, j)).1 (ap (λ x. (key.0, x)) (sym same)) in
          kept_owner (key.0, j) key instruments (put (key.0, i) key owners) after
            (rw (register_instruments, found) at h)
            (get-put (key.0, i) (key.0, j) key owners ∙ (rw self refl))
    ]
  ]

-- every instrument of a shard is owned by the shard, which is stored under its own key
pub record IsRegistry (shards : List (Pair × FeedShardHealth)) (owners : List (Pair × Pair))
    : Type 0 where
  pub keyed : (k : Pair) (s : FeedShardHealth) → get k shards ≡ some s → key_of s ≡ k
  pub owned :
      (k : Pair) (s : FeedShardHealth) (i : String)
      → get k shards ≡ some s
      → mem i s.subscribed_instruments ≡ true
      → get (k.0, i) owners ≡ some k

module _ (s : FeedShardHealth) (r next : Registry) where
  -- a shard of the new table is the registered one, or was there
  stored :
      (k : Pair) (t : FeedShardHealth)
      → get k (put (key_of s) (silent s) r.shards) ≡ some t
      → ((key_of s ≡ k) × (silent s ≡ t)) ⊎ (get k r.shards ≡ some t)
  stored k t g = elim (Bool-cases (key_of s == k)) [
    | inr n ↦ inr ((rw (get-put (key_of s) k (silent s) r.shards, n) refl) ∙ g)
    | inl e ↦
        let found : some (silent s) ≡ some t =
          sym (rw (get-put (key_of s) k (silent s) r.shards, e) refl) ∙ g in
        inl ((pair_beq_iff (key_of s) k).0 e, cc)
  ]

  registered_new :
      (owners : List (Pair × Pair))
      → register_instruments (key_of s) s.subscribed_instruments r.instrument_shards ≡ done owners
      → (k : Pair) (j : String) → key_of s ≡ k
      → mem j s.subscribed_instruments ≡ true
      → get (k.0, j) owners ≡ some k
  registered_new owners h k j here m =
      subst (λ x. get (x.0, j) owners ≡ some x) here
        (new_owner (key_of s) j s.subscribed_instruments r.instrument_shards owners h m)

  registered :
      (owners : List (Pair × Pair))
      → register_instruments (key_of s) s.subscribed_instruments r.instrument_shards ≡ done owners
      → IsRegistry r.shards r.instrument_shards
      → IsRegistry (put (key_of s) (silent s) r.shards) owners
  registered owners h i = record {
    keyed = λ k t g. elim (stored k t g) [
      | inl (here, same) ↦ sym (ap key_of same) ∙ here
      | inr old ↦ i.keyed k t old
    ];
    owned = λ k t j g m. elim (stored k t g) [
      | inl (here, same) ↦
          registered_new owners h k j here (ap (λ x. mem j x.subscribed_instruments) same ∙ m)
      | inr old ↦
          kept_owner (key_of s) (k.0, j) k s.subscribed_instruments r.instrument_shards owners h
            (i.owned k t j old m)
    ];
  }

  register_shard-IsRegistry :
      register_shard s r ≡ done next
      → IsRegistry r.shards r.instrument_shards
      → IsRegistry next.shards next.instrument_shards
  unfolding register_shard
  register_shard-IsRegistry h i = elim (Option-cases (get (key_of s) r.shards)) [
    | inr (other, found) ↦ absurd (refused_done _ next (rw (register_shard, found) at h))
    | inl found ↦
        go (register_instruments (key_of s) s.subscribed_instruments r.instrument_shards) refl
          (rw (register_shard, found) at h)
  ]
    where
      go :
          (c : Checked (List (Pair × Pair)))
          → register_instruments (key_of s) s.subscribed_instruments r.instrument_shards ≡ c
          → with_owners s r c ≡ done next
          → IsRegistry next.shards next.instrument_shards
      go (refused e) same g = absurd (refused_done e next g)
      go (done owners) same g =
          subst (λ n. IsRegistry n.shards n.instrument_shards)
            (done_injective
              (record { shards = put (key_of s) (silent s) r.shards; instrument_shards = owners })
              next g)
            (registered owners same i)

pub register_shards-IsRegistry :
    (shards : List FeedShardHealth) (r next : Registry)
    → register_shards shards r ≡ done next
    → IsRegistry r.shards r.instrument_shards
    → IsRegistry next.shards next.instrument_shards
unfolding register_shards
register_shards-IsRegistry [] r next h i =
    subst (λ n. IsRegistry n.shards n.instrument_shards) (done_injective r next h) i
register_shards-IsRegistry (s ∷ shards) r next h i = elim (Checked-cases (register_shard s r)) [
  | inl (e, found) ↦ absurd (refused_done e next (rw (register_shards, found) at h))
  | inr (middle, found) ↦
      register_shards-IsRegistry shards middle next (rw (register_shards, found) at h)
        (register_shard-IsRegistry s r middle found i)
]
