-- ===== src/Streaming/Supervisor/Actions.antt =====
-- The recovery actions name exactly the shards that need one.
use pmkt_core.Prelude.{
  ◌≡◌, refl, ap, sym, ◌∙◌, Bool, true, false, not, ◌&&◌, ◌||◌, List, [], ◌∷◌, Option, none, some,
  String, if◌then◌else◌, string_eq, ◌==◌, inl, inr, Bool-cases, Option-cases, arith, is_some, map,
  null, any,
}
use mathlib.Core.Option.{some-injective}
use mathlib.Core.Path.{subst}
use pmkt_core.Collections.Dict.{get}
use pmkt_core.Collections.Sets.{mem}
use pmkt_core.Collections.Sorting.{text_leb, pair_leb, sort_by, mem-sort_by}
use pmkt_core.Streaming.Projection.{Instruments}
use pmkt_core.Streaming.Shard.{FeedShardHealth}
use pmkt_core.Streaming.Registry.{Pair, pair_eq, pair_beq_iff, key_of}
use pmkt_core.Streaming.Supervisor.{LiveFeedSupervisor}
use pmkt_core.Streaming.Supervisor.Owners.{IsRegistry}
use pmkt_core.Streaming.Supervisor.Reachable.{Reached, Reached-IsSupervisor}
use pmkt_core.Streaming.Supervisor.Recovery.{
  is_disconnected, is_broken, FeedRecoveryAction, action_on, socket_recovery_reasons,
  broken_instruments, action_for, of_venue, keys_of_venue, shard_keys, select_shards,
  selected_shards, actions_for, current_recovery_actions,
}

-- the shard of an action
abbrev pub target : FeedRecoveryAction → Pair
target a = (a.venue, a.shard_id)

action_for-target :
    (s : FeedShardHealth) (a : FeedRecoveryAction) → action_for s ≡ some a → target a ≡ key_of s
unfolding action_for
action_for-target s a h =
    let reasons = socket_recovery_reasons s in
    let broken = broken_instruments s.instrument_health in
    elim (Bool-cases (not (null reasons))) [
      | inl b ↦
          let found : some (action_on s reasons []) ≡ some a = rw b at h in
          sym (ap target (some-injective _ _ found))
      | inr b ↦ elim (Bool-cases (not (null broken))) [
        | inl c ↦
            let found : some (action_on s ("book_integrity" ∷ []) (sort_by text_leb broken))
                ≡ some a =
              rw (b, c) at h in
            sym (ap target (some-injective _ _ found))
        | inr c ↦
            let gone : Path (Option FeedRecoveryAction) none (some a) = rw (b, c) at h in absurd cc
      ]
    ]

-- an action of the list is on the shard of a key
abbrev targeted : Pair → List FeedShardHealth → Bool
targeted k shards = mem k (map target (actions_for shards))

targeted-cons :
    (k : Pair) (s : FeedShardHealth) (shards : List FeedShardHealth)
    → targeted k (s ∷ shards) ≡ ((k == key_of s && is_some (action_for s)) || targeted k shards)
unfolding actions_for mem
targeted-cons k s shards = elim (Option-cases (action_for s)) [
  | inl n ↦ rw (actions_for, n) (ground arith)
  | inr (a, e) ↦
      let same = ap (λ x. k == x) (action_for-target s a e) in rw (actions_for, e) (ground arith)
]

module _ (shards : List (Pair × FeedShardHealth)) (owners : List (Pair × Pair))
    (registry : IsRegistry shards owners) (venue : Option String) (j : Pair) (s : FeedShardHealth)
    (here : get j shards ≡ some s) where
  -- the shard is among the keys, and not among those seen, and needs an action
  abbrev wanted : List Pair → List Pair → Bool
  wanted keys seen =
      (mem j keys && not (mem j seen)) && (of_venue venue s.venue && is_some (action_for s))

  abbrev IsSelection : List Pair → List Pair → Option (List FeedShardHealth) → Type 0
  IsSelection keys seen o =
      (selected : List FeedShardHealth) × (o ≡ some selected)
      × (targeted j selected ≡ wanted keys seen)

  abbrev kept_if : FeedShardHealth → List FeedShardHealth → List FeedShardHealth
  kept_if t rest = if of_venue venue t.venue then t ∷ rest else rest

  targeted-kept :
      (t : FeedShardHealth) (rest : List FeedShardHealth)
      → targeted j (kept_if t rest)
        ≡ ((of_venue venue t.venue && (j == key_of t && is_some (action_for t))) || targeted j rest)
  targeted-kept t rest = elim (Bool-cases (of_venue venue t.venue)) [
    | inl v ↦ rw v (targeted-cons j t rest)
    | inr v ↦ rw v refl
  ]

  selected-next :
      (key : Pair) (keys seen : List Pair) (t : FeedShardHealth) (rest : List FeedShardHealth)
      → get key shards ≡ some t
      → mem key seen ≡ false
      → targeted j rest ≡ wanted keys (key ∷ seen)
      → targeted j (kept_if t rest) ≡ wanted (key ∷ keys) seen
  unfolding mem
  selected-next key keys seen t rest g n h = elim (Bool-cases (j == key)) [
    | inl e ↦
        let same = (pair_beq_iff j key).0 e in
        let found : get j shards ≡ some t = subst (λ x. get x shards ≡ some t) (sym same) g in
        let shard : t ≡ s = some-injective t s (sym found ∙ here) in
        let named : (j == key_of t) ≡ true =
          (pair_beq_iff j (key_of t)).1 (sym (registry.keyed j t found)) in
        let venues = ap (λ (x : FeedShardHealth). of_venue venue x.venue) shard in
        let needs = ap (λ x. is_some (action_for x)) shard in
        let unseen : mem j seen ≡ false = subst (λ x. mem x seen ≡ false) (sym same) n in
        rw (targeted-kept t rest, h) (ground arith)
    | inr o ↦
        let apart : (j == key_of t) ≡ false = ap (λ x. j == x) (registry.keyed key t g) ∙ o in
        rw (targeted-kept t rest, h) (ground arith)
  ]

  selected-seen :
      (key : Pair) (keys seen : List Pair) (selected : List FeedShardHealth)
      → mem key seen ≡ true
      → targeted j selected ≡ wanted keys seen
      → targeted j selected ≡ wanted (key ∷ keys) seen
  unfolding mem
  selected-seen key keys seen selected b h = elim (Bool-cases (j == key)) [
    | inl e ↦
        let had : mem j seen ≡ true =
          subst (λ x. mem x seen ≡ true) (sym ((pair_beq_iff j key).0 e)) b in
        rw h (ground arith)
    | inr o ↦ rw h (ground arith)
  ]

  select-IsSelection :
      (keys seen : List Pair)
      → ((k : Pair) → mem k keys ≡ true → is_some (get k shards) ≡ true)
      → IsSelection keys seen (select_shards shards venue keys seen)
  unfolding mem select_shards actions_for
  select-IsSelection [] seen present = ([], refl, refl)
  select-IsSelection (key ∷ keys) seen present = elim (Bool-cases (mem key seen)) [
    | inl b ↦
        let (selected, e, h) = select-IsSelection keys seen (λ k m. present k (ground arith)) in
        (selected, rw (select_shards, b) e, selected-seen key keys seen selected b h)
    | inr b ↦
        let (rest, e, h) = select-IsSelection keys (key ∷ seen) (λ k m. present k (ground arith)) in
        elim (Option-cases (get key shards)) [
          | inl n ↦
              let self = (pair_beq_iff key key).1 refl in
              let there = present key (ground arith) in
              let gone : false ≡ true = sym (ap is_some n) ∙ there in absurd cc
          | inr (t, g) ↦ (
            kept_if t rest,
            rw (select_shards, b, g, e) refl,
            selected-next key keys seen t rest g b h,
          )
        ]
  ]

mem-keys_of_venue :
    (venue : Option String) (k : Pair) (keys : List Pair)
    → mem k (keys_of_venue venue keys) ≡ (of_venue venue k.0 && mem k keys)
unfolding mem keys_of_venue
mem-keys_of_venue venue k [] = ground arith
mem-keys_of_venue venue k (key ∷ keys) = elim (Bool-cases (k == key)) [
  | inl e ↦
      let house = ap (λ (p : Pair). of_venue venue p.0) ((pair_beq_iff k key).0 e) in
      let rest = mem-keys_of_venue venue k keys in ground arith
  | inr o ↦ let rest = mem-keys_of_venue venue k keys in ground arith
]

mem-first :
    (k : Pair) (shards : List (Pair × FeedShardHealth))
    → mem k (map (λ h. h.0) shards) ≡ is_some (get k shards)
unfolding mem get
mem-first k [] = refl
mem-first k ((key, s) ∷ shards) = elim (Bool-cases (key == k)) [
  | inl e ↦ let back = (pair_beq_iff k key).1 (sym ((pair_beq_iff key k).0 e)) in rw (e, back) refl
  | inr o ↦
      let apart : (k == key) ≡ false = ground (arith, pair_beq_iff k key, pair_beq_iff key k) in
      rw (o, apart) (mem-first k shards)
]

mem-shard_keys :
    (venue : Option String) (k : Pair) (sup : LiveFeedSupervisor)
    → mem k (sort_by pair_leb (shard_keys venue sup))
      ≡ (of_venue venue k.0 && is_some (get k sup.shards))
unfolding shard_keys
mem-shard_keys venue k sup =
    let names = sort_by pair_leb (map (λ h. h.0) sup.shards) in
    mem-sort_by pair_leb k (keys_of_venue venue names)
    ∙ mem-keys_of_venue venue k names
    ∙ ap (λ b. of_venue venue k.0 && b)
        (mem-sort_by pair_leb k (map (λ h. h.0) sup.shards) ∙ mem-first k sup.shards)

-- a reason for an action: the socket is lost, a hash did not match, or a book that has had its first
-- snapshot is broken and not about to be reset
abbrev pub needs_action : FeedShardHealth → Bool
needs_action s =
    is_disconnected s.connection_state
    || mem "hash_mismatch" s.quality_flags
    || any (λ e. is_broken e.1) s.instrument_health

broken-any :
    (health : Instruments)
    → not (null (broken_instruments health)) ≡ any (λ e. is_broken e.1) health
unfolding broken_instruments
broken-any [] = refl
broken-any ((i, state) ∷ health) = elim (Bool-cases (is_broken state)) [
  | inl b ↦ rw b refl
  | inr b ↦ rw b (broken-any health)
]

action_for-needs : (s : FeedShardHealth) → is_some (action_for s) ≡ needs_action s
unfolding action_for socket_recovery_reasons
action_for-needs s =
    let broken = broken-any s.instrument_health in
    elim (Bool-cases (is_disconnected s.connection_state)) [
      | inl d ↦ rw d refl
      | inr d ↦ elim (Bool-cases (mem "hash_mismatch" s.quality_flags)) [
        | inl m ↦ rw (d, m) refl
        | inr m ↦ rw (d, m) (ground arith)
      ]
    ]

-- in a supervisor that the constructor and calls lead to, current_recovery_actions without shard keys
-- answers, and a shard of the supervisor has an action in the answer exactly when it is of the venue (or
-- no venue is given) and needs one: its socket is disconnected, it has the flag hash_mismatch, or it has
-- an instrument with a first snapshot whose book is broken and that is not flagged reconnect
pub current_recovery_actions-exact :
    (sup : LiveFeedSupervisor) (venue : Option String) (j : Pair) (s : FeedShardHealth)
    → Reached sup
    → get j sup.shards ≡ some s
    → (actions : List FeedRecoveryAction) × (current_recovery_actions venue none sup ≡ some actions)
      × (mem j (map target actions) ≡ (of_venue venue s.venue && needs_action s))
unfolding current_recovery_actions selected_shards mem
current_recovery_actions-exact sup venue j s r here =
    let registry = (Reached-IsSupervisor sup r).registry in
    let keys = sort_by pair_leb (shard_keys venue sup) in
    let present : (k : Pair) → mem k keys ≡ true → is_some (get k sup.shards) ≡ true =
      λ k m. ground (arith, mem-shard_keys venue k sup) in
    let (selected, e, h) =
      select-IsSelection sup.shards sup.instrument_shards registry venue j s here keys [] present in
    let listed = mem-shard_keys venue j sup in
    let house = ap (λ (p : Pair). of_venue venue p.0) (registry.keyed j s here) in
    let there = ap is_some here in
    let both : wanted sup.shards sup.instrument_shards registry venue j s here keys []
        ≡ (of_venue venue s.venue && is_some (action_for s)) =
      ground arith in
    (
      actions_for selected,
      rw e refl,
      h ∙ both ∙ ap (λ b. of_venue venue s.venue && b) (action_for-needs s),
    )
