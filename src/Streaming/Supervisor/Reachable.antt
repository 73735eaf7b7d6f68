-- ===== src/Streaming/Supervisor/Reachable.antt =====
-- What holds of every supervisor that the program reaches.
use pmkt_core.Prelude.{
  ℕ, ◌≡◌, ap, sym, ◌∙◌, Bool, true, List, [], Option, none, some, String, if◌then◌else◌, string_eq,
  ◌==◌, inl, inr, Option-cases,
}
use mathlib.Core.Option.{some-injective}
use mathlib.Core.Path.{subst}
use pmkt_core.Collections.Dict.{get, put}
use pmkt_core.Collections.Sets.{mem}
use pmkt_core.Streaming.Projection.{◌>>=◌}
use pmkt_core.Streaming.Shard.{FeedShardHealth}
use pmkt_core.Streaming.ShardCalls.{Call, perform}
use pmkt_core.Streaming.Deadlines.{Key, key_eq, Deadlines, expire_venue, no_deadlines}
use pmkt_core.Streaming.Deadlines.Queue.{IsQueue}
use pmkt_core.Streaming.Deadlines.Spec.{no_deadlines-IsQueue}
use pmkt_core.Streaming.Deadlines.Handling.{expire_venue-deadlines}
use pmkt_core.Streaming.Registry.{Pair, pair_eq, done, Registry, register_shards, silent}
use pmkt_core.Streaming.Supervisor.{
  LiveFeedSupervisor, supervise, new_supervisor, deliver, with_shard, call_shard,
}
use pmkt_core.Streaming.Supervisor.Owners.{
  IsRegistry, Checked-cases, register_shards-IsRegistry, done_injective, refused_done,
}
use pmkt_core.Streaming.Supervisor.Keeping.{Keeps, deliver-Keeping, schedule_shards-Keeping}
use pmkt_core.Streaming.Supervisor.Identity.{IsOfPair}
use pmkt_core.Streaming.Supervisor.SameShard.{perform-IsOf}
use pmkt_core.Streaming.Supervisor.Checks.{
  Check, check_key, check_venues, selected_venues, checked, invalidate_stale,
}
use pmkt_core.Streaming.Supervisor.Kept.{put-IsRegistry, Kept, check_venues-Kept}
use pmkt_core.Streaming.Deadlines.Popping.{waiting}
use pmkt_core.Streaming.Deadlines.Expiry.{get-expire}

pub record IsSupervisor (sup : LiveFeedSupervisor) : Type 0 where
  pub registry : IsRegistry sup.shards sup.instrument_shards
  pub queue : IsQueue sup.deadlines

Keeps-IsSupervisor : (sup t : LiveFeedSupervisor) → Keeps sup t → IsSupervisor sup → IsSupervisor t
Keeps-IsSupervisor sup t k i = record {
  registry = rw (k.shards, k.instrument_shards) i.registry;
  queue = k.queue i.queue;
}

-- the supervisors that the constructor, calls of a shard's methods and checks lead to
pub data Reached : LiveFeedSupervisor → Type 0 where
  built :
      (shards : List FeedShardHealth) (a b : ℕ) (sup : LiveFeedSupervisor)
      → new_supervisor shards a b ≡ done sup
      → Reached sup
  called :
      (sup t : LiveFeedSupervisor) (key : Pair) (call : Call) (changed : Bool)
      → Reached sup
      → call_shard key (perform call) sup ≡ some (t, changed)
      → Reached t
  refreshed :
      (sup t : LiveFeedSupervisor) (now : ℕ) (venue : Option String) (changed : List Pair)
      → Reached sup
      → invalidate_stale now venue sup ≡ some (t, changed)
      → Reached t

nothing-IsRegistry : IsRegistry [] []
unfolding get
nothing-IsRegistry = record { keyed = λ k s h. absurd cc; owned = λ k s i h m. absurd cc }

built-IsSupervisor :
    (shards : List FeedShardHealth) (a b : ℕ) (sup : LiveFeedSupervisor)
    → new_supervisor shards a b ≡ done sup
    → IsSupervisor sup
unfolding new_supervisor
built-IsSupervisor shards a b sup h = elim (Checked-cases (register_shards shards nothing)) [
  | inl (e, found) ↦ absurd (refused_done e sup (rw (new_supervisor, found) at h))
  | inr (r, found) ↦
      subst IsSupervisor (done_injective (supervise a b r) sup (rw (new_supervisor, found) at h))
        (registered r found)
]
  where
    nothing : Registry
    nothing = record { shards = []; instrument_shards = [] }

    registered :
        (r : Registry) → register_shards shards nothing ≡ done r → IsSupervisor (supervise a b r)
    registered r found =
        let start : LiveFeedSupervisor = record {
          shards = r.shards;
          instrument_shards = r.instrument_shards;
          max_message_age_ms = a;
          max_valid_book_age_ms = b;
          initialization_sla_ms = 30000;
          deadlines = no_deadlines;
          overdue = λ key. [];
          last_staleness_instruments_examined = 0;
        } in
        Keeps-IsSupervisor start (supervise a b r) (schedule_shards-Keeping r.shards start) record {
          registry = register_shards-IsRegistry shards nothing r found nothing-IsRegistry;
          queue = no_deadlines-IsQueue;
        }

call-IsSupervisor :
    (sup t : LiveFeedSupervisor) (key : Pair) (call : Call) (changed : Bool)
    → IsSupervisor sup
    → call_shard key (perform call) sup ≡ some (t, changed)
    → IsSupervisor t
unfolding call_shard
call-IsSupervisor sup t key call changed i h = elim (Option-cases (get key sup.shards)) [
  | inl n ↦
      let gone : Path (Option (LiveFeedSupervisor × Bool)) none (some (t, changed)) =
        rw (call_shard, n) at h in
      absurd cc
  | inr (s, g) ↦ go s g (perform call s) (perform-IsOf call s) (rw (call_shard, g) at h)
]
  where
    go :
        (s : FeedShardHealth)
        → get key sup.shards ≡ some s
        → (o : Option (FeedShardHealth × Bool)) → IsOfPair s o
        → (o >>= λ r. some (with_shard key r sup)) ≡ some (t, changed)
        → IsSupervisor t
    go s g none same h = absurd cc
    go s g (some (u, b)) same h =
        let start = record sup { shards = put key (silent u) sup.shards } in
        let result : (deliver u u.notices start, b) ≡ (t, changed) = some-injective _ _ h in
        subst IsSupervisor (ap (λ (r : LiveFeedSupervisor × Bool). r.0) result) (
          Keeps-IsSupervisor start (deliver u u.notices start) (deliver-Keeping u u.notices start)
            record {
              registry =
                  put-IsRegistry key s (silent u) sup.shards sup.instrument_shards i.registry g
                    same;
              queue = i.queue;
            })

check-IsSupervisor :
    (sup t : LiveFeedSupervisor) (now : ℕ) (venue : Option String) (changed : List Pair)
    → IsSupervisor sup
    → invalidate_stale now venue sup ≡ some (t, changed)
    → IsSupervisor t
unfolding invalidate_stale
check-IsSupervisor sup t now venue changed i h =
    let start : Check = record {
      shards = sup.shards;
      overdue = sup.overdue;
      changed = [];
      examined = [];
    } in
    let venues = selected_venues venue sup.deadlines in
    let r = check_venues now sup venues sup.deadlines (some start) in
    let (kept, queue) =
      check_venues-Kept now sup sup.instrument_shards venues sup.deadlines (some start)
        (i.registry, i.queue) in
    go r.0 r.1 kept queue h
  where
    go :
        (q : Deadlines) (o : Option Check)
        → Kept sup.instrument_shards o
        → IsQueue q
        → checked sup (q, o) ≡ some (t, changed)
        → IsSupervisor t
    go q none kept queue h = absurd cc
    go q (some c) kept queue h =
        let result = some-injective _ _ h in
        subst IsSupervisor (ap (λ (r : LiveFeedSupervisor × List Pair). r.0) result)
          record { registry = kept; queue = queue }

pub Reached-IsSupervisor : (sup : LiveFeedSupervisor) → Reached sup → IsSupervisor sup
Reached-IsSupervisor t (built shards a b _ h) = built-IsSupervisor shards a b t h
Reached-IsSupervisor t (called sup _ key call changed r h) =
    call-IsSupervisor sup t key call changed (Reached-IsSupervisor sup r) h
Reached-IsSupervisor t (refreshed sup _ now venue changed r h) =
    check-IsSupervisor sup t now venue changed (Reached-IsSupervisor sup r) h

-- in a supervisor that the constructor and calls lead to, an instrument that two shards of a venue
-- subscribe shows that they are one shard, which is the one that the supervisor finds for the instrument
pub Reached-owner :
    (sup : LiveFeedSupervisor) (j k : Pair) (s t : FeedShardHealth) (i : String)
    → Reached sup
    → get j sup.shards ≡ some s
    → get k sup.shards ≡ some t
    → s.venue ≡ t.venue
    → mem i s.subscribed_instruments ≡ true
    → mem i t.subscribed_instruments ≡ true
    → (j ≡ k) × (get (s.venue, i) sup.instrument_shards ≡ some j)
Reached-owner sup j k s t i r a b same m n =
    let registry = (Reached-IsSupervisor sup r).registry in
    let venue_j = ap (λ (p : Pair). p.0) (registry.keyed j s a) in
    let venue_k = ap (λ (p : Pair). p.0) (registry.keyed k t b) in
    let owner_j = registry.owned j s i a m in
    let owner_k = registry.owned k t i b n in
    let house : k.0 ≡ j.0 = sym venue_k ∙ sym same ∙ venue_j in
    let owner : get (j.0, i) sup.instrument_shards ≡ some k =
      subst (λ v. get (v, i) sup.instrument_shards ≡ some k) house owner_k in
    (
      some-injective j k (sym owner_j ∙ owner),
      subst (λ v. get (v, i) sup.instrument_shards ≡ some j) (sym venue_j) owner_j,
    )

-- in a supervisor that the constructor and calls lead to, a check of a venue that answers leaves no
-- deadline of the venue that is due, and every other deadline as it was
pub Reached-no_deadline_due :
    (sup t : LiveFeedSupervisor) (now : ℕ) (venue : String) (changed : List Pair) (k : Key)
    → Reached sup
    → invalidate_stale now (some venue) sup ≡ some (t, changed)
    → get k t.deadlines.values ≡ (
        if k.venue == venue
        then waiting now (get k sup.deadlines.values)
        else get k sup.deadlines.values)
unfolding invalidate_stale check_venues
Reached-no_deadline_due sup t now venue changed k r h =
    let start : Check = record {
      shards = sup.shards;
      overdue = sup.overdue;
      changed = [];
      examined = [];
    } in
    let result = expire_venue (check_key now sup) now venue sup.deadlines (some start) in
    ap (λ (q : Deadlines). get k q.values) (go result.0 result.1 h)
    ∙ ap (λ (q : Deadlines). get k q.values)
        (expire_venue-deadlines (check_key now sup) now venue sup.deadlines (some start))
    ∙ get-expire now venue sup.deadlines (Reached-IsSupervisor sup r).queue k
  where
    go :
        (q : Deadlines) (o : Option Check)
        → checked sup (q, o) ≡ some (t, changed)
        → t.deadlines ≡ q
    go q none h = absurd cc
    go q (some c) h =
        sym (ap (λ (r : LiveFeedSupervisor × List Pair). r.0.deadlines) (some-injective _ _ h))
