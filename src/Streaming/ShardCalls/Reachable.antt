-- ===== src/Streaming/ShardCalls/Reachable.antt =====
-- The shards that the methods reach from `__post_init__`.
use pmkt_core.Prelude.{
  none, inr, inl, Bool-cases, true, null, ◌∙◌, map, ◌≡◌, refl, sym, ap, List, [], ◌∷◌, some, String,
  arith, string_eq, is_some,
}
use mathlib.Core.Option.{Option, some-injective}
use pmkt_core.Streaming.ShardOps.{Init, created, refused, post_init, has_repeat, with_cache}
use mathlib.Core.Path.{subst}
use pmkt_core.Collections.Dict.{get}
use pmkt_core.Collections.Sets.{mem-of-null, mem-diff, diff, mem}
use pmkt_core.Streaming.Instrument.{InstrumentFeedHealth}
use pmkt_core.Streaming.Projection.{Instruments, Cache, rebuild}
use pmkt_core.Streaming.Projection.Matches.{Matches}
use pmkt_core.Streaming.Projection.Rebuild.{rebuild-Matches}
use pmkt_core.Streaming.Shard.{FeedShardHealth}
use pmkt_core.Streaming.Consistency.{IsConsistent, SoundCall}
use pmkt_core.Streaming.ShardCalls.{
  Call, connect, disconnect, probe, reconnect, message, book, gap, resync, fail, expire_clocks,
  expire_instrument, expire, perform, perform_all,
}
use pmkt_core.Streaming.ShardCalls.Steps.{
  mark_connected-Sound, mark_disconnected-Sound, mark_transport_alive-Sound, mark_reconnect-Sound,
  record_message-Sound, record_error-Sound,
}
use pmkt_core.Streaming.ShardCalls.Books.{
  record_book-Sound, record_sequence_gap-Sound, record_resync-Sound,
}
use pmkt_core.Streaming.ShardCalls.Stale.{
  invalidate_clocks-Sound, invalidate_instrument-Sound, invalidate-Sound,
}

pub perform-Sound : (c : Call) → SoundCall (perform c)
unfolding perform
perform-Sound (connect now) = mark_connected-Sound now
perform-Sound disconnect = mark_disconnected-Sound
perform-Sound probe = mark_transport_alive-Sound
perform-Sound (reconnect now) = mark_reconnect-Sound now
perform-Sound (message now i) = record_message-Sound now i
perform-Sound (book b now i) = record_book-Sound b now i
perform-Sound (gap i is) = record_sequence_gap-Sound i is
perform-Sound (resync now i) = record_resync-Sound now i
perform-Sound (fail m) = record_error-Sound m
perform-Sound (expire_clocks now a b) = invalidate_clocks-Sound now a b
perform-Sound (expire_instrument now a b r i) = invalidate_instrument-Sound now a b r i
perform-Sound (expire now a b) = invalidate-Sound now a b

-- From a consistent shard, no sequence of calls is refused, and each ends in a consistent shard.
pub perform_all-IsConsistent :
    (cs : List Call) (s : FeedShardHealth)
    → IsConsistent s
    → (t : FeedShardHealth) × (perform_all cs s ≡ some t) × IsConsistent t
unfolding perform_all
perform_all-IsConsistent [] s c = (s, refl, c)
perform_all-IsConsistent (call ∷ cs) s c =
    let (r, e, c') = perform-Sound call s c in
    let (t, e', c'') = perform_all-IsConsistent cs r.0 c' in (t, rw e e', c'')

Matches-unique : (h : Instruments) (c d : Cache) → Matches h c → Matches h d → c ≡ d
Matches-unique h c d m n = λ i. record {
  tracked_instrument_count = (m.tracked ∙ sym n.tracked) i;
  valid_instrument_count = (m.valid ∙ sym n.valid) i;
  invalid_instrument_count = (m.invalid ∙ sym n.invalid) i;
  stale_instrument_count = (m.stale ∙ sym n.stale) i;
  reconnect_blocking_instrument_count = (m.blocking ∙ sym n.blocking) i;
  current_book_flag_counts = λ f. (m.current f ∙ sym (n.current f)) i;
  book_integrity_flag_counts = λ f. (m.integrity f ∙ sym (n.integrity f)) i;
}

-- The aggregates of a consistent shard are those of a rebuild.
rebuild-eq-cache :
    (s : FeedShardHealth) → IsConsistent s → rebuild s.instrument_health ≡ some s.cache
rebuild-eq-cache s c =
    let (d, e, m) = rebuild-Matches s.instrument_health in
    e ∙ ap some (Matches-unique s.instrument_health d s.cache m c.cached)

keys : Instruments → List String
keys h = map (λ (entry : String × InstrumentFeedHealth). entry.0) h

get-keys : (k : String) (h : Instruments) → is_some (get k h) ≡ mem k (keys h)
unfolding get keys mem
get-keys k [] = refl
get-keys k ((j, state) ∷ h) =
    ground (arith, get-keys k h, string_eq.beq_iff j k, string_eq.beq_iff k j)

owned_of_keys :
    (h : Instruments) (subscribed : List String)
    → null (diff (keys h) subscribed) ≡ true
    → (k : String) → is_some (get k h) ≡ true
    → mem k subscribed ≡ true
owned_of_keys h subscribed e k q = ground (
  arith,
  get-keys k h,
  mem-diff k (keys h) subscribed,
  mem-of-null k (diff (keys h) subscribed) e,
)

created_parts : Init → FeedShardHealth → FeedShardHealth
created_parts (created s) d = s
created_parts (refused e) d = d

created-injective : {s t : FeedShardHealth} → created s ≡ created t → s ≡ t
unfolding created_parts
created-injective {s} {t} e = ap (λ x. created_parts x s) e

with_cache-IsConsistent :
    (found : Option Cache) (s t : FeedShardHealth)
    → rebuild s.instrument_health ≡ found
    → null (diff (keys s.instrument_health) s.subscribed_instruments) ≡ true
    → with_cache found s ≡ created t
    → IsConsistent t
unfolding with_cache
with_cache-IsConsistent none s t e n w = cc
with_cache-IsConsistent (some c) s t e n w =
    let (d, e', m) = rebuild-Matches s.instrument_health in
    let same : d ≡ c = some-injective _ _ (sym e' ∙ e) in
    subst IsConsistent (created-injective w) (record {
      cached = subst (Matches s.instrument_health) same m;
      owned = owned_of_keys s.instrument_health s.subscribed_instruments n;
    })

-- A shard that `__post_init__` creates is consistent, whatever instruments it is given.
pub post_init-IsConsistent : (s t : FeedShardHealth) → post_init s ≡ created t → IsConsistent t
unfolding post_init keys
post_init-IsConsistent s t e = elim (Bool-cases (has_repeat s.subscribed_instruments)) [
  | inl r ↦ cc (rw r at e)
  | inr r ↦ elim (Bool-cases (null (diff (keys s.instrument_health) s.subscribed_instruments))) [
    | inl n ↦ with_cache-IsConsistent (rebuild s.instrument_health) s t refl n (rw (r, n) at e)
    | inr n ↦ cc (rw (r, n) at e)
  ]
]

-- The incremental aggregates are those of a rebuild: from a shard that `__post_init__` creates, any
-- sequence of calls succeeds without a negative aggregate, and the cached aggregates that it leaves
-- are exactly those that `_rebuild_instrument_aggregates` computes from the tracked instruments.
pub reachable-eq-rebuild :
    (s t : FeedShardHealth) (calls : List Call)
    → post_init s ≡ created t
    → (u : FeedShardHealth) × (perform_all calls t ≡ some u)
      × (rebuild u.instrument_health ≡ some u.cache)
reachable-eq-rebuild s t calls e =
    let (u, e', c) = perform_all-IsConsistent calls t (post_init-IsConsistent s t e) in
    (u, e', rebuild-eq-cache u c)
