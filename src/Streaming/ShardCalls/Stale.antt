-- ===== src/Streaming/ShardCalls/Stale.antt =====
-- The staleness checks keep a shard consistent.
use pmkt_core.Prelude.{
  ℕ, ◌≡◌, refl, Bool, true, false, not, ◌||◌, [], ◌∷◌, some, String, if◌then◌else◌, arith,
  string_eq, inl, inr, Bool-cases,
}
use pmkt_core.Collections.Dict.{get}
use pmkt_core.Streaming.Instrument
use pmkt_core.Streaming.Instrument.{InstrumentFeedHealth}
use pmkt_core.Streaming.Projection.{Instruments}
use pmkt_core.Streaming.Shard.{FeedShardHealth, refresh_derived_book_flags}
use pmkt_core.Streaming.Consistency.{
  IsConsistent, SameInstruments, IsConsistent-same, Sound, SoundCall,
  change_instrument-IsConsistent, refresh_derived-same, reported-Sound, same-Sound,
}
use pmkt_core.Streaming.ShardStale.{
  stale_clocks, invalidate_shard_clocks_if_stale, stays_fresh, will_transition, expire_body,
  invalidate_instrument_if_stale, expire_each, invalidate_body, invalidate_if_stale,
}

stale_clocks-same : (now a b : ℕ) (s : FeedShardHealth) → SameInstruments s (stale_clocks now a b s)
unfolding stale_clocks
stale_clocks-same now a b s = ground arith

pub invalidate_clocks-Sound : (now a b : ℕ) → SoundCall (invalidate_shard_clocks_if_stale now a b)
unfolding invalidate_shard_clocks_if_stale
invalidate_clocks-Sound now a b = same-Sound (stale_clocks now a b) (stale_clocks-same now a b)

refresh_if-IsConsistent :
    (b : Bool) (s : FeedShardHealth)
    → IsConsistent s
    → IsConsistent (if b then refresh_derived_book_flags s else s)
refresh_if-IsConsistent true s c = IsConsistent-same (refresh_derived-same s) c
refresh_if-IsConsistent false s c = c

expire_body-Sound : (now a b : ℕ) (r : Bool) (i : String) → Sound (expire_body now a b r i)
unfolding expire_body
expire_body-Sound now a b r i s c =
    let (t, e, c') =
      change_instrument-IsConsistent (Instrument.invalidate_state now a b) (some i) s c in
    ((if r then refresh_derived_book_flags t else t), rw e refl, refresh_if-IsConsistent r t c')

pub invalidate_instrument-Sound :
    (now a b : ℕ) (r : Bool) (i : String) → SoundCall (invalidate_instrument_if_stale now a b r i)
unfolding invalidate_instrument_if_stale
invalidate_instrument-Sound now a b r i s c =
    let found = get i s.instrument_health in
    elim (Bool-cases (stays_fresh now a b found || not (will_transition now a b found))) [
      | inl e ↦ ((s, false), rw e refl, c)
      | inr e ↦ rw e (reported-Sound (expire_body now a b r i) (expire_body-Sound now a b r i) s c)
    ]

expire_each-Sound :
    (now a b : ℕ) (h : Instruments) (s : FeedShardHealth) (transitioned : Bool)
    → IsConsistent s
    → (r : FeedShardHealth × Bool) × (expire_each now a b h s transitioned ≡ some r)
      × IsConsistent r.0
unfolding expire_each
expire_each-Sound now a b [] s transitioned c = ((s, transitioned), refl, c)
expire_each-Sound now a b ((k, _) ∷ h) s transitioned c =
    let (r, e, c') = invalidate_instrument-Sound now a b false k s c in
    let (r2, e2, c2) = expire_each-Sound now a b h r.0 (r.1 || transitioned) c' in (r2, rw e e2, c2)

invalidate_body-Sound : (now a b : ℕ) → Sound (invalidate_body now a b)
unfolding invalidate_body
invalidate_body-Sound now a b s c =
    let t = stale_clocks now a b s in
    let (r, e, c') =
      expire_each-Sound now a b t.instrument_health t false
        (IsConsistent-same (stale_clocks-same now a b s) c) in
    (
      (if r.1 then refresh_derived_book_flags r.0 else r.0),
      rw e refl,
      refresh_if-IsConsistent r.1 r.0 c',
    )

pub invalidate-Sound : (now a b : ℕ) → SoundCall (invalidate_if_stale now a b)
unfolding invalidate_if_stale
invalidate-Sound now a b = reported-Sound (invalidate_body now a b) (invalidate_body-Sound now a b)
