-- ===== src/Streaming/Instrument/Staleness.antt =====
-- The staleness check of an instrument, and the prediction that lets the supervisor skip it.
use pmkt_core.Prelude.{ℕ, ◌≡◌, arith, string_eq}
use pmkt_core.Collections.Sets.{mem, add}
use pmkt_core.Streaming.Instrument.{
  InstrumentFeedHealth, is_stale, go_stale, invalidate_if_stale, would_invalidate_if_stale,
}

-- The prediction is exact: `_would_invalidate_if_stale` is true exactly when `invalidate_if_stale`
-- reports a transition, for every state, time and pair of limits.
pub would_invalidate-eq-transitioned :
    (now a b : ℕ) (s : InstrumentFeedHealth)
    → would_invalidate_if_stale now a b s ≡ (invalidate_if_stale now a b s).1
unfolding would_invalidate_if_stale invalidate_if_stale is_stale go_stale mem add
would_invalidate-eq-transitioned now a b s = ground arith
