-- ===== src/Streaming/Projection/Rebuild.antt =====
-- `_rebuild_instrument_aggregates` counts what the tracked instruments show.
use pmkt_core.Prelude.{◌+◌, ◌≡◌, refl, [], ◌∷◌, some, String, arith, string_eq}
use pmkt_core.Streaming.Instrument.{InstrumentFeedHealth}
use pmkt_core.Streaming.Projection.{
  instrument_projection, Cache, plus, Instruments, rebuild, adjust_all,
}
use pmkt_core.Streaming.Projection.Counts.{count_by}
use pmkt_core.Streaming.Projection.Adjust.{
  instrument_projection-IsDistinct, Adjustable-plus, AdjustedBy, adjust_projection_lem,
}
use pmkt_core.Streaming.Projection.Matches.{
  is_valid, is_invalid, is_stale, is_blocking, shows, breaks, Matches,
}

-- The aggregates after the instruments of `h` are added to those that `c` counts.
record Extends (h : Instruments) (c c' : Cache) : Type 0 where
  tracked : c'.tracked_instrument_count ≡ c.tracked_instrument_count
  valid : c'.valid_instrument_count ≡ c.valid_instrument_count + count_by is_valid h
  invalid : c'.invalid_instrument_count ≡ c.invalid_instrument_count + count_by is_invalid h
  stale : c'.stale_instrument_count ≡ c.stale_instrument_count + count_by is_stale h
  blocking :
      c'.reconnect_blocking_instrument_count
      ≡ c.reconnect_blocking_instrument_count + count_by is_blocking h
  current :
      (f : String)
      → c'.current_book_flag_counts f ≡ c.current_book_flag_counts f + count_by (shows f) h
  integrity :
      (f : String)
      → c'.book_integrity_flag_counts f ≡ c.book_integrity_flag_counts f + count_by (breaks f) h

Extends-step :
    (k : String) (s : InstrumentFeedHealth) (h : Instruments) (c c1 c2 : Cache)
    → AdjustedBy plus (instrument_projection s) c c1
    → Extends h c1 c2
    → Extends ((k, s) ∷ h) c c2
unfolding count_by
Extends-step k s h c c1 c2 a x = record {
  tracked = omega (arith, a.tracked, x.tracked);
  valid = omega (arith, a.valid, x.valid);
  invalid = omega (arith, a.invalid, x.invalid);
  stale = omega (arith, a.stale, x.stale);
  blocking = omega (arith, a.blocking, x.blocking);
  current = λ f. omega (arith, a.current f, x.current f);
  integrity = λ f. omega (arith, a.integrity f, x.integrity f);
}

adjust_all_lem :
    (h : Instruments) (c : Cache) → (c' : Cache) × (adjust_all h c ≡ some c') × Extends h c c'
unfolding adjust_all
adjust_all_lem [] c = (
  c,
  refl,
  unfold count_by in
      record {
        tracked = refl;
        valid = omega arith;
        invalid = omega arith;
        stale = omega arith;
        blocking = omega arith;
        current = λ f. omega arith;
        integrity = λ f. omega arith;
      },
)
adjust_all_lem ((k, s) ∷ h) c =
    let (c1, e1, a) =
      adjust_projection_lem plus (instrument_projection s) c (instrument_projection-IsDistinct s)
        (Adjustable-plus (instrument_projection s) c) in
    let (c2, e2, x) = adjust_all_lem h c1 in (c2, rw e1 e2, Extends-step k s h c c1 c2 a x)

-- `_rebuild_instrument_aggregates` is never refused, and counts the instruments afresh.
pub rebuild-Matches : (h : Instruments) → (c : Cache) × (rebuild h ≡ some c) × Matches h c
unfolding rebuild
rebuild-Matches h =
    let (c, e, x) = adjust_all_lem h _ in
    (
      c,
      e,
      record {
        tracked = omega (arith, x.tracked);
        valid = omega (arith, x.valid);
        invalid = omega (arith, x.invalid);
        stale = omega (arith, x.stale);
        blocking = omega (arith, x.blocking);
        current = λ f. omega (arith, x.current f);
        integrity = λ f. omega (arith, x.integrity f);
      },
    )
