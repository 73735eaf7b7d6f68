-- ===== src/Streaming/Projection/Adjust.antt =====
-- `_adjust_projection` and `_apply_instrument_projection_change` on whole caches.
use pmkt_core.Prelude.{◌≡◌, refl, some, String, string_eq, inl, inr, Bool-cases}
use pmkt_core.Collections.Sets.{mem}
use pmkt_core.Streaming.Instrument.{
  InstrumentFeedHealth, book_integrity_quality_flags, current_book_quality_flags,
}
use pmkt_core.Streaming.Projection.{
  Projection, instrument_projection, Cache, Delta, plus, adjust_projection,
}
use pmkt_core.Streaming.Projection.Shifts.{
  Distinct, Distinct-inter, Shifted, Allowed, shift_lem, shift_flags_lem,
}

pub record IsDistinct (p : Projection) : Type 0 where
  pub current : Distinct p.current_flags
  pub integrity : Distinct p.integrity_flags

pub instrument_projection-IsDistinct :
    (s : InstrumentFeedHealth) → IsDistinct (instrument_projection s)
unfolding instrument_projection mem
instrument_projection-IsDistinct s = record {
  current = elim (Bool-cases s.valid_state) [
    | inl e ↦ rw e tt
    | inr e ↦ rw e (
        Distinct-inter current_book_quality_flags s.quality_flags
          (refl, (refl, (refl, (refl, tt)))))
  ];
  integrity =
      Distinct-inter book_integrity_quality_flags s.quality_flags
        (refl, (refl, (refl, (refl, (refl, (refl, (refl, (refl, (refl, tt)))))))));
}

pub record Adjustable (d : Delta) (p : Projection) (c : Cache) : Type 0 where
  pub valid : Allowed d p.valid c.valid_instrument_count
  pub invalid : Allowed d p.invalid c.invalid_instrument_count
  pub stale : Allowed d p.stale c.stale_instrument_count
  pub blocking : Allowed d p.reconnect_blocking c.reconnect_blocking_instrument_count
  pub current : (f : String) → Allowed d (mem f p.current_flags) (c.current_book_flag_counts f)
  pub integrity :
      (f : String) → Allowed d (mem f p.integrity_flags) (c.book_integrity_flag_counts f)

pub record AdjustedBy (d : Delta) (p : Projection) (c c' : Cache) : Type 0 where
  pub tracked : c'.tracked_instrument_count ≡ c.tracked_instrument_count
  pub valid : Shifted d p.valid c.valid_instrument_count c'.valid_instrument_count
  pub invalid : Shifted d p.invalid c.invalid_instrument_count c'.invalid_instrument_count
  pub stale : Shifted d p.stale c.stale_instrument_count c'.stale_instrument_count
  pub blocking :
      Shifted d p.reconnect_blocking c.reconnect_blocking_instrument_count
        c'.reconnect_blocking_instrument_count
  pub current :
      (f : String)
      → Shifted d
          (mem f p.current_flags)
          (c.current_book_flag_counts f)
          (c'.current_book_flag_counts f)
  pub integrity :
      (f : String)
      → Shifted d
          (mem f p.integrity_flags)
          (c.book_integrity_flag_counts f)
          (c'.book_integrity_flag_counts f)

pub adjust_projection_lem :
    (d : Delta) (p : Projection) (c : Cache)
    → IsDistinct p
    → Adjustable d p c
    → (c' : Cache) × (adjust_projection p d c ≡ some c') × AdjustedBy d p c c'
unfolding adjust_projection
adjust_projection_lem d p c h a =
    let (v, ev, sv) = shift_lem d p.valid c.valid_instrument_count a.valid in
    let (i, ei, si) = shift_lem d p.invalid c.invalid_instrument_count a.invalid in
    let (s, es, ss) = shift_lem d p.stale c.stale_instrument_count a.stale in
    let (b, eb, sb) =
      shift_lem d p.reconnect_blocking c.reconnect_blocking_instrument_count a.blocking in
    let (k, ek, sk) =
      shift_flags_lem d p.current_flags c.current_book_flag_counts h.current a.current in
    let (g, eg, sg) =
      shift_flags_lem d p.integrity_flags c.book_integrity_flag_counts h.integrity a.integrity in
    (
      record {
        tracked_instrument_count = c.tracked_instrument_count;
        valid_instrument_count = v;
        invalid_instrument_count = i;
        stale_instrument_count = s;
        reconnect_blocking_instrument_count = b;
        current_book_flag_counts = k;
        book_integrity_flag_counts = g;
      },
      rw (ev, ei, es, eb, ek, eg) refl,
      record {
        tracked = refl;
        valid = sv;
        invalid = si;
        stale = ss;
        blocking = sb;
        current = sk;
        integrity = sg;
      },
    )

-- An addition is never refused.
pub Adjustable-plus : (p : Projection) (c : Cache) → Adjustable plus p c
Adjustable-plus p c = record {
  valid = tt;
  invalid = tt;
  stale = tt;
  blocking = tt;
  current = λ f. tt;
  integrity = λ f. tt;
}
