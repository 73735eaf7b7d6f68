-- ===== src/Streaming/Derived.antt =====
-- The book flags that a shard derives from its instruments, and the deadline by which the
-- supervisor of src/pmkt/streaming/supervisor.py wakes up for a staleness check.
use pmkt_core.Prelude.{
  ℕ, ◌+◌, ◌*◌, ◌≡◌, refl, ap, Bool, true, false, not, ◌&&◌, ◌||◌, List, [], ◌∷◌, Option, none, some,
  String, if◌then◌else◌, ltb, leb, arith, string_eq, ◌==◌, null,
}
use pmkt_core.Collections.Sets.{mem, set_laws, union, discard, diff, add}
use pmkt_core.Streaming.Instrument.{current_book_quality_flags, age_ms, is_stale}
use pmkt_core.Streaming.Projection.Counts.{count_by}
use pmkt_core.Streaming.Projection.Matches.{is_invalid, shows}
use pmkt_core.Streaming.Shard.{FeedShardHealth, refresh_derived_book_flags, counted_flags}
use pmkt_core.Streaming.Consistency.{IsConsistent}

-- the deadline of `_schedule_stale_deadline`
unfoldable pub deadline_ns : Option ℕ → ℕ → ℕ
deadline_ns none max_age_ms = 0
deadline_ns (some source) max_age_ms = source + (max_age_ms + 1) * 1000000

-- A clock is stale exactly from its deadline on: no check before the deadline can find it stale,
-- and a check at the deadline or later does.
pub stale_iff_deadline :
    (now max_age : ℕ) (source : Option ℕ)
    → is_stale (age_ms now source) max_age ≡ leb (deadline_ns source max_age) now
unfolding is_stale age_ms deadline_ns
stale_iff_deadline now max_age none = ground arith
stale_iff_deadline now max_age (some source) = ground arith

same_count : (f g : String) (counts : String → ℕ) → (f == g) ≡ true → counts f ≡ counts g
same_count f g counts e = ap counts ((string_eq.beq_iff f g).0 e)

mem-counted :
    (f : String) (counts : String → ℕ) (flags : List String)
    → mem f (counted_flags counts flags) ≡ (mem f flags && ltb 0 (counts f))
unfolding counted_flags mem
mem-counted f counts [] = refl
mem-counted f counts (g ∷ flags) = ground (arith, mem-counted f counts flags, same_count f g counts)

-- the flags as `_refresh_derived_book_flags` computes them
mem-refresh :
    (f : String) (invalid : Bool) (old counted : List String)
    → mem f (
        union
          (let cleared = discard "invalid_book" (diff old current_book_quality_flags) in
            if invalid then add "invalid_book" cleared else cleared)
          counted)
      ≡ ((((mem f old && not (mem f current_book_quality_flags)) && not (f == "invalid_book"))
            || (invalid && (f == "invalid_book")))
          || mem f counted)
mem-refresh f true old counted = simp set_laws (ground arith)
mem-refresh f false old counted = simp set_laws (ground arith)

invalid_book_apart :
    (f : String) → (f == "invalid_book") ≡ true → mem f current_book_quality_flags ≡ false
unfolding mem
invalid_book_apart f e = rw ((string_eq.beq_iff f "invalid_book").0 e) refl

-- After `_refresh_derived_book_flags` a shard that tracks instruments shows `invalid_book` exactly
-- when some tracked instrument is invalid, and a current-book flag exactly when some invalid
-- instrument shows it; every other flag is as before.
pub refresh_derived-flags :
    (f : String) (s : FeedShardHealth)
    → IsConsistent s
    → null s.instrument_health ≡ false
    → mem f (refresh_derived_book_flags s).quality_flags ≡ (
        if f == "invalid_book"
        then ltb 0 (count_by is_invalid s.instrument_health)
        else if mem f current_book_quality_flags
        then ltb 0 (count_by (shows f) s.instrument_health)
        else mem f s.quality_flags)
unfolding refresh_derived_book_flags
refresh_derived-flags f s c n =
    let counted = counted_flags s.cache.current_book_flag_counts current_book_quality_flags in
    rw n (
      ground (
        arith,
        mem-refresh f (ltb 0 s.cache.invalid_instrument_count) s.quality_flags counted,
        mem-counted f s.cache.current_book_flag_counts current_book_quality_flags,
        c.cached.invalid,
        c.cached.current f,
        invalid_book_apart f,
      ))
