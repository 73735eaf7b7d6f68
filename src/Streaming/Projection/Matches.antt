-- ===== src/Streaming/Projection/Matches.antt =====
-- When the cached aggregates say what a count over the tracked instruments says.
use pmkt_core.Prelude.{ℕ, ◌+◌, ◌≡◌, Bool, [], ◌∷◌, none, some, String, arith, string_eq, length}
use pmkt_core.Collections.Dict.{get, put}
use pmkt_core.Collections.Sets.{mem}
use pmkt_core.Streaming.Instrument.{InstrumentFeedHealth}
use pmkt_core.Streaming.Projection.{
  instrument_projection, Cache, minus, plus, Instruments, apply_projection_change,
}
use pmkt_core.Streaming.Projection.Shifts.{Shifted}
use pmkt_core.Streaming.Projection.Counts.{count_by, count_by-put, count_by-get, count_by-put_new}
use pmkt_core.Streaming.Projection.Adjust.{
  instrument_projection-IsDistinct, Adjustable, Adjustable-plus, adjust_projection_lem,
}

abbrev pub is_valid : InstrumentFeedHealth → Bool
is_valid s = (instrument_projection s).valid

abbrev pub is_invalid : InstrumentFeedHealth → Bool
is_invalid s = (instrument_projection s).invalid

abbrev pub is_stale : InstrumentFeedHealth → Bool
is_stale s = (instrument_projection s).stale

abbrev pub is_blocking : InstrumentFeedHealth → Bool
is_blocking s = (instrument_projection s).reconnect_blocking

abbrev pub shows : String → InstrumentFeedHealth → Bool
shows f s = mem f (instrument_projection s).current_flags

abbrev pub breaks : String → InstrumentFeedHealth → Bool
breaks f s = mem f (instrument_projection s).integrity_flags

-- Each aggregate is the number of instruments that it is named for.
pub record Matches (h : Instruments) (c : Cache) : Type 0 where
  pub tracked : c.tracked_instrument_count ≡ length h
  pub valid : c.valid_instrument_count ≡ count_by is_valid h
  pub invalid : c.invalid_instrument_count ≡ count_by is_invalid h
  pub stale : c.stale_instrument_count ≡ count_by is_stale h
  pub blocking : c.reconnect_blocking_instrument_count ≡ count_by is_blocking h
  pub current : (f : String) → c.current_book_flag_counts f ≡ count_by (shows f) h
  pub integrity : (f : String) → c.book_integrity_flag_counts f ≡ count_by (breaks f) h

module _ (k : String) (s t : InstrumentFeedHealth) (h : Instruments) (c : Cache) where
  -- the aggregates of an instrument that is tracked can be taken away
  Adjustable-minus : get k h ≡ some s → Matches h c → Adjustable minus (instrument_projection s) c
  Adjustable-minus e m = record {
    valid = rw m.valid (count_by-get is_valid k s h e);
    invalid = rw m.invalid (count_by-get is_invalid k s h e);
    stale = rw m.stale (count_by-get is_stale k s h e);
    blocking = rw m.blocking (count_by-get is_blocking k s h e);
    current = λ f. rw (m.current f) (count_by-get (shows f) k s h e);
    integrity = λ f. rw (m.integrity f) (count_by-get (breaks f) k s h e);
  }

length-put :
    (k : String) (s t : InstrumentFeedHealth) (h : Instruments)
    → get k h ≡ some s
    → length (put k t h) ≡ length h
unfolding get put
length-put k s t [] e = cc
length-put k s t ((j, w) ∷ h) e = ground (arith, length-put k s t h)

length-put_new :
    (k : String) (t : InstrumentFeedHealth) (h : Instruments)
    → get k h ≡ none
    → length (put k t h) ≡ length h + 1
unfolding get put
length-put_new k t [] e = omega arith
length-put_new k t ((j, w) ∷ h) e = ground (arith, length-put_new k t h)

-- one count through a removal and an addition
through :
    (p : InstrumentFeedHealth → Bool) (k : String) (s t : InstrumentFeedHealth) (h : Instruments)
    (n n' n'' : ℕ)
    → get k h ≡ some s
    → n ≡ count_by p h
    → Shifted minus (p s) n n'
    → Shifted plus (p t) n' n''
    → n'' ≡ count_by p (put k t h)
through p k s t h n n' n'' e m a b = omega (arith, count_by-put p k s t h e)

-- A change of one tracked instrument is carried over to the aggregates without a refusal, and they
-- match the changed instruments.
pub apply_projection_change-Matches :
    (k : String) (s t : InstrumentFeedHealth) (h : Instruments) (c : Cache)
    → get k h ≡ some s
    → Matches h c
    → (c' : Cache) × (apply_projection_change
          (some (instrument_projection s))
          (some (instrument_projection t))
          c
        ≡ some c')
      × Matches (put k t h) c'
unfolding apply_projection_change
apply_projection_change-Matches k s t h c e m =
    let (c1, e1, a) =
      adjust_projection_lem minus (instrument_projection s) c (instrument_projection-IsDistinct s)
        (Adjustable-minus k s t h c e m) in
    let (c2, e2, b) =
      adjust_projection_lem plus (instrument_projection t) c1 (instrument_projection-IsDistinct t)
        (Adjustable-plus (instrument_projection t) c1) in
    (
      c2,
      rw e1 e2,
      record {
        tracked = omega (arith, a.tracked, b.tracked, m.tracked, length-put k s t h e);
        valid = through is_valid k s t h _ _ _ e m.valid a.valid b.valid;
        invalid = through is_invalid k s t h _ _ _ e m.invalid a.invalid b.invalid;
        stale = through is_stale k s t h _ _ _ e m.stale a.stale b.stale;
        blocking = through is_blocking k s t h _ _ _ e m.blocking a.blocking b.blocking;
        current = λ f. through (shows f) k s t h _ _ _ e (m.current f) (a.current f) (b.current f);
        integrity =
            λ f. through (breaks f) k s t h _ _ _ e (m.integrity f) (a.integrity f) (b.integrity f);
      },
    )

-- one count through an addition for a new key
added :
    (p : InstrumentFeedHealth → Bool) (k : String) (t : InstrumentFeedHealth) (h : Instruments)
    (n n' : ℕ)
    → get k h ≡ none
    → n ≡ count_by p h
    → Shifted plus (p t) n n'
    → n' ≡ count_by p (put k t h)
added p k t h n n' e m a = omega (arith, count_by-put_new p k t h e)

-- A new instrument is counted without a refusal.
pub apply_projection_change-Matches_new :
    (k : String) (t : InstrumentFeedHealth) (h : Instruments) (c : Cache)
    → get k h ≡ none
    → Matches h c
    → (c' : Cache) × (apply_projection_change none
          (some (instrument_projection t))
          (record c { tracked_instrument_count = c.tracked_instrument_count + 1 })
        ≡ some c')
      × Matches (put k t h) c'
unfolding apply_projection_change
apply_projection_change-Matches_new k t h c e m =
    let c1 = record c { tracked_instrument_count = c.tracked_instrument_count + 1 } in
    let (c2, e2, b) =
      adjust_projection_lem plus (instrument_projection t) c1 (instrument_projection-IsDistinct t)
        (Adjustable-plus (instrument_projection t) c1) in
    (
      c2,
      e2,
      record {
        tracked = omega (arith, b.tracked, m.tracked, length-put_new k t h e);
        valid = added is_valid k t h _ _ e m.valid b.valid;
        invalid = added is_invalid k t h _ _ e m.invalid b.invalid;
        stale = added is_stale k t h _ _ e m.stale b.stale;
        blocking = added is_blocking k t h _ _ e m.blocking b.blocking;
        current = λ f. added (shows f) k t h _ _ e (m.current f) (b.current f);
        integrity = λ f. added (breaks f) k t h _ _ e (m.integrity f) (b.integrity f);
      },
    )
