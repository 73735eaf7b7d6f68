-- ===== src/Streaming/Projection/Counts.antt =====
-- The cached aggregates against a count over the instruments.
use pmkt_core.Prelude.{
  ℕ, ◌+◌, ◌≤◌, ◌≡◌, ap, Bool, [], ◌∷◌, none, some, String, arith, string_eq, to_nat,
}
use pmkt_core.Collections.Dict.{get, put}
use pmkt_core.Streaming.Instrument.{InstrumentFeedHealth}
use pmkt_core.Streaming.Projection.{Instruments}

-- How many instruments pass a test.
unfoldable pub count_by : (InstrumentFeedHealth → Bool) → Instruments → ℕ
count_by p [] = 0
count_by p ((_, s) ∷ h) = to_nat (p s) + count_by p h

pub count_by-put :
    (p : InstrumentFeedHealth → Bool) (k : String) (s t : InstrumentFeedHealth) (h : Instruments)
    → get k h ≡ some s
    → count_by p (put k t h) + to_nat (p s) ≡ count_by p h + to_nat (p t)
unfolding count_by get put
count_by-put p k s t [] e = cc
count_by-put p k s t ((j, w) ∷ h) e = ground (arith, count_by-put p k s t h, ap p {x = w} {y = s})

pub count_by-get :
    (p : InstrumentFeedHealth → Bool) (k : String) (s : InstrumentFeedHealth) (h : Instruments)
    → get k h ≡ some s
    → to_nat (p s) ≤ count_by p h
unfolding count_by get
count_by-get p k s [] e = cc
count_by-get p k s ((j, w) ∷ h) e = ground (arith, count_by-get p k s h)

pub count_by-put_new :
    (p : InstrumentFeedHealth → Bool) (k : String) (t : InstrumentFeedHealth) (h : Instruments)
    → get k h ≡ none
    → count_by p (put k t h) ≡ count_by p h + to_nat (p t)
unfolding count_by get put
count_by-put_new p k t [] e = omega arith
count_by-put_new p k t ((j, w) ∷ h) e = ground (arith, count_by-put_new p k t h)
