-- ===== src/Streaming/Consistency.antt =====
-- What holds of every shard between two calls: the cached aggregates are those of the tracked
-- instruments, which are subscribed.
use pmkt_core.Prelude.{
  Bool, ap, arith, ◌≡◌, refl, true, List, Option, none, some, String, string_eq, inl, inr,
  Bool-cases, ◌==◌, is_some,
}
use pmkt_core.Collections.Dict.{get, put, get-put}
use pmkt_core.Collections.Sets.{mem}
use pmkt_core.Streaming.Instrument.{new_instrument, InstrumentFeedHealth}
use pmkt_core.Streaming.Projection.{Instruments}
use pmkt_core.Streaming.Projection.Matches.{
  apply_projection_change-Matches_new, Matches, apply_projection_change-Matches,
}
use pmkt_core.Text.{strip}
use pmkt_core.Streaming.Shard.{
  compact_semantic_signature, changed, instrument_key, track, reported, instrument_state,
  refresh_reconnect_flag, refresh_derived_book_flags, subscribed_key, named_or_sole, track_key,
  FeedShardHealth, change_state, change_instrument,
}

pub record IsConsistent (s : FeedShardHealth) : Type 0 where
  pub cached : Matches s.instrument_health s.cache
  pub owned :
      (k : String)
      → is_some (get k s.instrument_health) ≡ true
      → mem k s.subscribed_instruments ≡ true

-- the parts of a shard that its consistency is about
pub record SameInstruments (s t : FeedShardHealth) : Type 0 where
  pub health : t.instrument_health ≡ s.instrument_health
  pub cache : t.cache ≡ s.cache
  pub subscribed : t.subscribed_instruments ≡ s.subscribed_instruments

pub IsConsistent-same :
    {s t : FeedShardHealth} → SameInstruments s t → IsConsistent s → IsConsistent t
IsConsistent-same e c = record {
  cached = rw (e.health, e.cache) c.cached;
  owned = λ k. rw (e.health, e.subscribed) (c.owned k);
}

-- The step is not refused, and ends in a consistent shard.
abbrev pub Sound : (FeedShardHealth → Option FeedShardHealth) → Type 0
Sound m =
    (s : FeedShardHealth) → IsConsistent s → (t : FeedShardHealth) × (m s ≡ some t) × IsConsistent t

owned-put :
    (k : String) (v : InstrumentFeedHealth) (h : Instruments) (subscribed : List String)
    → ((j : String) → is_some (get j h) ≡ true → mem j subscribed ≡ true)
    → mem k subscribed ≡ true
    → (j : String) → is_some (get j (put k v h)) ≡ true
    → mem j subscribed ≡ true
owned-put k v h subscribed owned m j q = elim (Bool-cases (k == j)) [
  | inl e ↦ rw (← (string_eq.beq_iff k j).0 e) m
  | inr n ↦ owned j (rw (get-put k j v h, n) at q)
]

change_state-IsConsistent :
    (f : InstrumentFeedHealth → InstrumentFeedHealth) (k : String)
    (found : Option InstrumentFeedHealth) (s : FeedShardHealth)
    → get k s.instrument_health ≡ found
    → IsConsistent s
    → (t : FeedShardHealth) × (change_state f k found s ≡ some t) × IsConsistent t
unfolding change_state
change_state-IsConsistent f k none s e c = (s, refl, c)
change_state-IsConsistent f k (some state) s e c =
    let (c', a, m) =
      apply_projection_change-Matches k state (f state) s.instrument_health s.cache e c.cached in
    (
      record s { instrument_health = put k (f state) s.instrument_health; cache = c' },
      rw a refl,
      record {
        cached = m;
        owned =
            owned-put k (f state) s.instrument_health s.subscribed_instruments c.owned
              (c.owned k (rw e refl));
      },
    )

pub change_instrument-IsConsistent :
    (f : InstrumentFeedHealth → InstrumentFeedHealth) (key : Option String) (s : FeedShardHealth)
    → IsConsistent s
    → (t : FeedShardHealth) × (change_instrument f key s ≡ some t) × IsConsistent t
unfolding change_instrument
change_instrument-IsConsistent f none s c = (s, refl, c)
change_instrument-IsConsistent f (some k) s c =
    change_state-IsConsistent f k (get k s.instrument_health) s refl c

track-IsConsistent :
    (k : String) (found : Option InstrumentFeedHealth) (s : FeedShardHealth)
    → get k s.instrument_health ≡ found
    → mem k s.subscribed_instruments ≡ true
    → IsConsistent s
    → (t : FeedShardHealth) × (track k found s ≡ some t) × IsConsistent t
unfolding track
track-IsConsistent k (some state) s e m c = (s, refl, c)
track-IsConsistent k none s e m c =
    let (c', a, q) =
      apply_projection_change-Matches_new k (new_instrument k) s.instrument_health s.cache e
        c.cached in
    (
      record s { instrument_health = put k (new_instrument k) s.instrument_health; cache = c' },
      rw a refl,
      record {
        cached = q;
        owned =
            owned-put k (new_instrument k) s.instrument_health s.subscribed_instruments c.owned m;
      },
    )

mem_key : (subscribed : List String) (i k : String) → i ≡ k → mem i subscribed ≡ mem k subscribed
mem_key subscribed i k e = ap (λ x. mem x subscribed) e

subscribed_key-mem :
    (subscribed : List String) (i : Option String) (k : String)
    → subscribed_key subscribed i ≡ some k
    → mem k subscribed ≡ true
unfolding subscribed_key
subscribed_key-mem subscribed none k e = cc
subscribed_key-mem subscribed (some i) k e = ground (arith, mem_key subscribed (strip i) k)

-- the instrument that `_instrument_state` looks up is subscribed
pub instrument_key-subscribed :
    (s : FeedShardHealth) (instrument : Option String) (k : String)
    → instrument_key s instrument ≡ some k
    → mem k s.subscribed_instruments ≡ true
unfolding instrument_key
instrument_key-subscribed s instrument k e =
    subscribed_key-mem s.subscribed_instruments (named_or_sole instrument s.subscribed_instruments)
      k e

track_key-IsConsistent :
    (key : Option String) (s : FeedShardHealth)
    → ((k : String) → key ≡ some k → mem k s.subscribed_instruments ≡ true)
    → IsConsistent s
    → (t : FeedShardHealth) × (track_key key s ≡ some (t, key)) × IsConsistent t
unfolding track_key
track_key-IsConsistent none s m c = (s, refl, c)
track_key-IsConsistent (some k) s m c =
    let (t, e, c') = track-IsConsistent k (get k s.instrument_health) s refl (m k refl) c in
    (t, rw e refl, c')

pub instrument_state-IsConsistent :
    (instrument : Option String) (s : FeedShardHealth)
    → IsConsistent s
    → (t : FeedShardHealth) × (instrument_state instrument s
        ≡ some (t, instrument_key s instrument))
      × IsConsistent t
unfolding instrument_state
instrument_state-IsConsistent instrument s c =
    track_key-IsConsistent (instrument_key s instrument) s (instrument_key-subscribed s instrument)
      c

pub SameInstruments-refl : (s : FeedShardHealth) → SameInstruments s s
SameInstruments-refl s = record { health = refl; cache = refl; subscribed = refl }

pub refresh_derived-same : (s : FeedShardHealth) → SameInstruments s (refresh_derived_book_flags s)
unfolding refresh_derived_book_flags
refresh_derived-same s = ground arith

pub refresh_reconnect-same : (s : FeedShardHealth) → SameInstruments s (refresh_reconnect_flag s)
unfolding refresh_reconnect_flag
refresh_reconnect-same s = ground arith

-- Methods that report a change are as sound as what they do.
abbrev pub SoundCall : (FeedShardHealth → Option (FeedShardHealth × Bool)) → Type 0
SoundCall m =
    (s : FeedShardHealth)
    → IsConsistent s
    → (r : FeedShardHealth × Bool) × (m s ≡ some r) × IsConsistent r.0

pub reported-Sound :
    (m : FeedShardHealth → Option FeedShardHealth) → Sound m → SoundCall (reported m)
unfolding reported
reported-Sound m sound s c =
    let (t, e, c') = sound s c in
    ((t, changed (compact_semantic_signature s) (compact_semantic_signature t)), rw e refl, c')

pub same-Sound :
    (g : FeedShardHealth → FeedShardHealth)
    → ((s : FeedShardHealth) → SameInstruments s (g s))
    → SoundCall (reported (λ s. some (g s)))
same-Sound g same =
    reported-Sound (λ s. some (g s)) (λ s c. (g s, refl, IsConsistent-same (same s) c))
