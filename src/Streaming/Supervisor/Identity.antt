-- ===== src/Streaming/Supervisor/Identity.antt =====
-- The methods of a shard leave its name and its subscriptions.
use pmkt_core.Prelude.{
  ℕ, ◌≡◌, refl, ◌∙◌, Bool, true, false, List, Option, none, some, String, if◌then◌else◌, string_eq,
  inl, inr, Bool-cases, arith, null,
}
use pmkt_core.Collections.Dict.{get}
use pmkt_core.Streaming.Instrument.{InstrumentFeedHealth}
use pmkt_core.Streaming.Projection.{◌>>=◌}
use pmkt_core.Streaming.Shard.{
  FeedShardHealth, track, track_key, instrument_state, instrument_key, change_state,
  change_instrument, notify, refresh_derived_book_flags, refresh_reconnect_flag, reported,
}
use pmkt_core.Streaming.ShardOps

abbrev pub Identity : Type 0
Identity = String × String × List String

abbrev pub identity : FeedShardHealth → Identity
identity s = (s.venue, s.shard_id, s.subscribed_instruments)

-- the shard of the result, if there is one, is the same
abbrev pub IsOfBy : {X : Type 0} → (X → FeedShardHealth) → FeedShardHealth → Option X → Type 0
IsOfBy p s none = Unit
IsOfBy p s (some x) = identity (p x) ≡ identity s

abbrev pub itself : FeedShardHealth → FeedShardHealth
itself s = s

abbrev pub shard_of : {A : Type 0} → FeedShardHealth × A → FeedShardHealth
shard_of r = r.0

abbrev pub IsOf : FeedShardHealth → Option FeedShardHealth → Type 0
IsOf s o = IsOfBy itself s o

abbrev pub IsOfPair : {A : Type 0} → FeedShardHealth → Option (FeedShardHealth × A) → Type 0
IsOfPair s o = IsOfBy shard_of s o

pub IsOfBy-trans :
    {X : Type 0} (p : X → FeedShardHealth) (s t : FeedShardHealth) (o : Option X)
    → identity t ≡ identity s
    → IsOfBy p t o
    → IsOfBy p s o
IsOfBy-trans p s t none e h = tt
IsOfBy-trans p s t (some u) e h = h ∙ e

-- a step, and what goes on from its result
pub bind_IsOf :
    {X Y : Type 0} (p : X → FeedShardHealth) (q : Y → FeedShardHealth) (s : FeedShardHealth)
    (o : Option X) (f : X → Option Y)
    → IsOfBy p s o
    → ((x : X) → IsOfBy q (p x) (f x))
    → IsOfBy q s (o >>= f)
bind_IsOf p q s none f h k = tt
bind_IsOf p q s (some x) f h k = IsOfBy-trans q s (p x) (f x) h (k x)

cache_then :
    {C A : Type 0} (s : FeedShardHealth) (o : Option C) (f : C → FeedShardHealth) (a : A)
    → ((c : C) → identity (f c) ≡ identity s)
    → IsOfPair s ((o >>= λ c. some (f c)) >>= λ t. some (t, a))
cache_then s none f a h = tt
cache_then s (some c) f a h = h c

pub change_then :
    {C : Type 0} (s : FeedShardHealth) (o : Option C) (f : C → FeedShardHealth)
    → ((c : C) → identity (f c) ≡ identity s)
    → IsOf s (o >>= λ c. some (f c))
change_then s none f h = tt
change_then s (some c) f h = h c

pub instrument_state-IsOf :
    (i : Option String) (s : FeedShardHealth) → IsOfPair s (instrument_state i s)
unfolding instrument_state
instrument_state-IsOf i s = of_key (instrument_key s i)
  where
    of_found :
        (text : String) (found : Option InstrumentFeedHealth)
        → IsOfPair s (track text found s >>= λ t. some (t, some text))
    of_found text none = cache_then s _ _ (some text) (λ c. refl)
    of_found text (some state) = refl

    of_key : (k : Option String) → IsOfPair s (track_key k s)
    of_key none = refl
    of_key (some text) = of_found text (get text s.instrument_health)

pub change_instrument-IsOf :
    (f : InstrumentFeedHealth → InstrumentFeedHealth) (k : Option String) (s : FeedShardHealth)
    → IsOf s (change_instrument f k s)
unfolding change_instrument
change_instrument-IsOf f none s = refl
change_instrument-IsOf f (some text) s = of_found (get text s.instrument_health)
  where
    of_found : (found : Option InstrumentFeedHealth) → IsOf s (change_state f text found s)
    of_found none = refl
    of_found (some state) = change_then s _ _ (λ c. refl)

pub refresh_derived-identity :
    (s : FeedShardHealth) → identity (refresh_derived_book_flags s) ≡ identity s
unfolding refresh_derived_book_flags
refresh_derived-identity s = elim (Bool-cases (null s.instrument_health)) [
  | inl b ↦ rw b refl
  | inr b ↦ rw b refl
]

pub refresh_reconnect-identity :
    (s : FeedShardHealth) → identity (refresh_reconnect_flag s) ≡ identity s
unfolding refresh_reconnect_flag
refresh_reconnect-identity s = ground arith

pub later_message-identity :
    (now : Option ℕ) (s : FeedShardHealth) → identity (ShardOps.later_message now s) ≡ identity s
later_message-identity none s = refl
later_message-identity (some now) s = refl

pub notify-identity :
    (i : Option String) (b : Bool) (s : FeedShardHealth) → identity (notify i b s) ≡ identity s
unfolding notify
notify-identity i b s = refl

pub chosen_identity :
    (c : Bool) (s t : FeedShardHealth)
    → identity t ≡ identity s
    → identity (if c then t else s) ≡ identity s
chosen_identity true s t h = h
chosen_identity false s t h = refl

pub reported-IsOf :
    (m : FeedShardHealth → Option FeedShardHealth) (s : FeedShardHealth)
    → IsOf s (m s)
    → IsOfPair s (reported m s)
unfolding reported
reported-IsOf m s h = bind_IsOf itself shard_of s (m s) _ h (λ t. refl)
