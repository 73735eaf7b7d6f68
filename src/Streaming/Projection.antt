-- ===== src/Streaming/Projection.antt =====
-- The cached aggregates of `FeedShardHealth` in src/pmkt/streaming/supervisor.py: what one
-- instrument contributes (`_instrument_projection`), and how a change of it is carried over
-- (`_apply_instrument_projection_change`, `_adjust_projection`, `_rebuild_instrument_aggregates`).
-- A `Counter` is the function that gives each flag its count, 0 where the flag is absent. `none`
-- stands for the RuntimeError about a negative aggregate.
pub mod Shifts
pub mod Matches
pub mod Rebuild
pub mod Adjust
pub mod Counts
use pmkt_core.Prelude.{
  ℕ, ◌+◌, ◌-◌, ◌/◌, ◌≤◌, ◌<◌, ◌≡◌, refl, sym, ap, Bool, true, false, not, ◌&&◌, ◌||◌, List, [], ◌∷◌,
  ◌++◌, Option, none, some, String, if◌then◌else◌, ltb, any, or_else, arith, string_eq, inl, inr,
  ◌⊎◌, Bool-cases, ◌==◌, length, to_nat,
}
use text.Mathlib.Text.{starts_with}
use pmkt_core.Collections.Sets.{mem, inter}
use pmkt_core.Streaming.Instrument.{
  InstrumentFeedHealth, book_integrity_quality_flags, current_book_quality_flags,
}

abbrev pub Counter : Type 0
Counter = String → ℕ

pub record Projection : Type 0 where
  pub valid : Bool
  pub invalid : Bool
  pub stale : Bool
  pub current_flags : List String
  pub integrity_flags : List String
  pub reconnect_blocking : Bool

-- any(flag.startswith("stale_") for flag in state.quality_flags)
unfoldable pub has_stale_flag : InstrumentFeedHealth → Bool
has_stale_flag s = any (λ flag. starts_with flag "stale_") s.quality_flags

-- _instrument_projection
unfoldable pub instrument_projection : InstrumentFeedHealth → Projection
unfolding has_stale_flag
instrument_projection s = record {
  valid = s.valid_state && not (has_stale_flag s);
  invalid = not s.valid_state;
  stale = has_stale_flag s;
  current_flags =
      if not s.valid_state then inter current_book_quality_flags s.quality_flags else [];
  integrity_flags = inter book_integrity_quality_flags s.quality_flags;
  reconnect_blocking = not (s.book_integrity_valid && not (mem "reconnect" s.quality_flags));
}

pub record Cache : Type 0 where
  pub tracked_instrument_count : ℕ
  pub valid_instrument_count : ℕ
  pub invalid_instrument_count : ℕ
  pub stale_instrument_count : ℕ
  pub reconnect_blocking_instrument_count : ℕ
  pub current_book_flag_counts : Counter
  pub book_integrity_flag_counts : Counter

-- The `delta` of `_adjust_projection`: -1 or 1.
pub data Delta : Type 0 where
  minus plus : Delta

-- count + delta * int(b), refused below 0
unfoldable pub shift : Delta → Bool → ℕ → Option ℕ
shift minus b n = if ltb n (to_nat b) then none else some (n - to_nat b)
shift plus b n = some (n + to_nat b)

infixl 5 ◌>>=◌
abbrev pub ◌>>=◌ : {A B : Type 0} → Option A → (A → Option B) → Option B
none >>= f = none
some a >>= f = f a

-- counts[flag] = updated
abbrev set_count : String → ℕ → Counter → Counter
set_count flag n counts g = if g == flag then n else counts g

-- for flag in flags: counts[flag] += delta
unfoldable pub shift_flags : Delta → List String → Counter → Option Counter
unfolding shift
shift_flags d [] counts = some counts
shift_flags d (flag ∷ flags) counts =
    shift d true (counts flag) >>= λ n. shift_flags d flags (set_count flag n counts)

-- _adjust_projection
unfoldable pub adjust_projection : Projection → Delta → Cache → Option Cache
unfolding shift shift_flags
adjust_projection p d c = do
  valid ← shift d p.valid c.valid_instrument_count
  invalid ← shift d p.invalid c.invalid_instrument_count
  stale ← shift d p.stale c.stale_instrument_count
  blocking ← shift d p.reconnect_blocking c.reconnect_blocking_instrument_count
  current ← shift_flags d p.current_flags c.current_book_flag_counts
  integrity ← shift_flags d p.integrity_flags c.book_integrity_flag_counts
  some (record {
    tracked_instrument_count = c.tracked_instrument_count;
    valid_instrument_count = valid;
    invalid_instrument_count = invalid;
    stale_instrument_count = stale;
    reconnect_blocking_instrument_count = blocking;
    current_book_flag_counts = current;
    book_integrity_flag_counts = integrity;
  })

adjust_optional : Option Projection → Delta → Cache → Option Cache
adjust_optional none d c = some c
adjust_optional (some p) d c = adjust_projection p d c

-- _apply_instrument_projection_change
unfoldable pub apply_projection_change :
    Option Projection → Option Projection → Cache → Option Cache
unfolding adjust_optional
apply_projection_change before after c =
    adjust_optional before minus c >>= λ c'. adjust_optional after plus c'

abbrev pub Instruments : Type 0
Instruments = List (String × InstrumentFeedHealth)

adjust_all : Instruments → Cache → Option Cache
adjust_all [] c = some c
adjust_all ((_, s) ∷ h) c =
    adjust_projection (instrument_projection s) plus c >>= λ c'. adjust_all h c'

-- _rebuild_instrument_aggregates
unfoldable pub rebuild : Instruments → Option Cache
unfolding adjust_all
rebuild h = adjust_all h (record {
  tracked_instrument_count = length h;
  valid_instrument_count = 0;
  invalid_instrument_count = 0;
  stale_instrument_count = 0;
  reconnect_blocking_instrument_count = 0;
  current_book_flag_counts = λ _. 0;
  book_integrity_flag_counts = λ _. 0;
})
