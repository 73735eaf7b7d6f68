-- ===== src/Streaming/Instrument.antt =====
-- `InstrumentFeedHealth` of src/pmkt/streaming/supervisor.py: the health of one instrument's feed.
-- Monotonic times are natural numbers of nanoseconds, ages and limits of milliseconds.
pub mod Staleness
pub mod Flags
use pmkt_core.Prelude.{
  string_eq, ℕ, ◌+◌, ◌-◌, ◌/◌, Bool, true, false, not, ◌&&◌, ◌||◌, List, [], ◌∷◌, Option, none,
  some, String, if◌then◌else◌, ltb, or_else,
}
use pmkt_core.Text.{stripped}
use pmkt_core.Collections.Sets.{mem, add, union, inter, diff, discard}

abbrev pub book_integrity_quality_flags : List String
book_integrity_quality_flags =
    "malformed_book" ∷ "missing_sequence" ∷ "sid_changed" ∷ "hash_mismatch" ∷ "seq_gap"
    ∷ "sequence_gap" ∷ "resync_required" ∷ "delta_before_snapshot" ∷ "no_initial_snapshot" ∷ []

abbrev pub current_book_quality_flags : List String
current_book_quality_flags = "crossed_book" ∷ "negative_spread" ∷ "empty_bid" ∷ "empty_ask" ∷ []

pub record InstrumentFeedHealth : Type 0 where
  pub instrument : String
  pub last_message_monotonic_ns : Option ℕ
  pub last_valid_book_monotonic_ns : Option ℕ
  pub last_book_monotonic_ns : Option ℕ
  pub valid_state : Bool
  pub book_integrity_valid : Bool
  pub initial_snapshot_received : Bool
  pub valid_book_count : ℕ
  pub invalid_book_count : ℕ
  pub quality_flags : List String

-- InstrumentFeedHealth(instrument)
unfoldable pub new_instrument : String → InstrumentFeedHealth
new_instrument name = record {
  instrument = name;
  last_message_monotonic_ns = none;
  last_valid_book_monotonic_ns = none;
  last_book_monotonic_ns = none;
  valid_state = false;
  book_integrity_valid = false;
  initial_snapshot_received = false;
  valid_book_count = 0;
  invalid_book_count = 0;
  quality_flags = [];
}

-- max(0, (now - source) // 1_000_000); the difference is truncated at 0, as the maximum does
unfoldable pub age_ms : ℕ → Option ℕ → Option ℕ
age_ms now none = none
age_ms now (some source) = some ((now - source) / 1000000)

-- age is None or age > max_age
unfoldable pub is_stale : Option ℕ → ℕ → Bool
is_stale none max_age = true
is_stale (some age) max_age = ltb max_age age

-- last_message_age_ms
unfoldable pub last_message_age_ms : InstrumentFeedHealth → ℕ → Option ℕ
unfolding age_ms
last_message_age_ms s now = age_ms now s.last_message_monotonic_ns

-- last_valid_book_age_ms
unfoldable pub last_valid_book_age_ms : InstrumentFeedHealth → ℕ → Option ℕ
unfolding age_ms
last_valid_book_age_ms s now = age_ms now s.last_valid_book_monotonic_ns

unfoldable pub record_message : ℕ → InstrumentFeedHealth → InstrumentFeedHealth
record_message now s = record s {
  last_message_monotonic_ns = some now;
  quality_flags = discard "stale_messages" s.quality_flags;
}

-- the keyword arguments of `record_book`
pub record BookReport : Type 0 where
  pub valid_state : Bool
  pub quality_flags : List String
  pub book_integrity_valid : Option Bool
  pub initial_snapshot_received : Option Bool

-- the flags after the current-book flags are replaced and the integrity flags merged
merge_book_flags : List String → List String → List String
merge_book_flags flags incoming =
    union
      (union (diff flags current_book_quality_flags) (inter incoming current_book_quality_flags))
      (inter incoming book_integrity_quality_flags)

-- the flags that a book with sound integrity clears
clear_integrity : Bool → List String → List String
clear_integrity false flags = flags
clear_integrity true flags = diff (discard "reconnect" flags) book_integrity_quality_flags

-- the branch on `valid_state` at the end of `record_book`
close_book : Bool → ℕ → List String → InstrumentFeedHealth → InstrumentFeedHealth
close_book true now incoming s = record s {
  valid_book_count = s.valid_book_count + 1;
  last_valid_book_monotonic_ns = some now;
  quality_flags =
      diff (discard "reconnect" (discard "stale_books" (discard "invalid_book" s.quality_flags)))
        book_integrity_quality_flags;
}
close_book false now incoming s = record s {
  invalid_book_count = s.invalid_book_count + 1;
  quality_flags = union (add "invalid_book" s.quality_flags) incoming;
}

unfoldable pub record_book : BookReport → ℕ → InstrumentFeedHealth → InstrumentFeedHealth
unfolding record_message merge_book_flags clear_integrity close_book
record_book b now s0 =
    let s = record_message now s0 in
    let incoming = stripped b.quality_flags in
    let integrity = or_else b.book_integrity_valid b.valid_state in
    close_book b.valid_state now incoming (record s {
      last_book_monotonic_ns = some now;
      valid_state = b.valid_state;
      book_integrity_valid = integrity;
      initial_snapshot_received =
          or_else b.initial_snapshot_received (s.initial_snapshot_received || b.valid_state);
      quality_flags = clear_integrity integrity (merge_book_flags s.quality_flags incoming);
    })

unfoldable pub mark_reconnect : InstrumentFeedHealth → InstrumentFeedHealth
mark_reconnect s = record s {
  valid_state = false;
  book_integrity_valid = false;
  initial_snapshot_received = false;
  last_message_monotonic_ns = none;
  last_valid_book_monotonic_ns = none;
  last_book_monotonic_ns = none;
  quality_flags = "reconnect" ∷ "no_initial_snapshot" ∷ [];
}

unfoldable pub record_sequence_gap : InstrumentFeedHealth → InstrumentFeedHealth
record_sequence_gap s = record s {
  valid_state = false;
  book_integrity_valid = false;
  quality_flags = add "sequence_gap" s.quality_flags;
}

unfoldable pub record_resync : Option ℕ → InstrumentFeedHealth → InstrumentFeedHealth
record_resync none s = record s { quality_flags = discard "sequence_gap" s.quality_flags }
record_resync (some now) s = record s {
  quality_flags = discard "sequence_gap" s.quality_flags;
  last_message_monotonic_ns = some now;
}

-- self.valid_state = False; self.quality_flags.add(flag)
go_stale : String → InstrumentFeedHealth → InstrumentFeedHealth
go_stale flag s = record s { valid_state = false; quality_flags = add flag s.quality_flags }

-- the state that `invalidate_if_stale` leaves
unfoldable pub invalidate_state : ℕ → ℕ → ℕ → InstrumentFeedHealth → InstrumentFeedHealth
unfolding go_stale last_message_age_ms last_valid_book_age_ms is_stale
invalidate_state now max_message_age max_book_age s0 =
    let s =
      if is_stale (last_message_age_ms s0 now) max_message_age
      then go_stale "stale_messages" s0
      else s0 in
    if is_stale (last_valid_book_age_ms s now) max_book_age then go_stale "stale_books" s else s

abbrev differs : Bool → Bool → Bool
differs true b = not b
differs false b = b

-- before != after, on the three parts that `invalidate_if_stale` compares
unfoldable pub transitioned : InstrumentFeedHealth → InstrumentFeedHealth → Bool
transitioned s t =
    differs s.valid_state t.valid_state
    || differs (mem "stale_messages" s.quality_flags) (mem "stale_messages" t.quality_flags)
    || differs (mem "stale_books" s.quality_flags) (mem "stale_books" t.quality_flags)

unfoldable pub invalidate_if_stale : ℕ → ℕ → ℕ → InstrumentFeedHealth → InstrumentFeedHealth × Bool
unfolding invalidate_state transitioned
invalidate_if_stale now max_message_age max_book_age s =
    let t = invalidate_state now max_message_age max_book_age s in (t, transitioned s t)

-- _would_invalidate_if_stale
unfoldable pub would_invalidate_if_stale : ℕ → ℕ → ℕ → InstrumentFeedHealth → Bool
unfolding last_message_age_ms last_valid_book_age_ms is_stale
would_invalidate_if_stale now max_message_age max_book_age s =
    let message_stale = is_stale (last_message_age_ms s now) max_message_age in
    let book_stale = is_stale (last_valid_book_age_ms s now) max_book_age in
    (message_stale && not (mem "stale_messages" s.quality_flags))
    || (book_stale && not (mem "stale_books" s.quality_flags))
    || (s.valid_state && (message_stale || book_stale))
