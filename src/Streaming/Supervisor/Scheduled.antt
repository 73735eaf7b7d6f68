-- ===== src/Streaming/Supervisor/Scheduled.antt =====
-- The deadlines that `_schedule_instrument_deadlines` sets, and the check that finds them.
use pmkt_core.Prelude.{
  ℕ, ◌≡◌, refl, ap, sym, ◌∙◌, true, false, [], ◌∷◌, Option, some, String, if◌then◌else◌, string_eq,
  ◌==◌, arith,
}
use pmkt_core.Collections.Dict.{get}
use pmkt_core.Collections.Sets.{mem}
use pmkt_core.Streaming.Instrument.{InstrumentFeedHealth, is_stale, age_ms}
use pmkt_core.Streaming.Shard.{FeedShardHealth}
use pmkt_core.Streaming.Derived.{deadline_ns, stale_iff_deadline}
use pmkt_core.Streaming.Deadlines.{Key, key_eq, key_beq_iff, Deadlines, expire_venue}
use pmkt_core.Streaming.Deadlines.Spec.{get-schedule}
use pmkt_core.Streaming.Deadlines.Queue.{IsQueue}
use pmkt_core.Streaming.Deadlines.Expiry.{mem-expire}
use pmkt_core.Streaming.Supervisor.{
  LiveFeedSupervisor, deadline_key, schedule_deadline, restarted, schedule_initial, schedule_clocks,
  schedule_state, schedule_instrument_deadlines, not_overdue, cancel_deadline,
}
use pmkt_core.Streaming.Supervisor.Keeping.{schedule_instrument_deadlines-Keeping}
use pmkt_core.Streaming.Supervisor.Reachable.{Reached, Reached-IsSupervisor}

module _ (s : FeedShardHealth) (i : String) (sup : LiveFeedSupervisor) where
  scheduled_self :
      (kind : String) (source : Option ℕ) (max_age : ℕ)
      → get (deadline_key s i kind) (schedule_deadline s i kind source max_age sup).deadlines.values
        ≡ some (deadline_ns source max_age)
  unfolding schedule_deadline
  scheduled_self kind source max_age =
      let key = deadline_key s i kind in
      get-schedule key (deadline_ns source max_age) sup.deadlines key
      ∙ (rw ((key_beq_iff key key).1 refl) refl)

  scheduled_other :
      (kind other : String) (source : Option ℕ) (max_age : ℕ)
      → (kind == other) ≡ false
      → get
          (deadline_key s i other)
          (schedule_deadline s i kind source max_age sup).deadlines.values
        ≡ get (deadline_key s i other) sup.deadlines.values
  unfolding schedule_deadline
  scheduled_other kind other source max_age n =
      let key = deadline_key s i kind in
      let apart : (key == deadline_key s i other) ≡ false = ground arith in
      get-schedule key (deadline_ns source max_age) sup.deadlines (deadline_key s i other)
      ∙ (rw apart refl)

-- the clock that a deadline of an instrument is set by
abbrev pub clock_of : FeedShardHealth → InstrumentFeedHealth → Option ℕ → Option ℕ
clock_of s state source =
    restarted s.connected_monotonic_ns (mem "reconnect" state.quality_flags) source

module _ (s : FeedShardHealth) (i : String) (state : InstrumentFeedHealth)
    (sup : LiveFeedSupervisor) where
  abbrev clocks : Deadlines
  clocks = (schedule_clocks s i state sup).deadlines

  message_deadline :
      get (deadline_key s i "message") clocks.values
      ≡ some (deadline_ns (clock_of s state state.last_message_monotonic_ns) sup.max_message_age_ms)
  unfolding schedule_clocks
  message_deadline =
      let unset = not_overdue s i (cancel_deadline s i "initial_book" sup) in
      let message = clock_of s state state.last_message_monotonic_ns in
      let book = clock_of s state state.last_valid_book_monotonic_ns in
      let first = schedule_deadline s i "message" message sup.max_message_age_ms unset in
      scheduled_other s i first "book" "message" book sup.max_valid_book_age_ms refl
      ∙ scheduled_self s i unset "message" message sup.max_message_age_ms

  book_deadline :
      get (deadline_key s i "book") clocks.values
      ≡ some (
          deadline_ns
            (clock_of s state state.last_valid_book_monotonic_ns)
            sup.max_valid_book_age_ms)
  unfolding schedule_clocks
  book_deadline =
      let unset = not_overdue s i (cancel_deadline s i "initial_book" sup) in
      let message = clock_of s state state.last_message_monotonic_ns in
      let first = schedule_deadline s i "message" message sup.max_message_age_ms unset in
      scheduled_self s i first "book" (clock_of s state state.last_valid_book_monotonic_ns)
        sup.max_valid_book_age_ms

scheduled_is_clocks :
    (s : FeedShardHealth) (i : String) (state : InstrumentFeedHealth) (sup : LiveFeedSupervisor)
    → get i s.instrument_health ≡ some state
    → state.initial_snapshot_received ≡ true
    → schedule_instrument_deadlines s i sup ≡ schedule_clocks s i state sup
unfolding schedule_instrument_deadlines schedule_state
scheduled_is_clocks s i state sup g snapshot =
    ap (λ o. schedule_state s i o sup) g
    ∙ ap
        (λ b.
          if b
          then schedule_clocks s i state sup
          else schedule_initial s i s.connected_monotonic_ns sup)
        snapshot

-- a key of a venue is handled by a check of the venue if its deadline is due
handled-at :
    (now : ℕ) (key : Key) (source : Option ℕ) (max_age : ℕ) (q : Deadlines)
    → IsQueue q
    → get key q.values ≡ some (deadline_ns source max_age)
    → mem key (expire_venue ◌∷◌ now key.venue q []).1 ≡ is_stale (age_ms now source) max_age
handled-at now key source max_age q h g =
    let self : (key.venue == key.venue) ≡ true = (string_eq.beq_iff key.venue key.venue).1 refl in
    mem-expire now key.venue q h key
    ∙ (rw (self, g) refl)
    ∙ sym (stale_iff_deadline now max_age source)

-- in a supervisor that the constructor and calls lead to, for an instrument of a shard that has had its
-- first snapshot: after _schedule_instrument_deadlines, a check of the venue handles its message deadline
-- exactly when the message clock is stale, and its book deadline exactly when the book clock is stale;
-- both clocks are those of the instrument, started again by a connection
pub handled_iff_stale :
    (s : FeedShardHealth) (i : String) (state : InstrumentFeedHealth) (sup : LiveFeedSupervisor)
    (now : ℕ)
    → Reached sup
    → get i s.instrument_health ≡ some state
    → state.initial_snapshot_received ≡ true
    → let handled =
        (expire_venue ◌∷◌ now s.venue (schedule_instrument_deadlines s i sup).deadlines []).1 in
      (mem (deadline_key s i "message") handled
        ≡ is_stale
            (age_ms now (clock_of s state state.last_message_monotonic_ns))
            sup.max_message_age_ms)
      × (mem (deadline_key s i "book") handled
          ≡ is_stale
              (age_ms now (clock_of s state state.last_valid_book_monotonic_ns))
              sup.max_valid_book_age_ms)
handled_iff_stale s i state sup now r g snapshot =
    let t = schedule_instrument_deadlines s i sup in
    let q =
      (schedule_instrument_deadlines-Keeping s i sup).queue (Reached-IsSupervisor sup r).queue in
    let same = scheduled_is_clocks s i state sup g snapshot in
    (
      handled-at now (deadline_key s i "message") (clock_of s state state.last_message_monotonic_ns)
          sup.max_message_age_ms t.deadlines q
          (ap (λ (u : LiveFeedSupervisor). get (deadline_key s i "message") u.deadlines.values) same
            ∙ message_deadline s i state sup),
      handled-at now (deadline_key s i "book") (clock_of s state state.last_valid_book_monotonic_ns)
          sup.max_valid_book_age_ms t.deadlines q
          (ap (λ (u : LiveFeedSupervisor). get (deadline_key s i "book") u.deadlines.values) same
            ∙ book_deadline s i state sup),
    )
