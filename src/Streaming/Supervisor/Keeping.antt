-- ===== src/Streaming/Supervisor/Keeping.antt =====
-- What scheduling keeps of a supervisor: its shards, its limits, and the order of its heaps.
use pmkt_core.Prelude.{
  ℕ, ◌≡◌, refl, ◌∙◌, Bool, true, false, List, [], ◌∷◌, Option, none, some, String, string_eq, inl,
  inr, Bool-cases,
}
use pmkt_core.Collections.Dict.{get}
use pmkt_core.Collections.Sets.{mem}
use pmkt_core.Streaming.Instrument.{InstrumentFeedHealth}
use pmkt_core.Streaming.Derived.{deadline_ns}
use pmkt_core.Streaming.Shard.{FeedShardHealth, Notice}
use pmkt_core.Streaming.Deadlines.Queue.{IsQueue, cancel-IsQueue}
use pmkt_core.Streaming.Deadlines.Spec.{schedule-IsQueue}
use pmkt_core.Streaming.Registry.{Pair}
use pmkt_core.Streaming.Supervisor.{
  LiveFeedSupervisor, deadline_key, schedule_deadline, cancel_deadline, not_overdue,
  schedule_initial, restarted, schedule_clocks, schedule_state, schedule_instrument_deadlines,
  schedule_all_instruments, schedule_shard_deadlines, noticed, schedule_named,
  on_shard_deadline_change, deliver, schedule_shards, first_set,
}

pub record Keeps (sup t : LiveFeedSupervisor) : Type 0 where
  pub shards : t.shards ≡ sup.shards
  pub instrument_shards : t.instrument_shards ≡ sup.instrument_shards
  pub queue : IsQueue sup.deadlines → IsQueue t.deadlines

Keeps-refl : (sup : LiveFeedSupervisor) → Keeps sup sup
Keeps-refl sup = record { shards = refl; instrument_shards = refl; queue = λ h. h }

Keeps-trans : (a b c : LiveFeedSupervisor) → Keeps a b → Keeps b c → Keeps a c
Keeps-trans a b c h k = record {
  shards = k.shards ∙ h.shards;
  instrument_shards = k.instrument_shards ∙ h.instrument_shards;
  queue = λ q. k.queue (h.queue q);
}

-- a step that keeps what there is
abbrev pub Keeping : (LiveFeedSupervisor → LiveFeedSupervisor) → Type 0
Keeping f = (sup : LiveFeedSupervisor) → Keeps sup (f sup)

Keeping-then :
    (f g : LiveFeedSupervisor → LiveFeedSupervisor)
    → Keeping f
    → Keeping g
    → Keeping (λ sup. g (f sup))
Keeping-then f g h k sup = Keeps-trans sup (f sup) (g (f sup)) (h sup) (k (f sup))

module _ (s : FeedShardHealth) where
  schedule_deadline-Keeping :
      (i kind : String) (source : Option ℕ) (max_age : ℕ)
      → Keeping (schedule_deadline s i kind source max_age)
  unfolding schedule_deadline
  schedule_deadline-Keeping i kind source max_age sup = record {
    shards = refl;
    instrument_shards = refl;
    queue = schedule-IsQueue (deadline_key s i kind) (deadline_ns source max_age) sup.deadlines;
  }

  cancel_deadline-Keeping : (i kind : String) → Keeping (cancel_deadline s i kind)
  unfolding cancel_deadline
  cancel_deadline-Keeping i kind sup = record {
    shards = refl;
    instrument_shards = refl;
    queue = cancel-IsQueue (deadline_key s i kind) sup.deadlines;
  }

  not_overdue-Keeping : (i : String) → Keeping (not_overdue s i)
  unfolding not_overdue
  not_overdue-Keeping i sup = record { shards = refl; instrument_shards = refl; queue = λ h. h }

  unset-Keeping :
      (i : String) → Keeping (λ sup. not_overdue s i (cancel_deadline s i "initial_book" sup))
  unset-Keeping i =
      Keeping-then (cancel_deadline s i "initial_book") (not_overdue s i)
        (cancel_deadline-Keeping i "initial_book") (not_overdue-Keeping i)

  schedule_initial-Keeping :
      (i : String) (connected : Option ℕ) → Keeping (schedule_initial s i connected)
  unfolding schedule_initial
  schedule_initial-Keeping i none sup = unset-Keeping i sup
  schedule_initial-Keeping i (some c) sup =
      schedule_deadline-Keeping i "initial_book" (some c) sup.initialization_sla_ms sup

  -- a deadline whose limit is read from the supervisor
  scheduled-Keeping :
      (i kind : String) (source : Option ℕ) (limit : LiveFeedSupervisor → ℕ)
      → Keeping (λ sup. schedule_deadline s i kind source (limit sup) sup)
  scheduled-Keeping i kind source limit sup =
      schedule_deadline-Keeping i kind source (limit sup) sup

  -- two deadlines, of messages and of books
  both-Keeping :
      (i : String) (message book : Option ℕ)
      → Keeping (λ sup0.
        let sup = schedule_deadline s i "message" message sup0.max_message_age_ms sup0 in
        schedule_deadline s i "book" book sup.max_valid_book_age_ms sup)
  both-Keeping i message book =
      Keeping-then (λ sup. schedule_deadline s i "message" message sup.max_message_age_ms sup)
        (λ sup. schedule_deadline s i "book" book sup.max_valid_book_age_ms sup)
        (scheduled-Keeping i "message" message (λ sup. sup.max_message_age_ms))
        (scheduled-Keeping i "book" book (λ sup. sup.max_valid_book_age_ms))

  schedule_clocks-Keeping :
      (i : String) (state : InstrumentFeedHealth) → Keeping (schedule_clocks s i state)
  unfolding schedule_clocks
  schedule_clocks-Keeping i state sup =
      let reconnect = mem "reconnect" state.quality_flags in
      let message = restarted s.connected_monotonic_ns reconnect state.last_message_monotonic_ns in
      let book = restarted s.connected_monotonic_ns reconnect state.last_valid_book_monotonic_ns in
      let unset = not_overdue s i (cancel_deadline s i "initial_book" sup) in
      Keeps-trans sup unset (schedule_clocks s i state sup) (unset-Keeping i sup)
        (both-Keeping i message book unset)

  schedule_state-Keeping :
      (i : String) (o : Option InstrumentFeedHealth) → Keeping (schedule_state s i o)
  unfolding schedule_state
  schedule_state-Keeping i none sup = schedule_initial-Keeping i s.connected_monotonic_ns sup
  schedule_state-Keeping i (some state) sup = elim (Bool-cases state.initial_snapshot_received) [
    | inl b ↦ rw b (schedule_clocks-Keeping i state sup)
    | inr b ↦ rw b (schedule_initial-Keeping i s.connected_monotonic_ns sup)
  ]

  pub schedule_instrument_deadlines-Keeping :
      (i : String) → Keeping (schedule_instrument_deadlines s i)
  unfolding schedule_instrument_deadlines
  schedule_instrument_deadlines-Keeping i = schedule_state-Keeping i (get i s.instrument_health)

  schedule_all_instruments-Keeping :
      (instruments : List String) → Keeping (schedule_all_instruments s instruments)
  unfolding schedule_all_instruments
  schedule_all_instruments-Keeping [] = Keeps-refl
  schedule_all_instruments-Keeping (i ∷ instruments) =
      Keeping-then (schedule_instrument_deadlines s i) (schedule_all_instruments s instruments)
        (schedule_instrument_deadlines-Keeping i) (schedule_all_instruments-Keeping instruments)

  schedule_shard_deadlines-Keeping : (rebuild : Bool) → Keeping (schedule_shard_deadlines s rebuild)
  unfolding schedule_shard_deadlines
  schedule_shard_deadlines-Keeping rebuild sup =
      let book = first_set s.last_valid_book_monotonic_ns s.connected_monotonic_ns in
      let clocks = both-Keeping "" s.last_message_monotonic_ns book sup in
      elim (Bool-cases rebuild) [
        | inr b ↦ rw b clocks
        | inl b ↦ rw b (
            Keeps-trans sup (schedule_shard_deadlines s false sup)
              (schedule_shard_deadlines s true sup) clocks
              (schedule_all_instruments-Keeping s.subscribed_instruments
                (schedule_shard_deadlines s false sup)))
      ]

  schedule_named-Keeping : (i : Option String) → Keeping (schedule_named s i)
  schedule_named-Keeping none = Keeps-refl
  schedule_named-Keeping (some i) = schedule_instrument_deadlines-Keeping i

  on_shard_deadline_change-Keeping :
      (i : Option String) (rebuild : Bool) → Keeping (on_shard_deadline_change s i rebuild)
  unfolding on_shard_deadline_change
  on_shard_deadline_change-Keeping i rebuild sup =
      let clocks = schedule_shard_deadlines s false sup in
      let kept = schedule_shard_deadlines-Keeping false sup in
      elim (Bool-cases rebuild) [
        | inl b ↦ rw b (
            Keeps-trans sup clocks (schedule_all_instruments s s.subscribed_instruments clocks) kept
              (schedule_all_instruments-Keeping s.subscribed_instruments clocks))
        | inr b ↦ rw b (
            Keeps-trans sup clocks (schedule_named s i clocks) kept
              (schedule_named-Keeping i clocks))
      ]

pub deliver-Keeping : (s : FeedShardHealth) (notices : List Notice) → Keeping (deliver s notices)
unfolding deliver
deliver-Keeping s [] sup = Keeps-refl sup
deliver-Keeping s (n ∷ earlier) sup =
    let before = deliver s earlier sup in
    Keeps-trans sup before
      (on_shard_deadline_change (noticed n s) n.instrument n.rebuild_instruments before)
      (deliver-Keeping s earlier sup)
      (on_shard_deadline_change-Keeping (noticed n s) n.instrument n.rebuild_instruments before)

pub schedule_shards-Keeping :
    (shards : List (Pair × FeedShardHealth)) → Keeping (schedule_shards shards)
unfolding schedule_shards
schedule_shards-Keeping [] sup = Keeps-refl sup
schedule_shards-Keeping ((key, s) ∷ shards) sup =
    let first = schedule_shard_deadlines s true sup in
    Keeps-trans sup first (schedule_shards shards first)
      (schedule_shard_deadlines-Keeping s true sup) (schedule_shards-Keeping shards first)
