-- ===== src/Streaming/Deadlines/Bounds.antt =====
-- The bound on the heaps of deadlines that compaction keeps.
use mathlib.Core.Path.{subst}
use pmkt_core.Prelude.{
  ℕ, ◌+◌, ◌*◌, ◌≡◌, refl, sym, ◌∙◌, false, List, [], ◌∷◌, Option, none, some, String, ltb, max,
  string_eq, nat_eq, arith, length, inl, inr, Bool-cases, is_some, ◌≤◌,
}
use pmkt_core.Collections.Dict.{get, put}
use pmkt_core.Streaming.Deadlines.{
  Key, key_eq, Entry, Deadlines, no_deadlines, generation_of, heap_of, live_heap, compact, enter,
  schedule, cancel, expire_venue,
}
use pmkt_core.Streaming.Deadlines.Spec.{Op, run_op, run_ops}
use pmkt_core.Streaming.Deadlines.Expiry.{expired, expire_venue-expired}
use pmkt_core.Streaming.Deadlines.Queue.{heap_of-put}
use pmkt_core.Streaming.Deadlines.Counts.{
  live_count, IsCounted, length-live_heap, enter-IsCounted, forget-IsCounted, pop_due-IsCounted,
}

schedule-IsCounted : (k : Key) (d : ℕ) (q : Deadlines) → IsCounted q → IsCounted (schedule k d q)
unfolding schedule compact
schedule-IsCounted k d q h =
    let big =
      ltb (max 1024 ((enter k d q).active k.venue * 4)) (length (heap_of k.venue (enter k d q))) in
    elim (Bool-cases big) [
      | inl b ↦ rw b (enter-IsCounted k d q h)
      | inr b ↦ rw b (enter-IsCounted k d q h)
    ]

cancel-IsCounted : (k : Key) (q : Deadlines) → IsCounted q → IsCounted (cancel k q)
unfolding cancel
cancel-IsCounted k q h = elim (Bool-cases (is_some (get k q.values))) [
  | inr n ↦ rw n h
  | inl l ↦
      let after = record q { generations = put k (generation_of k q + 1) q.generations } in
      rw l (forget-IsCounted k after l h)
]

expired-IsCounted :
    (now : ℕ) (venue : String) (q : Deadlines) (o : Option (List Entry))
    → IsCounted q
    → IsCounted (expired now venue q o).0
expired-IsCounted now venue q none h = h
expired-IsCounted now venue q (some heap) h = pop_due-IsCounted ◌∷◌ now venue heap q [] h

expire-IsCounted :
    (now : ℕ) (venue : String) (q : Deadlines)
    → IsCounted q
    → IsCounted (expire_venue ◌∷◌ now venue q []).0
expire-IsCounted now venue q h =
    rw (expire_venue-expired now venue q) (expired-IsCounted now venue q (get venue q.heaps) h)

run_op-IsCounted : (op : Op) (q : Deadlines) → IsCounted q → IsCounted (run_op op q).0
unfolding run_op
run_op-IsCounted (Op.set key d) q h = schedule-IsCounted key d q h
run_op-IsCounted (Op.unset key) q h = cancel-IsCounted key q h
run_op-IsCounted (Op.check now venue) q h = expire-IsCounted now venue q h

run_ops-IsCounted : (ops : List Op) (q : Deadlines) → IsCounted q → IsCounted (run_ops ops q)
unfolding run_ops
run_ops-IsCounted [] q h = h
run_ops-IsCounted (op ∷ ops) q h = run_ops-IsCounted ops (run_op op q).0 (run_op-IsCounted op q h)

reached-IsCounted : (ops : List Op) → IsCounted (run_ops ops no_deadlines)
unfolding live_count
reached-IsCounted ops = run_ops-IsCounted ops no_deadlines (tt, λ v. refl)

-- a compaction leaves one entry for each live key
length-compact :
    (venue : String) (q : Deadlines)
    → IsCounted q
    → length (heap_of venue (compact venue q)) ≡ q.active venue
unfolding compact
length-compact venue q (u, h) =
    rw
      (
        heap_of-put venue venue (live_heap venue q.values q) q,
        (string_eq.beq_iff venue venue).1 refl,
      )
      (length-live_heap venue q.values q ∙ sym (h venue))

under_max : (n : ℕ) → n ≤ max 1024 (n * 4)
under_max n = ground arith

not_above : (n m : ℕ) → ltb m n ≡ false → n ≤ m
not_above n m h = ground arith

schedule-length :
    (key : Key) (d : ℕ) (q : Deadlines)
    → IsCounted q
    → length (heap_of key.venue (schedule key d q))
      ≤ max 1024 ((schedule key d q).active key.venue * 4)
unfolding schedule
schedule-length key d q h =
    let entered = enter key d q in
    let big = ltb (max 1024 (entered.active key.venue * 4)) (length (heap_of key.venue entered)) in
    elim (Bool-cases big) [
      | inl b ↦
          rw (b, length-compact key.venue entered (enter-IsCounted key d q h))
            (under_max (entered.active key.venue))
      | inr b ↦ rw b (
          not_above (length (heap_of key.venue entered)) (max 1024 (entered.active key.venue * 4))
            b)
    ]

-- after any sequence of operations from the empty queue, a scheduling leaves a heap of at most 1024
-- entries or four for each live key of the venue, whichever is more, and the counter of a venue is the
-- number of its live keys
pub schedule-bounded :
    (ops : List Op) (key : Key) (d : ℕ) (venue : String)
    → let q = schedule key d (run_ops ops no_deadlines) in
      (length (heap_of key.venue q) ≤ max 1024 (live_count key.venue q.values * 4))
      × (q.active venue ≡ live_count venue q.values)
schedule-bounded ops key d venue =
    let old = run_ops ops no_deadlines in
    let counted = schedule-IsCounted key d old (reached-IsCounted ops) in
    (
      subst (λ n. length (heap_of key.venue (schedule key d old)) ≤ max 1024 (n * 4))
          (counted.1 key.venue) (schedule-length key d old (reached-IsCounted ops)),
      counted.1 venue,
    )
