-- ===== src/Streaming/Deadlines/Spec.antt =====
-- The deadlines as an abstract map from keys to deadlines: scheduling sets a deadline, cancelling removes
-- it, and a check of a venue removes those of the venue's deadlines that are due.
use pmkt_core.Prelude.{
  ℕ, ◌*◌, ◌≡◌, refl, Bool, false, ◌&&◌, List, [], ◌∷◌, Option, none, some, String, if◌then◌else◌,
  ltb, max, string_eq, nat_eq, ◌==◌, length, inl, inr, Bool-cases,
}
use pmkt_core.Collections.Dict.{get}
use pmkt_core.Collections.Sets.{mem}
use pmkt_core.Streaming.Deadlines.{
  Key, key_eq, Deadlines, no_deadlines, heap_of, compact, enter, schedule, cancel, expire_venue,
}
use pmkt_core.Streaming.Deadlines.Popping.{waiting, is_due}
use pmkt_core.Streaming.Deadlines.Queue.{
  IsQueue, compact-IsQueue, enter-IsQueue, cancel-IsQueue, get-enter, get-cancel,
}
use pmkt_core.Streaming.Deadlines.Expiry.{get-expire, mem-expire, expire-IsQueue}

pub data Op : Type 0 where
  set : Key → ℕ → Op
  unset : Key → Op
  check : ℕ → String → Op

-- what the queue does; a check returns the keys that it handled
unfoldable pub run_op : Op → Deadlines → Deadlines × List Key
unfolding schedule cancel expire_venue
run_op (Op.set key d) q = (schedule key d q, [])
run_op (Op.unset key) q = (cancel key q, [])
run_op (Op.check now venue) q = expire_venue ◌∷◌ now venue q []

unfoldable pub run_ops : List Op → Deadlines → Deadlines
unfolding run_op
run_ops [] q = q
run_ops (op ∷ ops) q = run_ops ops (run_op op q).0

-- the abstract map
abbrev pub Table : Type 0
Table = Key → Option ℕ

abbrev pub step : Op → Table → Table
step (Op.set key d) t k = if key == k then some d else t k
step (Op.unset key) t k = if key == k then none else t k
step (Op.check now venue) t k = if k.venue == venue then waiting now (t k) else t k

abbrev pub steps : List Op → Table → Table
steps [] t = t
steps (op ∷ ops) t = steps ops (step op t)

abbrev pub handled : Op → Table → Key → Bool
handled (Op.set key d) t k = false
handled (Op.unset key) t k = false
handled (Op.check now venue) t k = (k.venue == venue) && is_due now (t k)

pub no_deadlines-IsQueue : IsQueue no_deadlines
unfolding heap_of
no_deadlines-IsQueue v = record {
  ordered = tt;
  housed = refl;
  covered = λ k d w g. absurd cc;
  generated = λ k d w g. absurd cc;
}

pub get-schedule :
    (key : Key) (d : ℕ) (q : Deadlines) (k : Key)
    → get k (schedule key d q).values ≡ (if key == k then some d else get k q.values)
unfolding schedule compact
get-schedule key d q k =
    let big =
      ltb (max 1024 ((enter key d q).active key.venue * 4))
        (length (heap_of key.venue (enter key d q))) in
    elim (Bool-cases big) [
      | inl b ↦ rw b (get-enter key d q k)
      | inr b ↦ rw b (get-enter key d q k)
    ]

pub schedule-IsQueue : (key : Key) (d : ℕ) (q : Deadlines) → IsQueue q → IsQueue (schedule key d q)
unfolding schedule
schedule-IsQueue key d q h =
    let big =
      ltb (max 1024 ((enter key d q).active key.venue * 4))
        (length (heap_of key.venue (enter key d q))) in
    elim (Bool-cases big) [
      | inl b ↦ rw b (compact-IsQueue key.venue (enter key d q) (enter-IsQueue key d q h))
      | inr b ↦ rw b (enter-IsQueue key d q h)
    ]

run_op-IsQueue : (op : Op) (q : Deadlines) → IsQueue q → IsQueue (run_op op q).0
unfolding run_op
run_op-IsQueue (Op.set key d) q h = schedule-IsQueue key d q h
run_op-IsQueue (Op.unset key) q h = cancel-IsQueue key q h
run_op-IsQueue (Op.check now venue) q h = expire-IsQueue now venue q h

-- the queue stands for the table
abbrev pub Refines : Deadlines → Table → Type 0
Refines q t = IsQueue q × ((k : Key) → get k q.values ≡ t k)

run_op-Refines :
    (op : Op) (q : Deadlines) (t : Table) → Refines q t → Refines (run_op op q).0 (step op t)
unfolding run_op
run_op-Refines op q t (h, same) = (run_op-IsQueue op q h, values op)
  where
    values : (op : Op) (k : Key) → get k (run_op op q).0.values ≡ step op t k
    values (Op.set key d) k = rw (get-schedule key d q k, same k) refl
    values (Op.unset key) k = rw (get-cancel key q k, same k) refl
    values (Op.check now venue) k = rw (get-expire now venue q h k, same k) refl

run_op-handled :
    (op : Op) (q : Deadlines) (t : Table) (k : Key)
    → Refines q t
    → mem k (run_op op q).1 ≡ handled op t k
unfolding run_op mem
run_op-handled (Op.set key d) q t k h = refl
run_op-handled (Op.unset key) q t k h = refl
run_op-handled (Op.check now venue) q t k (h, same) = rw (mem-expire now venue q h k, same k) refl

run_ops-Refines :
    (ops : List Op) (q : Deadlines) (t : Table)
    → Refines q t
    → Refines (run_ops ops q) (steps ops t)
unfolding run_ops
run_ops-Refines [] q t h = h
run_ops-Refines (op ∷ ops) q t h =
    run_ops-Refines ops (run_op op q).0 (step op t) (run_op-Refines op q t h)

abbrev pub no_entries : Table
no_entries k = none

pub reached-Refines : (ops : List Op) → Refines (run_ops ops no_deadlines) (steps ops no_entries)
unfolding get
reached-Refines ops = run_ops-Refines ops no_deadlines no_entries (no_deadlines-IsQueue, λ k. refl)

-- after any sequence of schedulings, cancellations and checks from the empty queue, the deadline of each
-- key is the one of the abstract map, and a further operation handles exactly the keys that the abstract
-- map has due: the keys of the checked venue with a deadline that is not later than now
pub run_op-refine :
    (ops : List Op) (op : Op) (k : Key)
    → (get k (run_ops ops no_deadlines).values ≡ steps ops no_entries k)
      × (mem k (run_op op (run_ops ops no_deadlines)).1 ≡ handled op (steps ops no_entries) k)
run_op-refine ops op k =
    let h = reached-Refines ops in
    (h.1 k, run_op-handled op (run_ops ops no_deadlines) (steps ops no_entries) k h)
