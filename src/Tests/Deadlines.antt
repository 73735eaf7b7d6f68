-- ===== src/Tests/Deadlines.antt =====
-- The theorems on the deadlines at concrete inputs.
use pmkt_core.Prelude.{refl, [], ◌∷◌, List, ◌≡◌, ◌≤◌, ◌*◌, max, length, nat_eq, string_eq}
use pmkt_core.Collections.Dict.{get}
use pmkt_core.Collections.Sets.{mem}
use pmkt_core.Streaming.Deadlines.{Key, key_eq, no_deadlines, schedule, heap_of}
use pmkt_core.Streaming.Deadlines.Spec.{
  Op, run_op, run_ops, steps, handled, no_entries, run_op-refine,
}
use pmkt_core.Streaming.Deadlines.Counts.{live_count}
use pmkt_core.Streaming.Deadlines.Bounds.{schedule-bounded}

abbrev message_key : Key
message_key = record { venue = "kalshi"; shard_id = "s1"; instrument = "A"; kind = "message" }

abbrev book_key : Key
book_key = record { venue = "kalshi"; shard_id = "s1"; instrument = "A"; kind = "book" }

-- the deadline of the message is moved, that of the book cancelled and set again
abbrev ops : List Op
ops =
    Op.set message_key 10
    ∷ Op.set book_key 20
    ∷ Op.set message_key 30
    ∷ Op.unset book_key
    ∷ Op.check 12 "kalshi"
    ∷ Op.set book_key 25
    ∷ []

run_op-refine_example :
    (get book_key (run_ops ops no_deadlines).values ≡ steps ops no_entries book_key)
    × (mem book_key (run_op (Op.check 27 "kalshi") (run_ops ops no_deadlines)).1
        ≡ handled (Op.check 27 "kalshi") (steps ops no_entries) book_key)
run_op-refine_example = run_op-refine ops (Op.check 27 "kalshi") book_key

-- the check at 27 handles the book and not the message
check_at_27 : (run_op (Op.check 27 "kalshi") (run_ops ops no_deadlines)).1 ≡ (book_key ∷ [])
unfolding run_op run_ops
check_at_27 = refl

schedule-bounded_example :
    let q = schedule message_key 40 (run_ops ops no_deadlines) in
    (length (heap_of "kalshi" q) ≤ max 1024 (live_count "kalshi" q.values * 4))
    × (q.active "kalshi" ≡ live_count "kalshi" q.values)
schedule-bounded_example = schedule-bounded ops message_key 40 "kalshi"
