-- ===== src/Transport/Bounded.antt =====
-- A bounded retry budget ends, and is not overspent.
use pmkt_core.Prelude.{
  ℕ, zero, suc, ◌+◌, ◌-◌, ◌≤◌, ◌≡◌, Bool, true, false, not, ◌&&◌, ◌||◌, Option, none, some,
  if◌then◌else◌, arith, to_nat, inl, inr, Bool-cases,
}
use pmkt_core.Transport.Budget.{
  Outcome, connected, late, lost, failed, Round, WebSocketRetryBudget, available, expired,
  use_retry, begin_turn, Begun, ready, stopped, Turn, ended, again, note_error, attempt, turn,
  run_from, run, Ending,
}

-- a result, with at most m retries used
abbrev pub EndsWithin : ℕ → Option (Ending × WebSocketRetryBudget) → Type 0
EndsWithin m none = ⊥
EndsWithin m (some (ending, after)) = after.used ≤ m

-- a budget of m after a turn from `used` retries, one of which the turn may have needed
abbrev Left : ℕ → ℕ → Turn → Type 0
Left m used (ended ending after) = after.used ≤ m
Left m used (again after) = (after.max_reconnects ≡ some m) × (used ≤ after.used) × (after.used ≤ m)

abbrev Started : ℕ → ℕ → Begun → Type 0
Started m used (stopped ending after) = after.used ≤ m
Started m used (ready after) =
    (after.max_reconnects ≡ some m) × (used ≤ after.used) × (after.used ≤ m)

attempt-Left :
    (m used : ℕ) (allow : Bool) (o : Outcome) (b : WebSocketRetryBudget)
    → b.max_reconnects ≡ some m
    → used ≤ b.used
    → b.used ≤ m
    → Left m used (attempt allow o b)
unfolding attempt note_error
attempt-Left m used allow connected b e g h = h
attempt-Left m used allow late b e g h = h
attempt-Left m used allow (failed error) b e g h = h
attempt-Left m used allow (lost error) b e g h =
    elim (Bool-cases (not allow || not (available b))) [ inl z ↦ rw z h | inr z ↦ rw z (e, g, h) ]

available-room :
    (m : ℕ) (b : WebSocketRetryBudget)
    → b.max_reconnects ≡ some m
    → available b ≡ true
    → b.used + 1 ≤ m
unfolding available
available-room m b e = rw e (λ h. ground arith)

begin_turn-Started :
    (m : ℕ) (needs immediate : Bool) (round : Round) (b : WebSocketRetryBudget)
    → b.max_reconnects ≡ some m
    → b.used ≤ m
    → Started m (b.used + to_nat needs) (begin_turn needs immediate round b)
unfolding begin_turn use_retry
begin_turn-Started m needs immediate round b e h =
    elim (Bool-cases (expired b round.clock_at_start)) [
      | inl x ↦ rw x h
      | inr x ↦ rw x (started needs)
    ]
  where
    late_or_ready :
        available b ≡ true
        → Started m (b.used + 1) (
            if expired b round.clock_after_sleep
            then stopped Ending.deadline_exceeded (use_retry immediate b)
            else ready (use_retry immediate b))
    late_or_ready z =
        let room = available-room m b e z in
        elim (Bool-cases (expired b round.clock_after_sleep)) [
          | inl y ↦ rw y room
          | inr y ↦ rw y (e, omega arith, room)
        ]

    started :
        (needs : Bool)
        → Started m (b.used + to_nat needs) (
            if not needs
            then ready b
            else if not (available b)
            then stopped Ending.exhausted b
            else if expired b round.clock_after_sleep
            then stopped Ending.deadline_exceeded (use_retry immediate b)
            else ready (use_retry immediate b))
    started false = (e, omega arith, h)
    started true = elim (Bool-cases (available b)) [
      | inr z ↦ rw z h
      | inl z ↦ rw z (late_or_ready z)
    ]

turn-Left :
    (m : ℕ) (allow needs immediate : Bool) (round : Round) (b : WebSocketRetryBudget)
    → b.max_reconnects ≡ some m
    → b.used ≤ m
    → Left m (b.used + to_nat needs) (turn allow needs immediate round b)
unfolding turn
turn-Left m allow needs immediate round b e h =
    follow (begin_turn needs immediate round b) (begin_turn-Started m needs immediate round b e h)
  where
    follow :
        (x : Begun)
        → Started m (b.used + to_nat needs) x
        → Left m (b.used + to_nat needs) (elim x [
          | stopped ending after ↦ ended ending after
          | ready after ↦ attempt allow round.outcome after
        ])
    follow (stopped ending after) k = k
    follow (ready after) k =
        attempt-Left m (b.used + to_nat needs) allow round.outcome after k.0 k.1 k.2

run_from-EndsWithin :
    (m fuel : ℕ) (rounds : ℕ → Round) (allow needs immediate : Bool) (i : ℕ)
    (b : WebSocketRetryBudget)
    → b.max_reconnects ≡ some m
    → b.used ≤ m
    → m + 2 ≤ fuel + b.used + to_nat needs
    → EndsWithin m (run_from fuel rounds allow needs immediate i b)
unfolding run_from
run_from-EndsWithin m zero rounds allow needs immediate i b e h f = absurd (few needs f)
  where
    few : (needs : Bool) → m + 2 ≤ 0 + b.used + to_nat needs → ⊥
    few true f = omega arith
    few false f = omega arith
run_from-EndsWithin m (suc fuel) rounds allow needs immediate i b e h f =
    go (turn allow needs immediate (rounds i) b)
      (turn-Left m allow needs immediate (rounds i) b e h)
      (λ after x y z.
        run_from-EndsWithin m fuel rounds allow true (immediate && not needs) (i + 1) after x y z)
  where
    go :
        (x : Turn)
        → Left m (b.used + to_nat needs) x
        → ((after : WebSocketRetryBudget)
            → after.max_reconnects ≡ some m
            → after.used ≤ m
            → m + 2 ≤ fuel + after.used + 1
            → EndsWithin m (run_from fuel rounds allow true (immediate && not needs) (i + 1) after))
        → EndsWithin m (elim x [
          | ended ending after ↦ some (ending, after)
          | again after ↦ run_from fuel rounds allow true (immediate && not needs) (i + 1) after
        ])
    go (ended ending after) k rest = k
    go (again after) k rest = rest after k.0 k.2 (omega (arith, k.1))

-- With a budget of m retries of which no more than m are used, `run` ends within m - used + 2 turns,
-- whatever the clock shows and the operation does, and never uses more than m retries.
pub run-EndsWithin :
    (m : ℕ) (rounds : ℕ → Round) (retry_first immediate_first allow : Bool)
    (b : WebSocketRetryBudget)
    → b.max_reconnects ≡ some m
    → b.used ≤ m
    → EndsWithin m (run ((m - b.used) + 2) rounds retry_first immediate_first allow b)
unfolding run
run-EndsWithin m rounds retry_first immediate_first allow b e h =
    run_from-EndsWithin m ((m - b.used) + 2) rounds allow retry_first immediate_first 0 b e h
      (omega arith)
