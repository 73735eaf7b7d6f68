-- ===== src/Transport/Budget.antt =====
-- `WebSocketRetryBudget` of src/pmkt/exchanges/ws_transport.py. What the clock shows and how the
-- operation ends is told by a `Round` for each turn of the loop; the callbacks are left out, and
-- the delays that are slept are kept in `waits`, the latest first.
use pmkt_core.Prelude.{
  ℕ, zero, suc, ◌+◌, ◌*◌, Bool, true, false, not, ◌&&◌, ◌||◌, List, ◌∷◌, Option, none, some, String,
  if◌then◌else◌, ltb, leb,
}

-- how an operation ends: it connects, meets the deadline, fails in a way that is tried again (a closed
-- connection, an OSError, a timeout, the teardown race), or fails otherwise
pub data Outcome : Type 0 where
  connected late : Outcome
  lost failed : String → Outcome

pub record Round : Type 0 where
  pub clock_at_start : ℕ
  -- the clock once the sleep is over or its deadline has come
  pub clock_after_sleep : ℕ
  pub outcome : Outcome

pub record WebSocketRetryBudget : Type 0 where
  pub max_reconnects : Option ℕ
  pub backoff : ℕ
  pub max_backoff : Option ℕ
  pub deadline : Option ℕ
  pub used : ℕ
  pub last_error : Option String
  -- retry_context is the one of a failed connection setup
  pub failed_setup : Bool
  pub waits : List ℕ

unfoldable pub available : WebSocketRetryBudget → Bool
available b = elim b.max_reconnects [ none ↦ true | some n ↦ ltb b.used n ]

-- check_deadline raises
unfoldable pub expired : WebSocketRetryBudget → ℕ → Bool
expired b clock = elim b.deadline [ none ↦ false | some deadline ↦ leb deadline clock ]

abbrev capped : Option ℕ → ℕ → ℕ
capped none delay = delay
capped (some limit) delay = if leb delay limit then delay else limit

-- delay of the replacement attempt with that number
unfoldable pub delay_of : WebSocketRetryBudget → ℕ → ℕ
delay_of b attempt = capped b.max_backoff (b.backoff * attempt)

-- how `run` ends: it returns, or raises WebSocketDeadlineExceeded, the ConnectionError of an exhausted
-- budget, or what the operation raised
pub data Ending : Type 0 where
  returned deadline_exceeded exhausted : Ending
  raised : String → Ending

pub data Begun : Type 0 where
  ready : WebSocketRetryBudget → Begun
  stopped : Ending → WebSocketRetryBudget → Begun

unfoldable pub use_retry : Bool → WebSocketRetryBudget → WebSocketRetryBudget
unfolding delay_of
use_retry immediate b = record b {
  used = b.used + 1;
  waits = (if immediate then b.waits else delay_of b (b.used + 1) ∷ b.waits);
}

-- a turn of the loop up to the operation
unfoldable pub begin_turn : Bool → Bool → Round → WebSocketRetryBudget → Begun
unfolding available expired use_retry
begin_turn needs_retry immediate round b =
    if expired b round.clock_at_start
    then stopped deadline_exceeded b
    else if not needs_retry
    then ready b
    else if not (available b)
    then stopped exhausted b
    else if expired b round.clock_after_sleep
    then stopped deadline_exceeded (use_retry immediate b)
    else ready (use_retry immediate b)

pub data Turn : Type 0 where
  ended : Ending → WebSocketRetryBudget → Turn
  again : WebSocketRetryBudget → Turn

unfoldable pub note_error : String → WebSocketRetryBudget → WebSocketRetryBudget
note_error error b = record b { last_error = some error; failed_setup = true }

unfoldable pub attempt : Bool → Outcome → WebSocketRetryBudget → Turn
unfolding available note_error
attempt allow_retry connected b =
    ended returned (record b { last_error = none; failed_setup = false })
attempt allow_retry late b = ended deadline_exceeded b
attempt allow_retry (failed error) b = ended (raised error) b
attempt allow_retry (lost error) b =
    if not allow_retry || not (available b)
    then ended (raised error) (note_error error b)
    else again (note_error error b)

unfoldable pub turn : Bool → Bool → Bool → Round → WebSocketRetryBudget → Turn
unfolding begin_turn attempt
turn allow_retry needs_retry immediate round b = elim (begin_turn needs_retry immediate round b) [
  | stopped ending after ↦ ended ending after
  | ready after ↦ attempt allow_retry round.outcome after
]

-- `run` from a turn on; `none` where the fuel is used up
unfoldable pub run_from :
    ℕ
    → (ℕ → Round)
    → Bool
    → Bool
    → Bool
    → ℕ
    → WebSocketRetryBudget
    → Option (Ending × WebSocketRetryBudget)
unfolding turn
run_from zero rounds allow_retry needs_retry immediate i b = none
run_from (suc fuel) rounds allow_retry needs_retry immediate i b =
    elim (turn allow_retry needs_retry immediate (rounds i) b) [
      | ended ending after ↦ some (ending, after)
      | again after ↦
          run_from fuel rounds allow_retry true (immediate && not needs_retry) (i + 1) after
    ]

-- run(operation, retry_first=..., immediate_first=..., allow_retry=...)
unfoldable pub run :
    ℕ
    → (ℕ → Round)
    → Bool
    → Bool
    → Bool
    → WebSocketRetryBudget
    → Option (Ending × WebSocketRetryBudget)
unfolding run_from
run fuel rounds retry_first immediate_first allow_retry b =
    run_from fuel rounds allow_retry retry_first immediate_first 0 b
