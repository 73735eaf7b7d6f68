-- ===== src/Tests/Transport.antt =====
-- The theorem on the retry budget at a concrete input.
use pmkt_core.Prelude.{ℕ, refl, true, false, [], none, some, if◌then◌else◌, leb, arith, ◌+◌, ◌-◌}
use pmkt_core.Transport.Budget.{WebSocketRetryBudget, Round, connected, lost, run}
use pmkt_core.Transport.Bounded.{EndsWithin, run-EndsWithin}

abbrev budget : WebSocketRetryBudget
budget = record {
  max_reconnects = some 3;
  backoff = 5;
  max_backoff = some 8;
  deadline = some 1000;
  used = 1;
  last_error = none;
  failed_setup = false;
  waits = [];
}

-- the first operation is lost, the next connects
abbrev rounds : ℕ → Round
rounds i = record {
  clock_at_start = i;
  clock_after_sleep = i;
  outcome = (if leb i 0 then lost "OSError" else connected);
}

run-EndsWithin_example : EndsWithin 3 (run ((3 - 1) + 2) rounds false true true budget)
run-EndsWithin_example = run-EndsWithin 3 rounds false true true budget refl (omega arith)
