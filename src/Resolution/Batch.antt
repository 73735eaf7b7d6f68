-- ===== src/Resolution/Batch.antt =====
-- `resolve_ordered_batch` of src/pmkt/resolution/_batch.py: workers that share the next index and the
-- results. A worker runs from one await to the next at once, so a step is what it does between them;
-- the steps of the workers come in any order. The list of results, of a fixed length, is a function.
-- An exception of a worker, of the preparation or of the deadline ends the batch without a result, and
-- is no step.
pub mod Ordered
pub mod Workers
use pmkt_core.Prelude.{
  ℕ, zero, suc, ◌+◌, ◌≡◌, Bool, true, false, not, ◌&&◌, ◌||◌, List, [], ◌∷◌, Option, none, some,
  if◌then◌else◌, ltb, min, nat_eq, ◌==◌, length, all,
}
use pmkt_core.Streaming.Projection.{◌>>=◌}

pub data Worker : Type 0 where
  -- a task that has not run, one that waits for its answer, and one that has returned
  created finished : Worker
  busy : ℕ → Worker

pub record Batch (R : Type 0) : Type 0 where
  pub next_index : ℕ
  pub results : ℕ → Option R
  pub workers : List Worker

-- an element by its position
unfoldable pub element : {A : Type 0} → ℕ → List A → Option A
element i [] = none
element zero (x ∷ xs) = some x
element (suc i) (x ∷ xs) = element i xs

unfoldable pub set_element : {A : Type 0} → ℕ → A → List A → List A
set_element i y [] = []
set_element zero y (x ∷ xs) = y ∷ xs
set_element (suc i) y (x ∷ xs) = x ∷ set_element i y xs

unfoldable pub repeated : {A : Type 0} → ℕ → A → List A
repeated zero x = []
repeated (suc n) x = x ∷ repeated n x

abbrev pub is_finished : Worker → Bool
is_finished finished = true
is_finished _ = false

-- results[index] = answer
unfoldable pub store : {R : Type 0} → ℕ → R → Batch R → Batch R
store i answer b = record b { results = λ j. if j == i then some answer else b.results j }

module _ {P R : Type 0} where
  -- the tasks are created
  unfoldable pub start : ℕ → List P → Batch R
  unfolding repeated
  start concurrency prepared = record {
    next_index = 0;
    results = λ i. none;
    workers = repeated (min concurrency (length prepared)) created;
  }

  -- a worker takes the next index, or returns
  unfoldable pub advance : List P → ℕ → Batch R → Batch R
  unfolding set_element
  advance prepared k b =
      if ltb b.next_index (length prepared)
      then record b {
        next_index = b.next_index + 1;
        workers = set_element k (busy b.next_index) b.workers;
      }
      else record b { workers = set_element k finished b.workers }

  -- the results from an index on, `none` where one is missing
  unfoldable pub collect : List P → ℕ → (ℕ → Option R) → Option (List R)
  collect [] i results = some []
  collect (p ∷ prepared) i results =
      results i >>= λ r. collect prepared (i + 1) results >>= λ rest. some (r ∷ rest)

  -- what the batch returns when all workers have; `none` is the RuntimeError of a missing result
  unfoldable pub delivered : List P → Batch R → Option (List R)
  unfolding collect
  delivered prepared b = collect prepared 0 b.results

-- the states of a batch; `answers p r` says that resolve_one may answer r for p
pub data Reached {P R : Type 0} (answers : P → R → Type 0) (concurrency : ℕ) (prepared : List P)
    : Batch R → Type 0 where
  begun : Reached answers concurrency prepared (start concurrency prepared)
  entered :
      (k : ℕ) (b : Batch R)
      → Reached answers concurrency prepared b
      → element k b.workers ≡ some created
      → Reached answers concurrency prepared (advance prepared k b)
  answered :
      (k i : ℕ) (p : P) (r : R) (b : Batch R)
      → Reached answers concurrency prepared b
      → element k b.workers ≡ some (busy i)
      → element i prepared ≡ some p
      → answers p r
      → Reached answers concurrency prepared (advance prepared k (store i r b))

-- an answer for each input, in the order of the inputs
pub data Answered {P R : Type 0} (answers : P → R → Type 0) : List P → List R → Type 0 where
  no_inputs : Answered answers [] []
  next_input :
      (p : P) (r : R) (ps : List P) (rs : List R)
      → answers p r
      → Answered answers ps rs
      → Answered answers (p ∷ ps) (r ∷ rs)
