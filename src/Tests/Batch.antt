-- ===== src/Tests/Batch.antt =====
-- The theorem on batches at a concrete order of steps.
use pmkt_core.Prelude.{ℕ, ◌+◌, ◌≡◌, refl, List, [], ◌∷◌, some, arith, length, min}
use pmkt_core.Resolution.Batch.{
  Batch, start, advance, store, delivered, Reached, begun, entered, answered, Answered, element,
}
use pmkt_core.Resolution.Batch.Ordered.{delivered-Answered}

abbrev inputs : List ℕ
inputs = 10 ∷ 20 ∷ []

-- the answer for an input is the next number
abbrev Next : ℕ → ℕ → Type 0
Next p r = r ≡ p + 1

-- two workers, of which the second has its answer first
abbrev both_busy : Batch ℕ
both_busy = advance inputs 1 (advance inputs 0 (start 2 inputs))

abbrev second_done : Batch ℕ
second_done = advance inputs 1 (store 1 21 both_busy)

abbrev both_done : Batch ℕ
both_done = advance inputs 0 (store 0 11 second_done)

both_done-Reached : Reached Next 2 inputs both_done
unfolding start advance store element
both_done-Reached =
    answered 0 0 10 11 second_done
      (answered 1 1 20 21 both_busy
        (entered 1 (advance inputs 0 (start 2 inputs)) (entered 0 (start 2 inputs) begun refl) refl)
        refl refl refl)
      refl refl refl

both_results : delivered inputs both_done ≡ some (11 ∷ 21 ∷ [])
unfolding start advance store delivered
both_results = refl

delivered-Answered_example :
    ((rs : List ℕ) × (delivered inputs both_done ≡ some rs) × Answered Next inputs rs)
    × (length both_done.workers ≡ min 2 (length inputs))
unfolding start advance store
delivered-Answered_example =
    delivered-Answered Next inputs 2 both_done (omega arith) both_done-Reached refl
