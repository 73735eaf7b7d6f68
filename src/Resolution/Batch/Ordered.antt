-- ===== src/Resolution/Batch/Ordered.antt =====
-- A batch whose workers have all returned has an answer for each input, in the order of the inputs.
use pmkt_core.Prelude.{
  ◌⊎◌, ℕ, suc, ◌+◌, ◌≤◌, ◌<◌, ◌≡◌, refl, sym, ◌∙◌, true, false, List, [], ◌∷◌, Option, some, ltb,
  leb, min, nat_eq, ◌==◌, length, all, any, inl, inr, Bool-cases, arith,
}
use mathlib.Core.Option.{some-injective}
use mathlib.Core.Path.{subst}
use pmkt_core.Resolution.Batch.{
  Worker, created, finished, busy, Batch, element, set_element, is_finished, start, advance, store,
  collect, delivered, Reached, begun, entered, answered, Answered, no_inputs, next_input,
}
use pmkt_core.Resolution.Batch.Workers.{
  is_busy, busy_at, busy_at-set, busy_at-new, length-set, not_busy, one_finished, any_finished-set,
  none_finished, length-repeated,
}

module _ {P R : Type 0} (answers : P → R → Type 0) (prepared : List P) where
  -- the input of an index has its answer
  abbrev Resolved : (ℕ → Option R) → ℕ → Type 0
  Resolved results i =
      (p : P) × (r : R) × (element i prepared ≡ some p) × (results i ≡ some r) × answers p r

  record IsBatch (b : Batch R) : Type 0 where
    bound : b.next_index ≤ length prepared
    taken :
        (i : ℕ) → ltb i b.next_index ≡ true → Resolved b.results i ⊎ (busy_at i b.workers ≡ true)
    returned : any is_finished b.workers ≡ true → leb (length prepared) b.next_index ≡ true

  -- a worker that may go on: what it was busy with is resolved
  advance-IsBatch :
      (k : ℕ) (v : Worker) (b : Batch R)
      → element k b.workers ≡ some v
      → b.next_index ≤ length prepared
      → ((i : ℕ)
          → ltb i b.next_index ≡ true
          → Resolved b.results i ⊎ ((busy_at i b.workers ≡ true) × (is_busy i v ≡ false)))
      → (any is_finished b.workers ≡ true → leb (length prepared) b.next_index ≡ true)
      → IsBatch (advance prepared k b)
  unfolding advance
  advance-IsBatch k v b e bound taken returned =
      elim (Bool-cases (ltb b.next_index (length prepared))) [
        | inl l ↦ rw l record {
          bound = ground arith;
          taken = λ i h. elim (Bool-cases (i == b.next_index)) [
            | inl same ↦ inr (
                subst (λ j. busy_at j (set_element k (busy b.next_index) b.workers) ≡ true)
                  (sym ((nat_eq.beq_iff i b.next_index).0 same))
                  (busy_at-new b.next_index k v b.workers e))
            | inr other ↦ elim (taken i (ground arith)) [
              | inl r ↦ inl r
              | inr (at, free) ↦ inr (busy_at-set i k (busy b.next_index) v b.workers e free at)
            ]
          ];
          returned = λ h.
              let some_returned : any is_finished b.workers ≡ true =
                any_finished-set k (busy b.next_index) v b.workers e h in
              let end = returned some_returned in ground arith;
        }
        | inr l ↦ rw l record {
          bound = bound;
          taken = λ i h. elim (taken i h) [
            | inl r ↦ inl r
            | inr (at, free) ↦ inr (busy_at-set i k finished v b.workers e free at)
          ];
          returned = λ h. ground arith;
        }
      ]

  store-Resolved :
      (b : Batch R) (i : ℕ) (p : P) (r : R) (j : ℕ)
      → element i prepared ≡ some p
      → answers p r
      → Resolved b.results j ⊎ (busy_at j b.workers ≡ true)
      → Resolved (store i r b).results j
        ⊎ ((busy_at j b.workers ≡ true) × (is_busy j (busy i) ≡ false))
  unfolding store
  store-Resolved b i p r j e a h = elim (Bool-cases (j == i)) [
    | inl same ↦
        let here : element j prepared ≡ some p =
          subst (λ x. element x prepared ≡ some p) (sym ((nat_eq.beq_iff j i).0 same)) e in
        inl (p, r, here, rw same refl, a)
    | inr other ↦ elim h [
      | inl (q, s, f, g, c) ↦ inl (q, s, f, rw other g, c)
      | inr at ↦ inr (at, other)
    ]
  ]

  module _ (concurrency : ℕ) where
    Reached-IsBatch : (b : Batch R) → Reached answers concurrency prepared b → IsBatch b
    unfolding start store
    Reached-IsBatch _ begun = record {
      bound = ground arith;
      taken = λ i h. absurd (ground arith);
      returned = λ h.
          let nothing = none_finished (min concurrency (length prepared)) in
          absurd (cc (h, nothing));
    }
    Reached-IsBatch _ (entered k b r e) =
        let inv = Reached-IsBatch b r in
        advance-IsBatch k created b e inv.bound
          (λ i h. elim (inv.taken i h) [ inl x ↦ inl x | inr at ↦ inr (at, refl) ]) inv.returned
    Reached-IsBatch _ (answered k i p x b r e f a) =
        let inv = Reached-IsBatch b r in
        advance-IsBatch k (busy i) (store i x b) e inv.bound
          (λ j h. store-Resolved b i p x j f a (inv.taken j h)) inv.returned

    length-advance :
        (k : ℕ) (b : Batch R) → length (advance prepared k b).workers ≡ length b.workers
    unfolding advance
    length-advance k b = elim (Bool-cases (ltb b.next_index (length prepared))) [
      | inl l ↦ rw l (length-set k (busy b.next_index) b.workers)
      | inr l ↦ rw l (length-set k finished b.workers)
    ]

    -- the number of tasks never changes
    length-Reached :
        (b : Batch R)
        → Reached answers concurrency prepared b
        → length b.workers ≡ min concurrency (length prepared)
    unfolding start store
    length-Reached _ begun = length-repeated (min concurrency (length prepared))
    length-Reached _ (entered k b r e) = length-advance k b ∙ length-Reached b r
    length-Reached _ (answered k i p x b r e f a) =
        length-advance k (store i x b) ∙ length-Reached b r

  collect-Answered :
      (ps : List P) (i : ℕ) (results : ℕ → Option R)
      → ((j m : ℕ)
          → m ≡ i + j
          → ltb j (length ps) ≡ true
          → (p : P) × (r : R) × (element j ps ≡ some p) × (results m ≡ some r) × answers p r)
      → (rs : List R) × (collect ps i results ≡ some rs) × Answered answers ps rs
  unfolding collect element
  collect-Answered [] i results h = ([], refl, no_inputs)
  collect-Answered (p ∷ ps) i results h =
      let (q, r, e, f, a) = h 0 i (omega arith) (ground arith) in
      let (rs, g, c) =
        collect-Answered ps (i + 1) results
          (λ j m same below. h (suc j) m (omega arith) (ground arith)) in
      (
        r ∷ rs,
        rw (f, g) refl,
        next_input p r ps rs (subst (λ x. answers x r) (sym (some-injective p q e)) a) c,
      )

  all-Resolved :
      (concurrency : ℕ) (b : Batch R)
      → 0 < concurrency
      → Reached answers concurrency prepared b
      → all is_finished b.workers ≡ true
      → (j : ℕ) → ltb j (length prepared) ≡ true
      → Resolved b.results j
  all-Resolved concurrency b c reached end j below =
      let inv = Reached-IsBatch concurrency b reached in
      let size = length-Reached concurrency b reached in
      let one = one_finished b.workers end (ground arith) in
      let through = inv.returned one in
      elim (inv.taken j (ground arith)) [
        | inl r ↦ r
        | inr at ↦ absurd (cc (at, not_busy j b.workers end))
      ]

  -- if the concurrency is positive and all workers have returned, then whatever the order of their steps
  -- was the batch returns a list, which has an answer for each input in the order of the inputs; and there
  -- never are more workers than the concurrency and than the inputs
  pub delivered-Answered :
      (concurrency : ℕ) (b : Batch R)
      → 0 < concurrency
      → Reached answers concurrency prepared b
      → all is_finished b.workers ≡ true
      → ((rs : List R) × (delivered prepared b ≡ some rs) × Answered answers prepared rs)
        × (length b.workers ≡ min concurrency (length prepared))
  unfolding delivered
  delivered-Answered concurrency b c reached end = (
    collect-Answered prepared 0 b.results (λ j m same below.
        subst
          (λ x.
            Path ℕ x x
            → (p : P) × (r : R) × (element j prepared ≡ some p)
              × (b.results x ≡ some r)
              × answers p r)
          (omega arith) (λ _. all-Resolved concurrency b c reached end j below) refl),
    length-Reached concurrency b reached,
  )
