-- ===== src/Streaming/Deadlines/Expiry.antt =====
-- What a check of one venue does to the deadlines of a queue.
use mathlib.Core.Path.{subst}
use pmkt_core.Prelude.{
  ℕ, ◌≡◌, refl, ap, ◌∙◌, true, false, ◌&&◌, List, [], ◌∷◌, Option, none, some, String,
  if◌then◌else◌, string_eq, nat_eq, ◌==◌, or_else, arith, inl, inr, Bool-cases,
}
use pmkt_core.Collections.Dict.{get}
use pmkt_core.Collections.Sets.{mem}
use pmkt_core.Streaming.Deadlines.{Key, key_eq, Entry, Deadlines, heap_of, pop_due, expire_venue}
use pmkt_core.Streaming.Deadlines.Popping.{
  IsHeap, waiting, is_due, left-nil, no_value, pop_due-values,
}
use pmkt_core.Streaming.Deadlines.Checking.{
  mem-pop_due, mem-pop_due-other, generations-pop_due, pop_due-other_heap, pop_due-IsHeap,
}
use pmkt_core.Streaming.Deadlines.Queue.{IsQueue, IsHeap-same}

module _ (now : ℕ) (venue : String) (q : Deadlines) where
  abbrev pub expired : Option (List Entry) → Deadlines × List Key
  expired none = (q, [])
  expired (some heap) = pop_due ◌∷◌ now venue heap q []

  pub expire_venue-expired : expire_venue ◌∷◌ now venue q [] ≡ expired (get venue q.heaps)
  unfolding expire_venue
  expire_venue-expired = go (get venue q.heaps)
    where
      go :
          (o : Option (List Entry))
          → (elim o [ none ↦ (q, []) | some heap ↦ pop_due ◌∷◌ now venue heap q [] ]) ≡ expired o
      go none = refl
      go (some heap) = refl

module _ (now : ℕ) (venue : String) (q : Deadlines) (h : IsQueue q) where
  get-expired :
      (o : Option (List Entry)) (k : Key)
      → IsHeap venue (or_else o []) q
      → get k (expired now venue q o).0.values
        ≡ (if k.venue == venue then waiting now (get k q.values) else get k q.values)
  get-expired none k i = left-nil now venue q k i
  get-expired (some heap) k i = pop_due-values now venue ◌∷◌ heap q [] k i

  mem-expired :
      (o : Option (List Entry)) (k : Key)
      → IsHeap venue (or_else o []) q
      → mem k (expired now venue q o).1 ≡ ((k.venue == venue) && is_due now (get k q.values))
  unfolding mem
  mem-expired o k i = elim (Bool-cases (k.venue == venue)) [
    | inl v ↦ rw v (at_venue o i v)
    | inr n ↦ rw n (elsewhere o i n)
  ]
    where
      at_venue :
          (o : Option (List Entry))
          → IsHeap venue (or_else o []) q
          → (k.venue == venue) ≡ true
          → mem k (expired now venue q o).1 ≡ is_due now (get k q.values)
      at_venue none i v = rw (no_value venue q k i v) refl
      at_venue (some heap) i v = mem-pop_due now venue heap q [] k i v

      elsewhere :
          (o : Option (List Entry))
          → IsHeap venue (or_else o []) q
          → (k.venue == venue) ≡ false
          → mem k (expired now venue q o).1 ≡ false
      elsewhere none i n = refl
      elsewhere (some heap) i n = mem-pop_due-other now venue heap q [] k i.housed n

  expired-IsHeap :
      (o : Option (List Entry))
      → get venue q.heaps ≡ o
      → IsHeap venue (or_else o []) q
      → IsHeap venue (heap_of venue (expired now venue q o).0) (expired now venue q o).0
  expired-IsHeap none e i = h venue
  expired-IsHeap (some heap) e i = pop_due-IsHeap now venue ◌∷◌ heap q [] i

  expired-other_heap :
      (o : Option (List Entry)) (v : String)
      → (venue == v) ≡ false
      → heap_of v (expired now venue q o).0 ≡ heap_of v q
  expired-other_heap none v n = refl
  expired-other_heap (some heap) v n = pop_due-other_heap now venue ◌∷◌ heap q [] v n

  generations-expired :
      (o : Option (List Entry)) → (expired now venue q o).0.generations ≡ q.generations
  generations-expired none = refl
  generations-expired (some heap) = generations-pop_due now venue ◌∷◌ heap q []

  venue-IsHeap : IsHeap venue (or_else (get venue q.heaps) []) q
  unfolding heap_of
  venue-IsHeap = h venue

  pub get-expire :
      (k : Key)
      → get k (expire_venue ◌∷◌ now venue q []).0.values
        ≡ (if k.venue == venue then waiting now (get k q.values) else get k q.values)
  get-expire k =
      rw (expire_venue-expired now venue q) (get-expired (get venue q.heaps) k venue-IsHeap)

  pub mem-expire :
      (k : Key)
      → mem k (expire_venue ◌∷◌ now venue q []).1
        ≡ ((k.venue == venue) && is_due now (get k q.values))
  mem-expire k =
      rw (expire_venue-expired now venue q) (mem-expired (get venue q.heaps) k venue-IsHeap)

  expired-IsQueue : IsQueue (expired now venue q (get venue q.heaps)).0
  expired-IsQueue v =
      let o = get venue q.heaps in
      elim (Bool-cases (venue == v)) [
        | inl b ↦
            subst (λ x. IsHeap x (heap_of x (expired now venue q o).0) (expired now venue q o).0)
              ((string_eq.beq_iff venue v).0 b) (expired-IsHeap o refl venue-IsHeap)
        | inr b ↦ rw (expired-other_heap o v b) (
            IsHeap-same v (heap_of v q) q (expired now venue q o).0
              (λ k w. get-expired o k venue-IsHeap ∙ rw (elsewhere k v w b) refl)
              (λ k w. ap (get k) (generations-expired o)) (h v))
      ]
    where
      elsewhere :
          (k : Key) (v : String)
          → (k.venue == v) ≡ true
          → (venue == v) ≡ false
          → (k.venue == venue) ≡ false
      elsewhere k v w n = ground (
        arith,
        string_eq.beq_iff k.venue v,
        string_eq.beq_iff k.venue venue,
        string_eq.beq_iff venue v,
      )

  pub expire-IsQueue : IsQueue (expire_venue ◌∷◌ now venue q []).0
  expire-IsQueue = rw (expire_venue-expired now venue q) expired-IsQueue
