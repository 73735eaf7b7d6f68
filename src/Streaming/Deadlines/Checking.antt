-- ===== src/Streaming/Deadlines/Checking.antt =====
-- What a check of one heap handles, and what it leaves of the queue.
use pmkt_core.Prelude.{
  ℕ, ◌≡◌, refl, ap, sym, ◌∙◌, true, false, ◌||◌, List, [], ◌∷◌, some, String, if◌then◌else◌, leb,
  string_eq, nat_eq, ◌==◌, or_else, arith, inl, inr, Bool-cases,
}
use mathlib.Core.Path.{subst}
use pmkt_core.Collections.Dict.{get, put, get-put}
use pmkt_core.Collections.Sets.{mem}
use pmkt_core.Streaming.Deadlines.{
  Key, key_eq, key_beq_iff, Entry, Deadlines, generation_of, heap_of, pop_due, is_live, forget,
}
use pmkt_core.Streaming.Deadlines.Heaps.{entry_eq, IsHoused}
use pmkt_core.Streaming.Deadlines.Popping.{
  IsHeap, is_due, after_pop, IsHeap-next, get-after_pop, value-of_live, late_first, no_value,
}

module _ (now : ℕ) (venue : String) where
  handled-pop :
      (e : Entry) (heap : List Entry) (q : Deadlines) (s : List Key) (k : Key)
      → IsHeap venue (e ∷ heap) q
      → leb e.deadline now ≡ true
      → (mem k (if is_live e q then e.key ∷ s else s) || is_due now (get k (after_pop e q).values))
        ≡ (mem k s || is_due now (get k q.values))
  unfolding mem
  handled-pop e heap q s k h l = elim (Bool-cases (is_live e q)) [
    | inr n ↦ rw n refl
    | inl live ↦ elim (Bool-cases (e.key == k)) [
      | inl b ↦
          let same = (key_beq_iff e.key k).0 b in
          let value : get k q.values ≡ some e.deadline =
            subst (λ x. get x q.values ≡ some e.deadline) same (value-of_live e q live) in
          let self = (key_beq_iff k e.key).1 (sym same) in
          rw (value, l, live) (ground (arith, self))
      | inr b ↦
          let other : (k == e.key) ≡ false =
            ground (arith, key_beq_iff k e.key, key_beq_iff e.key k) in
          let kept = get-after_pop e q k in rw (kept, live, b, other) refl
    ]
  ]

  pub mem-pop_due :
      (heap : List Entry) (q : Deadlines) (s : List Key) (k : Key)
      → IsHeap venue heap q
      → (k.venue == venue) ≡ true
      → mem k (pop_due ◌∷◌ now venue heap q s).1 ≡ (mem k s || is_due now (get k q.values))
  unfolding pop_due
  mem-pop_due [] q s k h v = rw (no_value venue q k h v) (ground arith)
  mem-pop_due (e ∷ heap) q s k h v = elim (Bool-cases (leb e.deadline now)) [
    | inl l ↦ rw l (
        mem-pop_due heap (after_pop e q) (if is_live e q then e.key ∷ s else s) k
          (IsHeap-next venue e heap q h) v
        ∙ handled-pop e heap q s k h l)
    | inr l ↦ rw (l, late_first now venue e heap q k h l v) (ground arith)
  ]

  in_heap :
      (e : Entry) (heap : List Entry) (k : Key)
      → IsHoused venue (e ∷ heap)
      → (k.venue == venue) ≡ false
      → (k == e.key) ≡ false
  in_heap e heap k h n = elim (Bool-cases (k == e.key)) [
    | inr o ↦ o
    | inl b ↦
        let same = ap (λ (x : Key). x.venue == venue) ((key_beq_iff k e.key).0 b) in
        absurd (ground (arith, same))
  ]

  pub mem-pop_due-other :
      (heap : List Entry) (q : Deadlines) (s : List Key) (k : Key)
      → IsHoused venue heap
      → (k.venue == venue) ≡ false
      → mem k (pop_due ◌∷◌ now venue heap q s).1 ≡ mem k s
  unfolding pop_due mem
  mem-pop_due-other [] q s k h n = refl
  mem-pop_due-other (e ∷ heap) q s k h n = elim (Bool-cases (leb e.deadline now)) [
    | inr l ↦ rw l refl
    | inl l ↦
        let other = in_heap e heap k h n in
        let housed : IsHoused venue heap = ground arith in
        rw l (
          mem-pop_due-other heap (after_pop e q) (if is_live e q then e.key ∷ s else s) k housed n
          ∙ elim (Bool-cases (is_live e q)) [ inl b ↦ rw (b, other) refl | inr b ↦ rw b refl ])
  ]

  generations-after_pop : (e : Entry) (q : Deadlines) → (after_pop e q).generations ≡ q.generations
  unfolding forget
  generations-after_pop e q = ground arith

  pub generations-pop_due :
      {S : Type 0} (handle : Key → S → S) (heap : List Entry) (q : Deadlines) (s : S)
      → (pop_due handle now venue heap q s).0.generations ≡ q.generations
  unfolding pop_due
  generations-pop_due handle [] q s = refl
  generations-pop_due handle (e ∷ heap) q s = elim (Bool-cases (leb e.deadline now)) [
    | inr l ↦ rw l refl
    | inl l ↦ rw l (
        generations-pop_due handle heap (after_pop e q) (if is_live e q then handle e.key s else s)
        ∙ generations-after_pop e q)
  ]

  heaps-after_pop : (e : Entry) (q : Deadlines) → (after_pop e q).heaps ≡ q.heaps
  unfolding forget
  heaps-after_pop e q = ground arith

  pub pop_due-other_heap :
      {S : Type 0} (handle : Key → S → S) (heap : List Entry) (q : Deadlines) (s : S) (v : String)
      → (venue == v) ≡ false
      → heap_of v (pop_due handle now venue heap q s).0 ≡ heap_of v q
  unfolding pop_due heap_of
  pop_due-other_heap handle [] q s v n = rw (get-put venue v [] q.heaps, n) refl
  pop_due-other_heap handle (e ∷ heap) q s v n = elim (Bool-cases (leb e.deadline now)) [
    | inr l ↦ rw (l, get-put venue v (e ∷ heap) q.heaps, n) refl
    | inl l ↦ rw l (
        pop_due-other_heap handle heap (after_pop e q) (if is_live e q then handle e.key s else s) v
          n
        ∙ ap (λ h. or_else (get v h) []) (heaps-after_pop e q))
  ]

  heap_of_self :
      (heap : List Entry) (q : Deadlines)
      → heap_of venue (record q { heaps = put venue heap q.heaps }) ≡ heap
  unfolding heap_of
  heap_of_self heap q =
      rw (get-put venue venue heap q.heaps, (string_eq.beq_iff venue venue).1 refl) refl

  IsHeap-stored :
      (heap : List Entry) (q : Deadlines)
      → IsHeap venue heap q
      → let t = record q { heaps = put venue heap q.heaps } in IsHeap venue (heap_of venue t) t
  unfolding generation_of
  IsHeap-stored heap q h = rw (heap_of_self heap q) record {
    ordered = h.ordered;
    housed = h.housed;
    covered = h.covered;
    generated = h.generated;
  }

  pub pop_due-IsHeap :
      {S : Type 0} (handle : Key → S → S) (heap : List Entry) (q : Deadlines) (s : S)
      → IsHeap venue heap q
      → let t = (pop_due handle now venue heap q s).0 in IsHeap venue (heap_of venue t) t
  unfolding pop_due
  pop_due-IsHeap handle [] q s h = IsHeap-stored [] q h
  pop_due-IsHeap handle (e ∷ heap) q s h = elim (Bool-cases (leb e.deadline now)) [
    | inr l ↦ rw l (IsHeap-stored (e ∷ heap) q h)
    | inl l ↦ rw l (
        pop_due-IsHeap handle heap (after_pop e q) (if is_live e q then handle e.key s else s)
          (IsHeap-next venue e heap q h))
  ]
