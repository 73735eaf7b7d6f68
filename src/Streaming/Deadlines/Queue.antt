-- ===== src/Streaming/Deadlines/Queue.antt =====
-- The deadlines as an abstract map: scheduling sets a deadline, cancelling removes it, and a check of a
-- venue removes those of its deadlines that are due.
use mathlib.Core.Path.{subst}
use pmkt_core.Prelude.{
  ℕ, ◌+◌, ◌≡◌, refl, ap, sym, ◌∙◌, true, false, List, [], Option, none, some, String, if◌then◌else◌,
  string_eq, nat_eq, ◌==◌, or_else, arith, inl, inr, Bool-cases, is_some,
}
use pmkt_core.Collections.Dict.{get, put, get-remove, get-put}
use pmkt_core.Collections.Sets.{mem}
use pmkt_core.Streaming.Deadlines.{
  Key, key_eq, key_beq_iff, Entry, Deadlines, generation_of, heap_of, push, live_heap, compact,
  enter, forget, cancel,
}
use pmkt_core.Streaming.Deadlines.Heaps.{
  entry_eq, entry_beq_iff, entry_of, mem-push, all-push, push-IsOrdered, live_heap-IsOrdered,
  live_heap-IsHoused, mem-live_heap,
}
use pmkt_core.Streaming.Deadlines.Popping.{IsHeap}

-- every venue's heap stands for the live keys of the venue
abbrev pub IsQueue : Deadlines → Type 0
IsQueue q = (venue : String) → IsHeap venue (heap_of venue q) q

-- the heap serves another queue that has the same deadlines and generations for the venue
pub IsHeap-same :
    (venue : String) (heap : List Entry) (q t : Deadlines)
    → ((k : Key) → (k.venue == venue) ≡ true → get k t.values ≡ get k q.values)
    → ((k : Key) → (k.venue == venue) ≡ true → get k t.generations ≡ get k q.generations)
    → IsHeap venue heap q
    → IsHeap venue heap t
unfolding generation_of
IsHeap-same venue heap q t a b h = record {
  ordered = h.ordered;
  housed = h.housed;
  covered = λ k d v g. rw (b k v) (h.covered k d v (sym (a k v) ∙ g));
  generated = λ k d v g. rw (b k v) (h.generated k d v (sym (a k v) ∙ g));
}

pub heap_of-put :
    (venue v : String) (heap : List Entry) (q : Deadlines)
    → heap_of v (record q { heaps = put venue heap q.heaps })
      ≡ (if venue == v then heap else heap_of v q)
unfolding heap_of
heap_of-put venue v heap q = rw (get-put venue v heap q.heaps) (ground arith)

other_key :
    (key k : Key) (v : String)
    → (key.venue == v) ≡ false
    → (k.venue == v) ≡ true
    → (key == k) ≡ false
other_key key k v n b = elim (Bool-cases (key == k)) [
  | inr o ↦ o
  | inl e ↦
      let same = ap (λ (x : Key). x.venue == v) ((key_beq_iff key k).0 e) in
      absurd (cc (same, n, b))
]

compact-IsHeap :
    (venue : String) (q : Deadlines)
    → IsHeap venue (heap_of venue q) q
    → IsHeap venue (live_heap venue q.values q) (compact venue q)
unfolding compact generation_of
compact-IsHeap venue q h = record {
  ordered = live_heap-IsOrdered venue q q.values;
  housed = live_heap-IsHoused venue q q.values;
  covered = λ k d v g. mem-live_heap venue q k d q.values v g;
  generated = h.generated;
}

pub compact-IsQueue : (venue : String) (q : Deadlines) → IsQueue q → IsQueue (compact venue q)
unfolding compact
compact-IsQueue venue q h v = elim (Bool-cases (venue == v)) [
  | inl b ↦
      rw (heap_of-put venue v (live_heap venue q.values q) q, b)
        (subst (λ x. IsHeap x (live_heap venue q.values q) (compact venue q))
          ((string_eq.beq_iff venue v).0 b) (compact-IsHeap venue q (h venue)))
  | inr b ↦
      rw (heap_of-put venue v (live_heap venue q.values q) q, b)
        (IsHeap-same v (heap_of v q) q (compact venue q) (λ k w. refl) (λ k w. refl) (h v))
]

module _ (key : Key) (d : ℕ) (q : Deadlines) where
  pub get-enter :
      (k : Key) → get k (enter key d q).values ≡ (if key == k then some d else get k q.values)
  unfolding enter
  get-enter k = get-put key k d q.values

  generations-enter :
      (k : Key)
      → get k (enter key d q).generations
        ≡ (if key == k then some (generation_of key q + 1) else get k q.generations)
  unfolding enter
  generations-enter k = get-put key k (generation_of key q + 1) q.generations

  generation_of-enter :
      (k : Key)
      → generation_of k (enter key d q)
        ≡ (if key == k then generation_of key q + 1 else generation_of k q)
  unfolding generation_of
  generation_of-enter k = rw (generations-enter k) (ground arith)

  abbrev new_entry : Entry
  new_entry = record { deadline = d; generation = generation_of key q + 1; key = key }

  covered-enter :
      (k : Key) (c : ℕ)
      → IsHeap key.venue (heap_of key.venue q) q
      → (k.venue == key.venue) ≡ true
      → get k (enter key d q).values ≡ some c
      → mem (entry_of k c (enter key d q)) (push new_entry (heap_of key.venue q)) ≡ true
  covered-enter k c h v g = elim (Bool-cases (key == k)) [
    | inl e ↦
        let same = (key_beq_iff key k).0 e in
        let value : some d ≡ some c = (rw (get-enter k, e) refl) ∙ g in
        let generation : generation_of k (enter key d q) ≡ generation_of key q + 1 =
          rw (generation_of-enter k, e) refl in
        let self =
          (entry_beq_iff (entry_of k c (enter key d q)) new_entry).1 (ground (arith, same)) in
        rw (mem-push (entry_of k c (enter key d q)) new_entry (heap_of key.venue q), self) refl
    | inr n ↦
        let old : get k q.values ≡ some c = rw (get-enter k, n) at g in
        rw
          (
            mem-push (entry_of k c (enter key d q)) new_entry (heap_of key.venue q),
            generation_of-enter k,
            n,
            h.covered k c v old,
          )
          (ground arith)
  ]

  generated-enter :
      (k : Key) (c : ℕ)
      → IsHeap key.venue (heap_of key.venue q) q
      → (k.venue == key.venue) ≡ true
      → get k (enter key d q).values ≡ some c
      → get k (enter key d q).generations ≡ some (generation_of k (enter key d q))
  generated-enter k c h v g = elim (Bool-cases (key == k)) [
    | inl e ↦ rw (generations-enter k, generation_of-enter k, e) refl
    | inr n ↦
        let old : get k q.values ≡ some c = rw (get-enter k, n) at g in
        rw (generations-enter k, generation_of-enter k, n) (h.generated k c v old)
  ]

  enter-IsHeap :
      IsHeap key.venue (heap_of key.venue q) q
      → IsHeap key.venue (push new_entry (heap_of key.venue q)) (enter key d q)
  enter-IsHeap h =
      let self : (key.venue == key.venue) ≡ true = (string_eq.beq_iff key.venue key.venue).1 refl in
      record {
        ordered = push-IsOrdered new_entry (heap_of key.venue q) h.ordered;
        housed =
            rw (all-push (λ e. e.key.venue == key.venue) new_entry (heap_of key.venue q), self)
              h.housed;
        covered = λ k c v g. covered-enter k c h v g;
        generated = λ k c v g. generated-enter k c h v g;
      }

  heap_of-enter :
      (v : String)
      → heap_of v (enter key d q)
        ≡ (if key.venue == v then push new_entry (heap_of key.venue q) else heap_of v q)
  unfolding enter heap_of
  heap_of-enter v =
      rw (get-put key.venue v (push new_entry (heap_of key.venue q)) q.heaps) (ground arith)

  pub enter-IsQueue : IsQueue q → IsQueue (enter key d q)
  enter-IsQueue h v = elim (Bool-cases (key.venue == v)) [
    | inl b ↦
        rw (heap_of-enter v, b)
          (subst (λ x. IsHeap x (push new_entry (heap_of key.venue q)) (enter key d q))
            ((string_eq.beq_iff key.venue v).0 b) (enter-IsHeap (h key.venue)))
    | inr b ↦
        rw (heap_of-enter v, b)
          (IsHeap-same v (heap_of v q) q (enter key d q)
            (λ k w. rw (get-enter k, other_key key k v b w) refl)
            (λ k w. rw (generations-enter k, other_key key k v b w) refl) (h v))
  ]

module _ (key : Key) (q : Deadlines) where
  pub get-cancel :
      (k : Key) → get k (cancel key q).values ≡ (if key == k then none else get k q.values)
  unfolding cancel forget
  get-cancel k = go (get key q.values) refl
    where
      go :
          (o : Option ℕ)
          → get key q.values ≡ o
          → get k (cancel key q).values ≡ (if key == k then none else get k q.values)
      go (some d) v = rw (v, get-remove key k q.values) refl
      go none v = elim (Bool-cases (key == k)) [
        | inl e ↦
            let same = (key_beq_iff key k).0 e in
            rw (v, e) (subst (λ x. get x q.values ≡ none) same v)
        | inr n ↦ rw (v, n) refl
      ]

  generations-cancel :
      (k : Key)
      → get k (cancel key q).generations
        ≡ (if key == k then some (generation_of key q + 1) else get k q.generations)
  unfolding cancel forget
  generations-cancel k = elim (Bool-cases (is_some (get key q.values))) [
    | inl b ↦ rw b (get-put key k (generation_of key q + 1) q.generations)
    | inr b ↦ rw b (get-put key k (generation_of key q + 1) q.generations)
  ]

  heaps-cancel : (cancel key q).heaps ≡ q.heaps
  unfolding cancel forget
  heaps-cancel = ground arith

  generation_of-cancel :
      (k : Key) → (key == k) ≡ false → generation_of k (cancel key q) ≡ generation_of k q
  unfolding generation_of
  generation_of-cancel k n = rw (generations-cancel k, n) refl

  -- a key that has a deadline behind a cancellation is another one
  still :
      (k : Key) (c : ℕ)
      → get k (cancel key q).values ≡ some c
      → ((key == k) ≡ false) × (get k q.values ≡ some c)
  still k c g = elim (Bool-cases (key == k)) [
    | inl e ↦ let gone : none ≡ some c = (rw (get-cancel k, e) refl) ∙ g in absurd cc
    | inr n ↦ (n, rw (get-cancel k, n) at g)
  ]

  cancel-IsHeap : (v : String) (heap : List Entry) → IsHeap v heap q → IsHeap v heap (cancel key q)
  cancel-IsHeap v heap h = record {
    ordered = h.ordered;
    housed = h.housed;
    covered =
        λ k c w g. let p = still k c g in rw (generation_of-cancel k p.0) (h.covered k c w p.1);
    generated = λ k c w g.
        let p = still k c g in
        rw (generation_of-cancel k p.0, generations-cancel k, p.0) (h.generated k c w p.1);
  }

  pub cancel-IsQueue : IsQueue q → IsQueue (cancel key q)
  unfolding heap_of
  cancel-IsQueue h v =
      subst (λ heaps. IsHeap v (or_else (get v heaps) []) (cancel key q)) (sym heaps-cancel)
        (cancel-IsHeap v (or_else (get v q.heaps) []) (h v))
