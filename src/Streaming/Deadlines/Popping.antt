-- ===== src/Streaming/Deadlines/Popping.antt =====
-- What the loop of `invalidate_stale` pops from one heap.
use pmkt_core.Prelude.{
  ℕ, ◌≡◌, refl, ap, sym, ◌∙◌, Bool, true, false, ◌&&◌, List, [], ◌∷◌, Option, none, some, String,
  if◌then◌else◌, leb, string_eq, nat_eq, ◌==◌, arith, inl, inr, Bool-cases,
}
use mathlib.Core.Path.{subst}
use pmkt_core.Collections.Dict.{get, remove, get-remove}
use pmkt_core.Collections.Sets.{mem, all-mem}
use pmkt_core.Streaming.Deadlines.{
  Key, key_eq, key_beq_iff, Entry, Deadlines, generation_of, pop_due, is_live, forget, is_at,
}
use pmkt_core.Streaming.Deadlines.Heaps.{entry_eq, entry_beq_iff, entry_of, IsOrdered, IsHoused}

-- the heap has an entry for each live key of the venue, and no other
pub record IsHeap (venue : String) (heap : List Entry) (q : Deadlines) : Type 0 where
  pub ordered : IsOrdered heap
  pub housed : IsHoused venue heap
  pub covered :
      (k : Key) (d : ℕ)
      → (k.venue == venue) ≡ true
      → get k q.values ≡ some d
      → mem (entry_of k d q) heap ≡ true
  pub generated :
      (k : Key) (d : ℕ)
      → (k.venue == venue) ≡ true
      → get k q.values ≡ some d
      → get k q.generations ≡ some (generation_of k q)

-- a deadline that is later than now
abbrev pub waiting : ℕ → Option ℕ → Option ℕ
waiting now none = none
waiting now (some d) = if leb d now then none else some d

abbrev pub is_due : ℕ → Option ℕ → Bool
is_due now none = false
is_due now (some d) = leb d now

is_live-entry_of :
    (k : Key) (d : ℕ) (q : Deadlines)
    → get k q.values ≡ some d
    → get k q.generations ≡ some (generation_of k q)
    → is_live (entry_of k d q) q ≡ true
unfolding is_live
is_live-entry_of k d q v g = simp (v, g) (ground arith)

pub value-of_live :
    (e : Entry) (q : Deadlines) → is_live e q ≡ true → get e.key q.values ≡ some e.deadline
unfolding is_live
value-of_live e q h = go (get e.key q.generations) (get e.key q.values) h
  where
    go :
        (g v : Option ℕ) → (is_at e.generation g && is_at e.deadline v) ≡ true → v ≡ some e.deadline
    go none v h = absurd cc
    go (some g) none h = absurd (ground arith)
    go (some g) (some v) h = ap some (ground arith)

in_tail :
    (x e : Entry) (heap : List Entry)
    → mem x (e ∷ heap) ≡ true
    → (x == e) ≡ false
    → mem x heap ≡ true
unfolding mem
in_tail x e heap h n = ground arith

other_entry :
    (k : Key) (d : ℕ) (q : Deadlines) (e : Entry)
    → (e.key == k) ≡ false
    → (entry_of k d q == e) ≡ false
other_entry k d q e n = ground (arith, key_beq_iff k e.key, key_beq_iff e.key k)

-- a key of which a deadline is kept by a removal of another
kept :
    (j k : Key) (d : ℕ) (values : List (Key × ℕ))
    → get k (remove j values) ≡ some d
    → ((j == k) ≡ false) × (get k values ≡ some d)
kept j k d values h = elim (Bool-cases (j == k)) [
  | inl e ↦ let g : none ≡ some d = (rw (get-remove j k values, e) refl) ∙ h in absurd cc
  | inr n ↦ (n, rw (get-remove j k values, n) at h)
]

-- what one popped entry leaves
abbrev pub after_pop : Entry → Deadlines → Deadlines
after_pop e q = if is_live e q then forget e.key q else q

dead_entry :
    (k : Key) (d : ℕ) (q : Deadlines) (e : Entry)
    → get k q.values ≡ some d
    → get k q.generations ≡ some (generation_of k q)
    → is_live e q ≡ false
    → (entry_of k d q == e) ≡ false
dead_entry k d q e v g l = elim (Bool-cases (entry_of k d q == e)) [
  | inr n ↦ n
  | inl p ↦
      let live = is_live-entry_of k d q v g in
      let same = ap (λ x. is_live x q) ((entry_beq_iff (entry_of k d q) e).0 p) in
      absurd (cc (live, same, l))
]

pub IsHeap-next :
    (venue : String) (e : Entry) (heap : List Entry) (q : Deadlines)
    → IsHeap venue (e ∷ heap) q
    → IsHeap venue heap (after_pop e q)
unfolding forget generation_of
IsHeap-next venue e heap q h = elim (Bool-cases (is_live e q)) [
  | inl l ↦ rw l record {
    ordered = h.ordered.1;
    housed = ground arith;
    covered = λ k d v g.
        let p = kept e.key k d q.values g in
        in_tail (entry_of k d q) e heap (h.covered k d v p.1) (other_entry k d q e p.0);
    generated = λ k d v g. h.generated k d v (kept e.key k d q.values g).1;
  }
  | inr l ↦ rw l record {
    ordered = h.ordered.1;
    housed = ground arith;
    covered = λ k d v g.
        in_tail (entry_of k d q) e heap (h.covered k d v g)
          (dead_entry k d q e g (h.generated k d v g) l);
    generated = h.generated;
  }
]

-- the values after one pop
pub get-after_pop :
    (e : Entry) (q : Deadlines) (k : Key)
    → get k (after_pop e q).values ≡ (if is_live e q && e.key == k then none else get k q.values)
unfolding forget
get-after_pop e q k = elim (Bool-cases (is_live e q)) [
  | inl l ↦ rw l (get-remove e.key k q.values)
  | inr l ↦ rw l refl
]

-- behind a first entry that is not due, nothing of the venue is
pub late_first :
    (now : ℕ) (venue : String) (e : Entry) (heap : List Entry) (q : Deadlines) (k : Key)
    → IsHeap venue (e ∷ heap) q
    → leb e.deadline now ≡ false
    → (k.venue == venue) ≡ true
    → is_due now (get k q.values) ≡ false
late_first now venue e heap q k h l v = go (get k q.values) refl
  where
    go : (o : Option ℕ) → get k q.values ≡ o → is_due now o ≡ false
    go none g = refl
    go (some d) g = elim (Bool-cases (entry_of k d q == e)) [
      | inl same ↦ ground arith
      | inr n ↦
          let m = in_tail (entry_of k d q) e heap (h.covered k d v g) n in
          let le = all-mem (λ f. leb e.deadline f.deadline) (entry_of k d q) heap h.ordered.0 m in
          ground arith
    ]

waiting-of_late : (now : ℕ) (o : Option ℕ) → is_due now o ≡ false → waiting now o ≡ o
waiting-of_late now none h = refl
waiting-of_late now (some d) h = rw h refl

pub no_value :
    (venue : String) (q : Deadlines) (k : Key)
    → IsHeap venue [] q
    → (k.venue == venue) ≡ true
    → get k q.values ≡ none
unfolding mem
no_value venue q k h v = go (get k q.values) refl
  where
    go : (o : Option ℕ) → get k q.values ≡ o → o ≡ none
    go none g = refl
    go (some d) g = let m = h.covered k d v g in absurd cc

module _ (now : ℕ) (venue : String) where
  -- the values of a venue's keys without those that are due
  abbrev pub left : Deadlines → Key → Option ℕ
  left q k = if k.venue == venue then waiting now (get k q.values) else get k q.values

  left-late :
      (e : Entry) (heap : List Entry) (q : Deadlines) (k : Key)
      → IsHeap venue (e ∷ heap) q
      → leb e.deadline now ≡ false
      → get k q.values ≡ left q k
  left-late e heap q k h l = elim (Bool-cases (k.venue == venue)) [
    | inr n ↦ rw n refl
    | inl v ↦
        rw v (sym (waiting-of_late now (get k q.values) (late_first now venue e heap q k h l v)))
  ]

  left-pop :
      (e : Entry) (heap : List Entry) (q : Deadlines) (k : Key)
      → IsHeap venue (e ∷ heap) q
      → leb e.deadline now ≡ true
      → left (after_pop e q) k ≡ left q k
  left-pop e heap q k h l = elim (Bool-cases (is_live e q && e.key == k)) [
    | inr n ↦ rw (get-after_pop e q k, n) refl
    | inl b ↦
        let live : is_live e q ≡ true = ground arith in
        let same = (key_beq_iff e.key k).0 (ground arith) in
        let value : get k q.values ≡ some e.deadline =
          subst (λ x. get x q.values ≡ some e.deadline) same (value-of_live e q live) in
        let housed : (k.venue == venue) ≡ true =
          subst (λ (x : Key). (x.venue == venue) ≡ true) same (ground (arith, h.housed)) in
        rw (get-after_pop e q k, b, housed, value, l) refl
  ]

  pub left-nil : (q : Deadlines) (k : Key) → IsHeap venue [] q → get k q.values ≡ left q k
  left-nil q k h = elim (Bool-cases (k.venue == venue)) [
    | inr n ↦ rw n refl
    | inl v ↦ rw (v, no_value venue q k h v) refl
  ]

  pub pop_due-values :
      {S : Type 0} (handle : Key → S → S) (heap : List Entry) (q : Deadlines) (s : S) (k : Key)
      → IsHeap venue heap q
      → get k (pop_due handle now venue heap q s).0.values ≡ left q k
  unfolding pop_due
  pop_due-values handle [] q s k h = left-nil q k h
  pop_due-values handle (e ∷ heap) q s k h = elim (Bool-cases (leb e.deadline now)) [
    | inl l ↦ rw l (
        pop_due-values handle heap (after_pop e q) (if is_live e q then handle e.key s else s) k
          (IsHeap-next venue e heap q h)
        ∙ left-pop e heap q k h l)
    | inr l ↦ rw l (left-late e heap q k h l)
  ]
