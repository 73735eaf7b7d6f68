-- ===== src/Streaming/Deadlines/Heaps.antt =====
-- The heaps of deadlines: what a push and a compaction hold, and in what order.
use pmkt_core.Prelude.{
  ℕ, ◌≡◌, ◌↔◌, refl, ap, ◌∙◌, Bool, true, false, ◌&&◌, ◌||◌, List, [], ◌∷◌, some, String, leb, Eq,
  string_eq, nat_eq, ◌==◌, arith, all, inl, inr, Bool-cases,
}
use pmkt_core.Collections.Dict.{get}
use pmkt_core.Collections.Sets.{mem}
use pmkt_core.Streaming.Deadlines.{
  Key, key_eq, key_beq_iff, Entry, Deadlines, before, push, live_heap, generation_of,
}

abbrev entry_beq : Entry → Entry → Bool
entry_beq e f = (e.deadline == f.deadline) && ((e.generation == f.generation) && (e.key == f.key))

pub entry_beq_iff : (e f : Entry) → (entry_beq e f ≡ true) ↔ (e ≡ f)
entry_beq_iff e f =
    (λ h. ground (arith, key_beq_iff e.key f.key), λ h. ground (arith, key_beq_iff e.key f.key))

instance abbrev pub entry_eq : Eq Entry
entry_eq = record { beq = entry_beq; beq_iff = entry_beq_iff }

-- no entry is due before the first
abbrev pub IsOrdered : List Entry → Type 0
IsOrdered [] = Unit
IsOrdered (e ∷ heap) = (all (λ f. leb e.deadline f.deadline) heap ≡ true) × IsOrdered heap

-- all entries are of keys of the venue
abbrev pub IsHoused : String → List Entry → Type 0
IsHoused venue heap = all (λ e. e.key.venue == venue) heap ≡ true

pub mem-push : (x e : Entry) (heap : List Entry) → mem x (push e heap) ≡ ((x == e) || mem x heap)
unfolding mem push
mem-push x e [] = refl
mem-push x e (f ∷ heap) = elim (Bool-cases (before e f)) [
  | inl b ↦ rw b refl
  | inr b ↦ rw (b, mem-push x e heap) (ground arith)
]

pub all-push :
    (p : Entry → Bool) (e : Entry) (heap : List Entry) → all p (push e heap) ≡ (p e && all p heap)
unfolding push
all-push p e [] = refl
all-push p e (f ∷ heap) = elim (Bool-cases (before e f)) [
  | inl b ↦ rw b refl
  | inr b ↦ rw (b, all-push p e heap) (ground arith)
]

before-true : (e f : Entry) → before e f ≡ true → leb e.deadline f.deadline ≡ true
unfolding before
before-true e f h = ground arith

before-false : (e f : Entry) → before e f ≡ false → leb f.deadline e.deadline ≡ true
unfolding before
before-false e f h = ground arith

all_later :
    (e f : Entry) (heap : List Entry)
    → leb e.deadline f.deadline ≡ true
    → all (λ g. leb f.deadline g.deadline) heap ≡ true
    → all (λ g. leb e.deadline g.deadline) heap ≡ true
all_later e f [] h k = refl
all_later e f (g ∷ heap) h k = ground (arith, all_later e f heap h)

pub push-IsOrdered : (e : Entry) (heap : List Entry) → IsOrdered heap → IsOrdered (push e heap)
unfolding push
push-IsOrdered e [] h = (refl, tt)
push-IsOrdered e (f ∷ heap) h = elim (Bool-cases (before e f)) [
  | inl b ↦ let le = before-true e f b in rw b (ground (arith, all_later e f heap le h.0), h)
  | inr b ↦
      let le = before-false e f b in
      rw b
        (rw (all-push (λ g. leb f.deadline g.deadline) e heap, le) h.0, push-IsOrdered e heap h.1)
]

-- the entry of a live key
abbrev pub entry_of : Key → ℕ → Deadlines → Entry
entry_of key deadline q = record {
  deadline = deadline;
  generation = generation_of key q;
  key = key;
}

module _ (venue : String) (q : Deadlines) where
  pub live_heap-IsOrdered : (values : List (Key × ℕ)) → IsOrdered (live_heap venue values q)
  unfolding live_heap
  live_heap-IsOrdered [] = tt
  live_heap-IsOrdered ((key, deadline) ∷ values) = elim (Bool-cases (key.venue == venue)) [
    | inl b ↦ rw b (
        push-IsOrdered (entry_of key deadline q) (live_heap venue values q)
          (live_heap-IsOrdered values))
    | inr b ↦ rw b (live_heap-IsOrdered values)
  ]

  pub live_heap-IsHoused : (values : List (Key × ℕ)) → IsHoused venue (live_heap venue values q)
  unfolding live_heap
  live_heap-IsHoused [] = refl
  live_heap-IsHoused ((key, deadline) ∷ values) = elim (Bool-cases (key.venue == venue)) [
    | inl b ↦
        rw
          (
            b,
            all-push (λ e. e.key.venue == venue) (entry_of key deadline q)
                (live_heap venue values q),
            b,
          )
          (live_heap-IsHoused values)
    | inr b ↦ rw b (live_heap-IsHoused values)
  ]

  -- a compaction keeps every live key of the venue
  pub mem-live_heap :
      (k : Key) (d : ℕ) (values : List (Key × ℕ))
      → (k.venue == venue) ≡ true
      → get k values ≡ some d
      → mem (entry_of k d q) (live_heap venue values q) ≡ true
  unfolding live_heap get mem
  mem-live_heap k d [] v h = absurd cc
  mem-live_heap k d ((key, deadline) ∷ values) v h =
      let heap = live_heap venue values q in
      elim (Bool-cases (key == k)) [
        | inl e ↦
            let same = (key_beq_iff key k).0 e in
            let self =
              (entry_beq_iff (entry_of k d q) (entry_of key deadline q)).1 (ground (arith, same)) in
            let b : (key.venue == venue) ≡ true = ap (λ (x : Key). x.venue == venue) same ∙ v in
            rw (b, mem-push (entry_of k d q) (entry_of key deadline q) heap) (ground arith)
        | inr n ↦
            let rest : mem (entry_of k d q) heap ≡ true = mem-live_heap k d values v (rw n at h) in
            elim (Bool-cases (key.venue == venue)) [
              | inl b ↦
                  rw (b, mem-push (entry_of k d q) (entry_of key deadline q) heap) (ground arith)
              | inr b ↦ rw b rest
            ]
      ]
