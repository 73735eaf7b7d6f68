-- ===== src/Streaming/Deadlines/Counts.antt =====
-- The counts of live keys that bound the heaps of deadlines.
use pmkt_core.Prelude.{
  ℕ, ◌+◌, ◌≡◌, refl, ap, sym, ◌∙◌, true, false, List, [], ◌∷◌, none, some, String, if◌then◌else◌,
  leb, string_eq, nat_eq, ◌==◌, arith, length, inl, inr, Bool-cases, is_some,
}
use pmkt_core.Collections.Dict.{get, put, remove, get-remove, get-put}
use pmkt_core.Streaming.Deadlines.{
  Key, key_eq, key_beq_iff, Entry, Deadlines, generation_of, push, live_heap, enter, forget,
  pop_due, is_live, before,
}
use pmkt_core.Streaming.Deadlines.Popping.{after_pop, value-of_live}

-- the number of live keys of a venue
unfoldable pub live_count : String → List (Key × ℕ) → ℕ
live_count venue [] = 0
live_count venue ((k, d) ∷ values) =
    let rest = live_count venue values in if k.venue == venue then rest + 1 else rest

abbrev pub IsUnique : List (Key × ℕ) → Type 0
IsUnique [] = Unit
IsUnique ((k, d) ∷ values) = (get k values ≡ none) × IsUnique values

live_count-put :
    (venue : String) (k : Key) (d : ℕ) (values : List (Key × ℕ))
    → live_count venue (put k d values) ≡ (
        if is_some (get k values)
        then live_count venue values
        else if k.venue == venue
        then live_count venue values + 1
        else live_count venue values)
unfolding live_count put get
live_count-put venue k d [] = refl
live_count-put venue k d ((j, c) ∷ values) = elim (Bool-cases (j == k)) [
  | inl e ↦ rw e refl
  | inr n ↦ rw (n, live_count-put venue k d values) (ground arith)
]

live_count-remove-none :
    (venue : String) (k : Key) (values : List (Key × ℕ))
    → get k values ≡ none
    → live_count venue (remove k values) ≡ live_count venue values
unfolding live_count remove get
live_count-remove-none venue k [] h = refl
live_count-remove-none venue k ((j, c) ∷ values) h = elim (Bool-cases (j == k)) [
  | inl e ↦ let gone : some c ≡ none = rw e at h in absurd cc
  | inr n ↦ rw (n, live_count-remove-none venue k values (rw n at h)) refl
]

live_count-remove :
    (venue : String) (k : Key) (values : List (Key × ℕ))
    → IsUnique values
    → is_some (get k values) ≡ true
    → live_count venue values ≡ (
        if k.venue == venue
        then live_count venue (remove k values) + 1
        else live_count venue (remove k values))
unfolding live_count remove get
live_count-remove venue k [] u h = absurd cc
live_count-remove venue k ((j, c) ∷ values) u h = elim (Bool-cases (j == k)) [
  | inl e ↦
      let same = (key_beq_iff j k).0 e in
      let gone : get k values ≡ none = ap (λ x. get x values) (sym same) ∙ u.0 in
      let house = ap (λ (x : Key). x.venue == venue) same in
      rw (e, live_count-remove-none venue k values gone) (ground arith)
  | inr n ↦ let rest = live_count-remove venue k values u.1 (rw n at h) in rw n (ground arith)
]

IsUnique-put :
    (k : Key) (d : ℕ) (values : List (Key × ℕ)) → IsUnique values → IsUnique (put k d values)
unfolding put get
IsUnique-put k d [] u = (refl, tt)
IsUnique-put k d ((j, c) ∷ values) u = elim (Bool-cases (j == k)) [
  | inl e ↦ rw e u
  | inr n ↦
      let other : (k == j) ≡ false = ground (arith, key_beq_iff j k, key_beq_iff k j) in
      rw n (get-put k j d values ∙ (rw other u.0), IsUnique-put k d values u.1)
]

IsUnique-remove : (k : Key) (values : List (Key × ℕ)) → IsUnique values → IsUnique (remove k values)
unfolding remove
IsUnique-remove k [] u = tt
IsUnique-remove k ((j, c) ∷ values) u = elim (Bool-cases (j == k)) [
  | inl e ↦ rw e (IsUnique-remove k values u.1)
  | inr n ↦ rw n (get-remove k j values ∙ (rw u.0 (ground arith)), IsUnique-remove k values u.1)
]

pub length-push : (e : Entry) (heap : List Entry) → length (push e heap) ≡ length heap + 1
unfolding push
length-push e [] = refl
length-push e (f ∷ heap) = elim (Bool-cases (before e f)) [
  | inl b ↦ rw b (omega arith)
  | inr b ↦ rw b (let rest = length-push e heap in omega arith)
]

pub length-live_heap :
    (venue : String) (values : List (Key × ℕ)) (q : Deadlines)
    → length (live_heap venue values q) ≡ live_count venue values
unfolding live_heap live_count
length-live_heap venue [] q = refl
length-live_heap venue ((k, d) ∷ values) q = elim (Bool-cases (k.venue == venue)) [
  | inl b ↦
      rw
        (
          b,
          length-push (record { deadline = d; generation = generation_of k q; key = k })
              (live_heap venue values q),
          length-live_heap venue values q,
        )
        refl
  | inr b ↦ rw b (length-live_heap venue values q)
]

-- a Counter of the live keys of each venue
abbrev pub IsCounted : Deadlines → Type 0
IsCounted q = IsUnique q.values × ((venue : String) → q.active venue ≡ live_count venue q.values)

pub enter-IsCounted : (k : Key) (d : ℕ) (q : Deadlines) → IsCounted q → IsCounted (enter k d q)
unfolding enter
enter-IsCounted k d q (u, h) = (IsUnique-put k d q.values u, λ v. go v)
  where
    go : (v : String) → (enter k d q).active v ≡ live_count v (put k d q.values)
    go v =
        let new = live_count-put v k d q.values in
        elim (Bool-cases (is_some (get k q.values))) [
          | inl b ↦ rw (b, new, b) (h v)
          | inr b ↦ rw (b, new, b, h v) refl
        ]

pub forget-IsCounted :
    (k : Key) (q : Deadlines)
    → is_some (get k q.values) ≡ true
    → IsCounted q
    → IsCounted (forget k q)
unfolding forget
forget-IsCounted k q l (u, h) = (IsUnique-remove k q.values u, λ v. go v)
  where
    go : (v : String) → (forget k q).active v ≡ live_count v (remove k q.values)
    go v = let old = live_count-remove v k q.values u l in let now = h v in ground arith

pub after_pop-IsCounted : (e : Entry) (q : Deadlines) → IsCounted q → IsCounted (after_pop e q)
after_pop-IsCounted e q h = elim (Bool-cases (is_live e q)) [
  | inr n ↦ rw n h
  | inl l ↦ rw l (forget-IsCounted e.key q (ap is_some (value-of_live e q l)) h)
]

pub pop_due-IsCounted :
    {S : Type 0} (handle : Key → S → S) (now : ℕ) (venue : String) (heap : List Entry)
    (q : Deadlines) (s : S)
    → IsCounted q
    → IsCounted (pop_due handle now venue heap q s).0
unfolding pop_due
pop_due-IsCounted handle now venue [] q s h = h
pop_due-IsCounted handle now venue (e ∷ heap) q s h = elim (Bool-cases (leb e.deadline now)) [
  | inr l ↦ rw l h
  | inl l ↦ rw l (
      pop_due-IsCounted handle now venue heap (after_pop e q)
        (if is_live e q then handle e.key s else s) (after_pop-IsCounted e q h))
]
