-- ===== src/Collections/Sorting.antt =====
-- Python's sorted: a stable sort by insertion.
use Prim.Native.Nat.{Ordering}
use Prim.Native.String.{compare as compare_text}
use pmkt_core.Prelude.{
  ◌≡◌, refl, Bool, true, false, ◌||◌, List, [], ◌∷◌, String, if◌then◌else◌, arith, Eq, ◌==◌, inl,
  inr, Bool-cases,
}
use pmkt_core.Collections.Sets.{mem}

-- a <= b of texts
unfoldable pub text_leb : String → String → Bool
text_leb a b = elim (compare_text a b) [
  | Ordering.lt ↦ true
  | Ordering.eq ↦ true
  | Ordering.gt ↦ false
]

-- a <= b of tuples of two texts
unfoldable pub pair_leb : String × String → String × String → Bool
unfolding text_leb
pair_leb (a, b) (c, d) = elim (compare_text a c) [
  | Ordering.lt ↦ true
  | Ordering.eq ↦ text_leb b d
  | Ordering.gt ↦ false
]

module _ {A : Type 0} (leb : A → A → Bool) where
  unfoldable pub insert_sorted : A → List A → List A
  insert_sorted x [] = x ∷ []
  insert_sorted x (y ∷ ys) =
      let rest = insert_sorted x ys in if leb x y then x ∷ y ∷ ys else y ∷ rest

  -- sorted(xs), by an order that `leb` tests
  unfoldable pub sort_by : List A → List A
  unfolding insert_sorted
  sort_by [] = []
  sort_by (x ∷ xs) = insert_sorted x (sort_by xs)

module _ {A : Type 0} ⦃e : Eq A⦄ (leb : A → A → Bool) where
  mem-insert_sorted :
      (z x : A) (xs : List A) → mem z (insert_sorted leb x xs) ≡ (z == x || mem z xs)
  unfolding insert_sorted mem
  mem-insert_sorted z x [] = refl
  mem-insert_sorted z x (y ∷ ys) = elim (Bool-cases (leb x y)) [
    | inl b ↦ rw b refl
    | inr b ↦ rw (b, mem-insert_sorted z x ys) (ground arith)
  ]

  pub mem-sort_by : (z : A) (xs : List A) → mem z (sort_by leb xs) ≡ mem z xs
  unfolding sort_by mem
  mem-sort_by z [] = refl
  mem-sort_by z (x ∷ xs) = rw (mem-insert_sorted z x (sort_by leb xs), mem-sort_by z xs) refl
