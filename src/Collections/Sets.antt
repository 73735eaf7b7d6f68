-- ===== src/Collections/Sets.antt =====
-- A Python set as the list of its elements. A repeated element counts once: only membership,
-- emptiness and equality as sets are observed.
use pmkt_core.Prelude.{
  inr, inl, Bool-cases, all, ◌≡◌, refl, Bool, true, false, not, ◌&&◌, ◌||◌, List, [], ◌∷◌, ◌++◌,
  arith, Eq, ◌==◌, null, if◌then◌else◌,
}

module _ {A : Type 0} ⦃e : Eq A⦄ where
  -- x in s
  unfoldable pub mem : A → List A → Bool
  mem x [] = false
  mem x (y ∷ ys) = x == y || mem x ys

  -- s | {x}, s.add(x)
  unfoldable pub add : A → List A → List A
  add x s = x ∷ s

  -- s | t, s.update(t)
  unfoldable pub union : List A → List A → List A
  union s t = t ++ s

  -- s & t
  unfoldable pub inter : List A → List A → List A
  unfolding mem
  inter [] t = []
  inter (x ∷ s) t = let rest = inter s t in if mem x t then x ∷ rest else rest

  -- s - t, s.difference_update(t)
  unfoldable pub diff : List A → List A → List A
  unfolding mem
  diff [] t = []
  diff (x ∷ s) t = let rest = diff s t in if mem x t then rest else x ∷ rest

  -- s.discard(x)
  unfoldable pub discard : A → List A → List A
  unfolding diff
  discard x s = diff s (x ∷ [])

  -- s <= t
  unfoldable pub subset : List A → List A → Bool
  unfolding mem
  subset [] t = true
  subset (x ∷ s) t = mem x t && subset s t

  -- s == t
  unfoldable pub same : List A → List A → Bool
  unfolding subset
  same s t = subset s t && subset t s

  mem_congr : (x y : A) (s : List A) → (x == y) ≡ true → mem x s ≡ mem y s
  mem_congr x y s h = cc ((e.beq_iff x y).0 h)

  pub mem-add : (x y : A) (s : List A) → mem x (add y s) ≡ (x == y || mem x s)
  unfolding mem add
  mem-add x y s = refl

  mem-append : (x : A) (s t : List A) → mem x (s ++ t) ≡ (mem x s || mem x t)
  unfolding mem
  mem-append x [] t = refl
  mem-append x (y ∷ s) t = ground (arith, mem-append x s t)

  pub mem-union : (x : A) (s t : List A) → mem x (union s t) ≡ (mem x s || mem x t)
  unfolding union
  mem-union x s t = ground (arith, mem-append x t s)

  pub mem-inter : (x : A) (s t : List A) → mem x (inter s t) ≡ (mem x s && mem x t)
  unfolding mem inter
  mem-inter x [] t = refl
  mem-inter x (y ∷ s) t = ground (arith, mem-inter x s t, mem_congr x y t)

  pub mem-diff : (x : A) (s t : List A) → mem x (diff s t) ≡ (mem x s && not (mem x t))
  unfolding mem diff
  mem-diff x [] t = refl
  mem-diff x (y ∷ s) t = ground (arith, mem-diff x s t, mem_congr x y t)

  pub mem-discard : (x y : A) (s : List A) → mem x (discard y s) ≡ (mem x s && not (x == y))
  unfolding discard mem
  mem-discard x y s = ground (arith, mem-diff x s (y ∷ []))

  -- a set without members is empty, and conversely
  pub null-of-mem : (s : List A) → ((x : A) → mem x s ≡ false) → null s ≡ true
  unfolding mem
  null-of-mem [] h = refl
  null-of-mem (x ∷ s) h = ground (arith, h x, (e.beq_iff x x).1 refl)

  pub mem-of-null : (x : A) (s : List A) → null s ≡ true → mem x s ≡ false
  unfolding mem
  mem-of-null x [] h = refl
  mem-of-null x (y ∷ s) h = cc

module _ {A : Type 0} ⦃e : Eq A⦄ where
  -- a test that all elements pass is passed by each member
  pub all-mem : (p : A → Bool) (x : A) (s : List A) → all p s ≡ true → mem x s ≡ true → p x ≡ true
  unfolding mem
  all-mem p x [] h m = cc
  all-mem p x (y ∷ s) h m = elim (Bool-cases (x == y)) [
    | inl q ↦ rw ((e.beq_iff x y).0 q) (ground arith)
    | inr n ↦ all-mem p x s (ground arith) (ground arith)
  ]

  -- the sets have no common element
  abbrev pub disjoint : List A → List A → Bool
  disjoint s t = all (λ x. not (mem x t)) s

  pub mem-of-disjoint :
      (x : A) (s t : List A) → disjoint s t ≡ true → mem x s ≡ true → mem x t ≡ false
  mem-of-disjoint x s t h m = let q = all-mem (λ y. not (mem y t)) x s h m in ground arith

pub ruleset set_laws = (mem-add, mem-union, mem-inter, mem-diff, mem-discard)
