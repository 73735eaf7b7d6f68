-- ===== src/Streaming/Projection/Shifts.antt =====
-- What the shifts of `_adjust_projection` do to the counts, and when they are refused.
use pmkt_core.Prelude.{
  ℕ, ◌+◌, ◌-◌, ◌≤◌, ◌≡◌, refl, Bool, true, false, List, [], ◌∷◌, some, String, arith, string_eq,
  inl, inr, Bool-cases, ◌==◌, to_nat,
}
use text.Mathlib.TextEquality.{eq_iff}
use pmkt_core.Collections.Sets.{mem, inter, mem-inter}
use pmkt_core.Streaming.Projection.{Counter, Delta, minus, plus, shift, set_count, shift_flags}

-- no element of the list occurs twice
abbrev pub Distinct : List String → Type 0
Distinct [] = Unit
Distinct (x ∷ xs) = (mem x xs ≡ false) × Distinct xs

pub Distinct-inter : (s t : List String) → Distinct s → Distinct (inter s t)
unfolding inter mem
Distinct-inter [] t h = tt
Distinct-inter (x ∷ s) t h = elim (Bool-cases (mem x t)) [
  | inl q ↦ rw q (ground (arith, mem-inter x s t, h.0), Distinct-inter s t h.1)
  | inr n ↦ rw n (Distinct-inter s t h.1)
]

-- a count after a shift, as one equation for both directions
abbrev pub Shifted : Delta → Bool → ℕ → ℕ → Type 0
Shifted minus b n m = m + to_nat b ≡ n
Shifted plus b n m = m ≡ n + to_nat b

-- where the shift is not refused
abbrev pub Allowed : Delta → Bool → ℕ → Type 0
Allowed minus b n = to_nat b ≤ n
Allowed plus b n = Unit

pub shift_lem :
    (d : Delta) (b : Bool) (n : ℕ)
    → Allowed d b n
    → (m : ℕ) × (shift d b n ≡ some m) × Shifted d b n m
unfolding shift
shift_lem minus b n h = (n - to_nat b, ground arith, ground arith)
shift_lem plus b n h = (n + to_nat b, refl, refl)

Allowed-head :
    (d : Delta) (x f : String) (xs : List String) (n : ℕ)
    → Allowed d (mem f (x ∷ xs)) n
    → (f == x) ≡ true
    → Allowed d true n
unfolding mem
Allowed-head minus x f xs n h e = ground arith
Allowed-head plus x f xs n h e = tt

mem_eq : (x f : String) (xs : List String) → (f == x) ≡ true → mem f xs ≡ mem x xs
mem_eq x f xs e = cc ((eq_iff f x).0 e)

counts_eq : (x f : String) (counts : Counter) → (f == x) ≡ true → counts f ≡ counts x
counts_eq x f counts e = cc ((eq_iff f x).0 e)

Allowed-tail :
    (d : Delta) (x f : String) (xs : List String) (counts : Counter) (n : ℕ)
    → mem x xs ≡ false
    → Allowed d (mem f (x ∷ xs)) (counts f)
    → Allowed d (mem f xs) (set_count x n counts f)
unfolding mem
Allowed-tail minus x f xs counts n new h = ground (arith, mem_eq x f xs)
Allowed-tail plus x f xs counts n new h = tt

Shifted-cons :
    (d : Delta) (x f : String) (xs : List String) (counts : Counter) (n m : ℕ)
    → mem x xs ≡ false
    → Shifted d true (counts x) n
    → Shifted d (mem f xs) (set_count x n counts f) m
    → Shifted d (mem f (x ∷ xs)) (counts f) m
unfolding mem
Shifted-cons minus x f xs counts n m new h k = ground (arith, mem_eq x f xs, counts_eq x f counts)
Shifted-cons plus x f xs counts n m new h k = ground (arith, mem_eq x f xs, counts_eq x f counts)

pub shift_flags_lem :
    (d : Delta) (flags : List String) (counts : Counter)
    → Distinct flags
    → ((f : String) → Allowed d (mem f flags) (counts f))
    → (counts' : Counter) × (shift_flags d flags counts ≡ some counts')
      × ((f : String) → Shifted d (mem f flags) (counts f) (counts' f))
unfolding shift_flags
shift_flags_lem minus [] counts h allowed = (counts, refl, λ f. unfold mem in omega arith)
shift_flags_lem plus [] counts h allowed = (counts, refl, λ f. unfold mem in omega arith)
shift_flags_lem d (x ∷ xs) counts h allowed =
    let (n, e, s) =
      shift_lem d true (counts x)
        (Allowed-head d x x xs (counts x) (allowed x) ((eq_iff x x).1 refl)) in
    let (counts', e', s') =
      shift_flags_lem d xs (set_count x n counts) h.1
        (λ f. Allowed-tail d x f xs counts n h.0 (allowed f)) in
    (counts', rw e e', λ f. Shifted-cons d x f xs counts n (counts' f) h.0 s (s' f))
