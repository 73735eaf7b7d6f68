-- ===== src/Resolution/Batch/Workers.antt =====
-- The workers of a batch, by their positions.
use pmkt_core.Prelude.{
  ℕ, zero, suc, ◌≡◌, refl, ap, Bool, true, false, ◌||◌, List, [], ◌∷◌, some, ltb, nat_eq, ◌==◌,
  length, all, any, inl, inr, Bool-cases, arith,
}
use mathlib.Core.Option.{some-injective}
use pmkt_core.Resolution.Batch.{
  Worker, created, finished, busy, element, set_element, repeated, is_finished,
}

abbrev pub is_busy : ℕ → Worker → Bool
is_busy i (busy j) = i == j
is_busy i _ = false

abbrev pub busy_at : ℕ → List Worker → Bool
busy_at i workers = any (is_busy i) workers

pub busy_at-set :
    (i k : ℕ) (w v : Worker) (workers : List Worker)
    → element k workers ≡ some v
    → is_busy i v ≡ false
    → busy_at i workers ≡ true
    → busy_at i (set_element k w workers) ≡ true
unfolding element set_element
busy_at-set i k w v [] e n h = absurd cc
busy_at-set i zero w v (x ∷ workers) e n h =
    let same = some-injective x v e in ground (arith, ap (is_busy i) same)
busy_at-set i (suc k) w v (x ∷ workers) e n h = elim (Bool-cases (is_busy i x)) [
  | inl b ↦ ground arith
  | inr b ↦ let rest = busy_at-set i k w v workers e n (ground arith) in ground arith
]

pub busy_at-new :
    (i k : ℕ) (v : Worker) (workers : List Worker)
    → element k workers ≡ some v
    → busy_at i (set_element k (busy i) workers) ≡ true
unfolding element set_element
busy_at-new i k v [] e = absurd cc
busy_at-new i zero v (x ∷ workers) e = ground (arith, (nat_eq.beq_iff i i).1 refl)
busy_at-new i (suc k) v (x ∷ workers) e = let rest = busy_at-new i k v workers e in ground arith

pub length-set :
    (k : ℕ) (w : Worker) (workers : List Worker) → length (set_element k w workers) ≡ length workers
unfolding set_element
length-set k w [] = refl
length-set zero w (x ∷ workers) = refl
length-set (suc k) w (x ∷ workers) = ap suc (length-set k w workers)

pub not_busy :
    (i : ℕ) (workers : List Worker) → all is_finished workers ≡ true → busy_at i workers ≡ false
not_busy i [] h = refl
not_busy i (created ∷ workers) h = absurd cc
not_busy i (busy j ∷ workers) h = absurd cc
not_busy i (finished ∷ workers) h = not_busy i workers h

pub one_finished :
    (workers : List Worker)
    → all is_finished workers ≡ true
    → ltb 0 (length workers) ≡ true
    → any is_finished workers ≡ true
one_finished [] h n = absurd (ground arith)
one_finished (w ∷ workers) h n = ground arith

pub any_finished-set :
    (k : ℕ) (w v : Worker) (workers : List Worker)
    → element k workers ≡ some v
    → any is_finished (set_element k w workers) ≡ true
    → (is_finished w || any is_finished workers) ≡ true
unfolding element set_element
any_finished-set k w v [] e h = absurd cc
any_finished-set zero w v (x ∷ workers) e h = ground arith
any_finished-set (suc k) w v (x ∷ workers) e h = elim (Bool-cases (is_finished x)) [
  | inl b ↦ ground arith
  | inr b ↦ let rest = any_finished-set k w v workers e (ground arith) in ground arith
]

pub none_finished : (n : ℕ) → any is_finished (repeated n created) ≡ false
unfolding repeated
none_finished zero = refl
none_finished (suc n) = none_finished n

pub length-repeated : (n : ℕ) → length (repeated n created) ≡ n
unfolding repeated
length-repeated zero = refl
length-repeated (suc n) = ap suc (length-repeated n)
