-- ===== src/Book/Levels/Sound.antt =====
-- What the ladders of book_integrity.py hold.
use pmkt_core.Prelude.{
  if◌then◌else◌, ◌≡◌, refl, false, ◌&&◌, [], ◌∷◌, Option, none, some, arith, string_eq, inl, inr,
  Bool-cases, ◌==◌,
}
use pmkt_core.Prelude.Int.{leb_ℤ, ℤ, pos, ltb_ℤ, int_eq, ◌≤ℤ◌, ◌<ℤ◌}
use pmkt_core.Collections.Dict.{get, put, remove, get-put, get-remove}
use pmkt_core.Json.{Value, arr, Items, nil, cons, Python}
use pmkt_core.Book.Levels.{
  true, set_level, Ladder, is_price, parse_level, put_level, collect_levels, decimal_levels,
}

-- the size that a ladder shows at a price after a change of one level
pub get-set_level :
    (p q size : ℤ) (l : Ladder)
    → get q (set_level p size l)
      ≡ (if p == q then (if leb_ℤ size (pos 0) then none else some size) else get q l)
unfolding set_level
get-set_level p q size l = elim (Bool-cases (leb_ℤ size (pos 0))) [
  | inl z ↦ rw z (get-remove p q l)
  | inr z ↦ rw z (get-put p q size l)
]

module _ (py : Python) where
  -- every level has a price from 0 to 1 and a positive size, and no price occurs twice
  abbrev pub IsLadder : Ladder → Type 0
  IsLadder [] = Unit
  IsLadder ((p, s) ∷ rest) =
      (pos 0 ≤ℤ p) × (p ≤ℤ pos py.one) × (pos 0 <ℤ s) × (get p rest ≡ none) × IsLadder rest

  beq_comm : (k p : ℤ) → (k == p) ≡ false → (p == k) ≡ false
  beq_comm k p n = ground arith

  get-put_ne :
      (k p : ℤ) (s : ℤ) (l : Ladder) → (k == p) ≡ false → get p l ≡ none → get p (put k s l) ≡ none
  get-put_ne k p s l n e = rw (get-put k p s l, n) e

  pub put-IsLadder :
      (p s : ℤ) (l : Ladder)
      → pos 0 ≤ℤ p
      → p ≤ℤ pos py.one
      → pos 0 <ℤ s
      → IsLadder l
      → IsLadder (put p s l)
  unfolding put get
  put-IsLadder p s [] a b c h = (a, b, c, refl, tt)
  put-IsLadder p s ((q, t) ∷ rest) a b c h = elim (Bool-cases (q == p)) [
    | inl e ↦ rw e (h.0, h.1, c, h.3, h.4)
    | inr n ↦
        rw n (
          h.0,
          h.1,
          h.2,
          get-put_ne p q s rest (beq_comm q p n) h.3,
          put-IsLadder p s rest a b c h.4,
        )
  ]

  get-remove-none : (k p : ℤ) (l : Ladder) → get p l ≡ none → get p (remove k l) ≡ none
  get-remove-none k p l e = rw (get-remove k p l) (ground arith)

  pub remove-IsLadder : (p : ℤ) (l : Ladder) → IsLadder l → IsLadder (remove p l)
  unfolding remove get
  remove-IsLadder p [] h = tt
  remove-IsLadder p ((q, t) ∷ rest) h = elim (Bool-cases (q == p)) [
    | inl e ↦ rw e (remove-IsLadder p rest h.4)
    | inr n ↦ rw n (h.0, h.1, h.2, get-remove-none p q rest h.3, remove-IsLadder p rest h.4)
  ]

  pub set_level-IsLadder :
      (p size : ℤ) (l : Ladder) → is_price py p ≡ true → IsLadder l → IsLadder (set_level p size l)
  unfolding set_level
  set_level-IsLadder p size l e h = elim (Bool-cases (leb_ℤ size (pos 0))) [
    | inl z ↦ rw z (remove-IsLadder p l h)
    | inr z ↦ rw z (put-IsLadder p size l (ground arith) (ground arith) (ground arith) h)
  ]

  put_level-IsLadder : (o : Option (ℤ × ℤ)) (l : Ladder) → IsLadder l → IsLadder (put_level py o l)
  unfolding put_level
  put_level-IsLadder none l h = h
  put_level-IsLadder (some (p, s)) l h = elim (Bool-cases (is_price py p && ltb_ℤ (pos 0) s)) [
    | inl e ↦ rw e (put-IsLadder p s l (ground arith) (ground arith) (ground arith) h)
    | inr n ↦ rw n h
  ]

  collect-IsLadder :
      (levels : Items) (l : Ladder) → IsLadder l → IsLadder (collect_levels py levels l)
  unfolding collect_levels
  collect-IsLadder nil l h = h
  collect-IsLadder (cons level rest) l h =
      collect-IsLadder rest (put_level py (parse_level py level) l)
        (put_level-IsLadder (parse_level py level) l h)

  -- Whatever a message carries as a ladder, well-formed or not, the ladder that is kept has prices
  -- from 0 to 1, positive sizes and no price twice.
  pub decimal_levels-IsLadder : (levels : Value) → IsLadder (decimal_levels py levels)
  unfolding decimal_levels
  decimal_levels-IsLadder (arr levels) = collect-IsLadder levels [] tt
  decimal_levels-IsLadder _ = tt
