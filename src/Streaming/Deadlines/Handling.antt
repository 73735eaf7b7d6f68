-- ===== src/Streaming/Deadlines/Handling.antt =====
-- What a check does to the deadlines does not depend on the handler, and what the handler keeps it keeps.
use pmkt_core.Prelude.{
  ℕ, ◌≡◌, refl, Bool, true, false, List, [], ◌∷◌, String, if◌then◌else◌, leb, inl, inr, Bool-cases,
  Option-cases, string_eq,
}
use pmkt_core.Collections.Dict.{get}
use pmkt_core.Streaming.Deadlines.{Key, Entry, Deadlines, pop_due, is_live, expire_venue}
use pmkt_core.Streaming.Deadlines.Popping.{after_pop}

module _ {S : Type 0} (handle : Key → S → S) (now : ℕ) (venue : String) where
  abbrev handled_pop : Entry → Deadlines → S → S
  handled_pop e q s = if is_live e q then handle e.key s else s

  pop_due-deadlines :
      (heap : List Entry) (q : Deadlines) (s : S) (keys : List Key)
      → (pop_due handle now venue heap q s).0 ≡ (pop_due ◌∷◌ now venue heap q keys).0
  unfolding pop_due
  pop_due-deadlines [] q s keys = refl
  pop_due-deadlines (e ∷ heap) q s keys = elim (Bool-cases (leb e.deadline now)) [
    | inr l ↦ rw l refl
    | inl l ↦ rw l (
        pop_due-deadlines heap (after_pop e q) (handled_pop e q s)
          (if is_live e q then e.key ∷ keys else keys))
  ]

  pub expire_venue-deadlines :
      (q : Deadlines) (s : S)
      → (expire_venue handle now venue q s).0 ≡ (expire_venue ◌∷◌ now venue q []).0
  unfolding expire_venue
  expire_venue-deadlines q s = elim (Option-cases (get venue q.heaps)) [
    | inl n ↦ rw (expire_venue, n) refl
    | inr (heap, e) ↦ rw (expire_venue, e) (pop_due-deadlines heap q s [])
  ]

  module _ (P : S → Type 0) (keeps : (k : Key) (s : S) → P s → P (handle k s)) where
    pop_due-keeps :
        (heap : List Entry) (q : Deadlines) (s : S) → P s → P (pop_due handle now venue heap q s).1
    unfolding pop_due
    pop_due-keeps [] q s p = p
    pop_due-keeps (e ∷ heap) q s p = elim (Bool-cases (leb e.deadline now)) [
      | inr l ↦ rw l p
      | inl l ↦ rw l (pop_due-keeps heap (after_pop e q) (handled_pop e q s) (next (is_live e q)))
    ]
      where
        next : (b : Bool) → P (if b then handle e.key s else s)
        next true = keeps e.key s p
        next false = p

    pub expire_venue-keeps : (q : Deadlines) (s : S) → P s → P (expire_venue handle now venue q s).1
    unfolding expire_venue
    expire_venue-keeps q s p = elim (Option-cases (get venue q.heaps)) [
      | inl n ↦ rw (expire_venue, n) p
      | inr (heap, e) ↦ rw (expire_venue, e) (pop_due-keeps heap q s p)
    ]
