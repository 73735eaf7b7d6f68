-- ===== src/Book/KalshiMessages/Sticky.antt =====
-- A flag that a delta raises stays until the next snapshot.
use pmkt_core.Prelude.{
  ℕ, ◌≡◌, refl, true, false, List, [], ◌∷◌, Option, none, some, String, arith, string_eq, inl, inr,
  Bool-cases, null,
}
use pmkt_core.Prelude.Int.{ℤ}
use pmkt_core.Collections.Sets.{mem, add, mem-union, mem-inter, mem-of-null}
use pmkt_core.Json.{Fields, Python, str_or, finite_decimal, first_present, get_value}
use pmkt_core.Book.Levels.{max_price}
use pmkt_core.Book.Kalshi.{
  KalshiOrderBookState, message_payload, persistent, persistent_flags, flag_invalid, apply_sequence,
  set_sid, check_seq, set_seq, sequence, crossed_flags, refreshed_flags, refresh_validity, yes_ask,
}
use pmkt_core.Book.Kalshi.Validity.{refresh-IsTradable}
use pmkt_core.Book.KalshiMessages.{
  delta_effect, take_header, sequence_of, early_delta, change_of, change_level, apply_delta,
  add_flag, flag_negative, change_yes, change_no,
}

-- the flag is kept
abbrev pub Keeps : String → KalshiOrderBookState → KalshiOrderBookState → Type 0
Keeps f s t = mem f s.quality_flags ≡ true → mem f t.quality_flags ≡ true

mem-crossed :
    (one : ℕ) (f : String) (bid ask : Option ℤ) (flags : List String)
    → mem f flags ≡ true
    → mem f (crossed_flags one bid ask flags) ≡ true
unfolding crossed_flags mem
mem-crossed one f (some b) (some a) flags h = ground arith
mem-crossed one f none ask flags h = h
mem-crossed one f (some b) none flags h = h

pub mem-refreshed :
    (one : ℕ) (f : String) (preserve : List String) (s : KalshiOrderBookState)
    → mem f preserve ≡ true
    → mem f (refreshed_flags one preserve s) ≡ true
unfolding refreshed_flags add mem
mem-refreshed one f preserve s h =
    mem-crossed one f (max_price s.yes_bids) (yes_ask one s) _ (ground arith)

Keeps-sequence :
    (f : String) (sid seq : Option ℤ) (s : KalshiOrderBookState)
    → Keeps f s (apply_sequence sid seq s)
unfolding apply_sequence sequence set_sid check_seq set_seq flag_invalid add mem
Keeps-sequence f none seq s h = ground arith
Keeps-sequence f (some sid) none s h = ground arith
Keeps-sequence f (some sid) (some seq) s h = ground arith

module _ (py : Python) where
  Keeps-early : (f : String) (s : KalshiOrderBookState) → Keeps f s (early_delta py s)
  unfolding early_delta
  Keeps-early f s h = elim (Bool-cases s.initial_snapshot_received) [
    | inl e ↦ rw e h
    | inr e ↦ rw e (rw mem-union (ground arith))
  ]

  pub Keeps-change :
      (f side : String) (price delta : Option ℤ) (s : KalshiOrderBookState)
      → Keeps f s (change_level py side price delta s)
  unfolding change_level change_yes change_no flag_negative add_flag add mem
  Keeps-change f side none delta s h = ground arith
  Keeps-change f side (some p) none s h = ground arith
  Keeps-change f side (some p) (some d) s h = ground arith

  Keeps-delta_effect :
      (f : String) (message : Fields) (s : KalshiOrderBookState)
      → Keeps f s (delta_effect py message s)
  unfolding delta_effect sequence_of change_of take_header
  Keeps-delta_effect f message s h =
      let s1 = take_header py (message_payload message) s in
      let s2 = early_delta py s1 in
      let s3 = sequence_of py message s2 in
      let msg = message_payload message in
      Keeps-change f (py.lower (str_or py (get_value msg "side") ""))
        (finite_decimal py (first_present msg ("price_dollars" ∷ "price" ∷ [])))
        (finite_decimal py (first_present msg ("delta_fp" ∷ "delta" ∷ "size_delta" ∷ []))) s3
        (Keeps-sequence f _ _ s2 (Keeps-early f s1 h))

  -- A persistent flag of a book survives a delta, whatever the delta carries.
  pub apply_delta-Keeps :
      (f : String) (message : Fields) (s : KalshiOrderBookState)
      → mem f persistent ≡ true
      → Keeps f s (apply_delta py message s)
  unfolding apply_delta persistent_flags refresh_validity
  apply_delta-Keeps f message s p h =
      let t = delta_effect py message s in
      mem-refreshed py.one f (persistent_flags t) t
        (rw mem-inter (rw (Keeps-delta_effect f message s h, p) refl))

  unfoldable pub apply_deltas : List Fields → KalshiOrderBookState → KalshiOrderBookState
  apply_deltas [] s = s
  apply_deltas (m ∷ ms) s = apply_deltas ms (apply_delta py m s)

  pub valid-clean :
      (message : Fields) (s : KalshiOrderBookState)
      → (apply_delta py message s).valid_state ≡ true
      → null (apply_delta py message s).quality_flags ≡ true
  unfolding apply_delta
  valid-clean message s h =
      (refresh-IsTradable py.one (persistent_flags (delta_effect py message s))
        (delta_effect py message s) h).clean

  flagged-invalid :
      (f : String) (message : Fields) (s : KalshiOrderBookState)
      → mem f persistent ≡ true
      → mem f s.quality_flags ≡ true
      → (apply_delta py message s).valid_state ≡ false
  flagged-invalid f message s p h = elim (Bool-cases (apply_delta py message s).valid_state) [
    | inr e ↦ e
    | inl e ↦
        let m = mem-of-null f (apply_delta py message s).quality_flags (valid-clean message s e) in
        cc (apply_delta-Keeps f message s p h)
  ]

  -- Once a book carries a persistent flag (a gap or a missing sequence number, another subscription,
  -- a malformed level, a delta before the snapshot, a reconnect), no sequence of deltas makes it
  -- valid again: it stays flagged, and is invalid after each of them.
  pub flagged_until_snapshot :
      (f : String) (deltas : List Fields) (message : Fields) (s : KalshiOrderBookState)
      → mem f persistent ≡ true
      → mem f s.quality_flags ≡ true
      → ((apply_deltas (message ∷ deltas) s).valid_state ≡ false)
        × (mem f (apply_deltas (message ∷ deltas) s).quality_flags ≡ true)
  unfolding apply_deltas
  flagged_until_snapshot f [] message s p h =
      (flagged-invalid f message s p h, apply_delta-Keeps f message s p h)
  flagged_until_snapshot f (d ∷ ds) message s p h =
      flagged_until_snapshot f ds d (apply_delta py message s) p (apply_delta-Keeps f message s p h)
