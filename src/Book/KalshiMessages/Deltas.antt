-- ===== src/Book/KalshiMessages/Deltas.antt =====
-- What one delta does to a Kalshi book, and what a valid book says of the sequence numbers.
use pmkt_core.Prelude.{
  or_else, ◌≡◌, refl, ◌∙◌, true, false, [], ◌∷◌, Option, none, some, String, if◌then◌else◌, arith,
  string_eq, inl, inr, Bool-cases, ◌==◌,
}
use pmkt_core.Prelude.Int.{ℤ, pos, ◌+ℤ◌, leb_ℤ, ◌<ℤ◌, beq_ℤ_iff, int_eq}
use pmkt_core.Collections.Dict.{get}
use pmkt_core.Collections.Sets.{mem, add, mem-of-null, mem-inter}
use pmkt_core.Json.{Fields, Python, get_value, parse_int, str_or, first_present, finite_decimal}
use pmkt_core.Book.Levels.Sound.{get-set_level}
use pmkt_core.Book.Levels.{set_level, is_price}
use pmkt_core.Book.Kalshi.{
  KalshiOrderBookState, flag_invalid, message_payload, persistent_flags, persistent, apply_sequence,
  set_sid, check_seq, set_seq, sequence, refresh_validity,
}
use pmkt_core.Book.KalshiMessages.{
  or_else, take_header, sequence_of, early_delta, change_of, change_level, delta_effect,
  apply_delta, add_flag, flag_negative, change_yes, change_no, next_size,
}
use pmkt_core.Book.KalshiMessages.Sticky.{Keeps-change, mem-refreshed, valid-clean}

module _ (py : Python) where
  -- the side, the price and the change of size that a delta carries
  abbrev pub side_of : Fields → String
  side_of message = py.lower (str_or py (get_value (message_payload message) "side") "")

  abbrev pub price_of : Fields → Option ℤ
  price_of message =
      finite_decimal py (first_present (message_payload message) ("price_dollars" ∷ "price" ∷ []))

  abbrev pub delta_of : Fields → Option ℤ
  delta_of message =
      finite_decimal py
        (first_present (message_payload message) ("delta_fp" ∷ "delta" ∷ "size_delta" ∷ []))

  abbrev pub sid_of : Fields → Option ℤ
  sid_of message = parse_int py (get_value message "sid")

  abbrev pub seq_of : Fields → Option ℤ
  seq_of message = parse_int py (get_value message "seq")

  sequenced : Fields → KalshiOrderBookState → KalshiOrderBookState
  sequenced message s =
      sequence_of py message (early_delta py (take_header py (message_payload message) s))

  sides-sequenced :
      (message : Fields) (s : KalshiOrderBookState)
      → ((sequenced message s).yes_bids ≡ s.yes_bids) × ((sequenced message s).no_bids ≡ s.no_bids)
  unfolding sequenced sequence_of early_delta take_header apply_sequence sequence set_sid check_seq
      set_seq flag_invalid
  sides-sequenced message s = ground arith

  yes_change :
      (p d : ℤ) (s : KalshiOrderBookState)
      → is_price py p ≡ true
      → ((change_level py "yes" (some p) (some d) s).yes_bids
          ≡ set_level p (next_size py p d s.yes_bids) s.yes_bids)
        × ((change_level py "yes" (some p) (some d) s).no_bids ≡ s.no_bids)
  unfolding change_level change_yes flag_negative add_flag
  yes_change p d s e = ground arith

  -- A delta on the YES side at a price from 0 to 1 leaves the NO ladder, and changes the YES ladder at
  -- that price alone: to the sum of the old size (0 where there was none) and the delta, or to no
  -- level where that sum is not positive.
  pub apply_delta-yes :
      (message : Fields) (s : KalshiOrderBookState) (p d : ℤ)
      → side_of message ≡ "yes"
      → price_of message ≡ some p
      → delta_of message ≡ some d
      → is_price py p ≡ true
      → (q : ℤ)
      → (get q (apply_delta py message s).yes_bids ≡ (
          if p == q
          then (let size = or_else (get p s.yes_bids) (pos 0) +ℤ d in
              if leb_ℤ size (pos 0) then none else some size)
          else get q s.yes_bids))
        × ((apply_delta py message s).no_bids ≡ s.no_bids)
  unfolding apply_delta refresh_validity delta_effect change_of next_size
  apply_delta-yes message s p d a b c e q =
      let t = sequenced message s in
      let same = sides-sequenced message s in
      let y = yes_change p d t e in
      unfold sequenced in
      rw (a, b, c)
        (
          rw (y.0, same.0) (get-set_level p q (or_else (get p s.yes_bids) (pos 0) +ℤ d) s.yes_bids),
          y.1 ∙ same.1,
        )

  -- a valid book has none of the persistent flags, from its sequence check on
  sequence-clean :
      (f : String) (message : Fields) (s : KalshiOrderBookState)
      → mem f persistent ≡ true
      → (apply_delta py message s).valid_state ≡ true
      → mem f (sequenced message s).quality_flags ≡ false
  unfolding apply_delta refresh_validity delta_effect change_of persistent_flags sequenced
  sequence-clean f message s p v = elim (Bool-cases (mem f (sequenced message s).quality_flags)) [
    | inr e ↦ e
    | inl e ↦
        let t = delta_effect py message s in
        let kept =
          Keeps-change py f (side_of message) (price_of message) (delta_of message)
            (sequenced message s) e in
        let shown =
          mem-refreshed py.one f (persistent_flags t) t (rw mem-inter (rw (kept, p) refl)) in
        cc (
          shown,
          mem-of-null f (apply_delta py message s).quality_flags (valid-clean py message s v),
        )
  ]

  seq_inversion :
      (a b : Option ℤ) (t : KalshiOrderBookState) (sid0 seq0 : ℤ)
      → t.sid ≡ some sid0
      → t.last_seq ≡ some seq0
      → mem "missing_sequence" (apply_sequence a b t).quality_flags ≡ false
      → mem "sid_changed" (apply_sequence a b t).quality_flags ≡ false
      → mem "seq_gap" (apply_sequence a b t).quality_flags ≡ false
      → (n : ℤ) × (a ≡ some sid0)
        × (b ≡ some n)
        × (seq0 <ℤ n)
        × ((apply_sequence a b t).sid ≡ some sid0)
        × ((apply_sequence a b t).last_seq ≡ some n)
  unfolding apply_sequence sequence set_sid check_seq set_seq flag_invalid add mem
  seq_inversion none b t sid0 seq0 e f m c g = absurd (ground arith)
  seq_inversion (some sid) none t sid0 seq0 e f m c g = absurd (ground arith)
  seq_inversion (some sid) (some n) t sid0 seq0 e f m c g = (
    n,
    ground (arith, beq_ℤ_iff sid sid0),
    refl,
    ground (arith, beq_ℤ_iff sid sid0),
    ground (arith, beq_ℤ_iff sid sid0),
    ground (arith, beq_ℤ_iff sid sid0),
  )

  change_level-sequence :
      (side : String) (price d : Option ℤ) (s : KalshiOrderBookState)
      → ((change_level py side price d s).sid ≡ s.sid)
        × ((change_level py side price d s).last_seq ≡ s.last_seq)
  unfolding change_level change_yes change_no flag_negative add_flag
  change_level-sequence side none d s = (refl, refl)
  change_level-sequence side (some p) none s = (refl, refl)
  change_level-sequence side (some p) (some d) s = ground arith

  early_sequence :
      (message : Fields) (s : KalshiOrderBookState)
      → let t = early_delta py (take_header py (message_payload message) s) in
        (t.sid ≡ s.sid) × (t.last_seq ≡ s.last_seq)
  unfolding early_delta take_header
  early_sequence message s = ground arith

  kept_sequence :
      (message : Fields) (s : KalshiOrderBookState)
      → ((apply_delta py message s).sid ≡ (sequenced message s).sid)
        × ((apply_delta py message s).last_seq ≡ (sequenced message s).last_seq)
  unfolding apply_delta refresh_validity delta_effect change_of sequenced
  kept_sequence message s =
      change_level-sequence (side_of message) (price_of message) (delta_of message)
        (sequenced message s)

  -- A book that knows its subscription and the last sequence number is valid after a delta only if the
  -- delta names the same subscription and a larger sequence number, which the book then keeps.
  pub valid_delta-sequence :
      (message : Fields) (s : KalshiOrderBookState) (sid0 seq0 : ℤ)
      → s.sid ≡ some sid0
      → s.last_seq ≡ some seq0
      → (apply_delta py message s).valid_state ≡ true
      → (n : ℤ) × (sid_of message ≡ some sid0)
        × (seq_of message ≡ some n)
        × (seq0 <ℤ n)
        × ((apply_delta py message s).sid ≡ some sid0)
        × ((apply_delta py message s).last_seq ≡ some n)
  valid_delta-sequence message s sid0 seq0 e f v =
      let t = early_delta py (take_header py (message_payload message) s) in
      let k = kept_sequence message s in
      let r =
        seq_inversion (sid_of message) (seq_of message) t sid0 seq0
          ((early_sequence message s).0 ∙ e) ((early_sequence message s).1 ∙ f)
          (unfold sequenced sequence_of in
            sequence-clean "missing_sequence" message s (unfold mem in refl) v)
          (unfold sequenced sequence_of in
            sequence-clean "sid_changed" message s (unfold mem in refl) v)
          (unfold sequenced sequence_of in
            sequence-clean "seq_gap" message s (unfold mem in refl) v) in
      (
        r.0,
        r.1,
        r.2,
        r.3,
        k.0 ∙ (unfold sequenced sequence_of in r.4),
        k.1 ∙ (unfold sequenced sequence_of in r.5),
      )
