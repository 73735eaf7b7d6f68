-- ===== src/Streaming/Instrument/Flags.antt =====
-- The quality flags that `record_book` leaves on an instrument.
use pmkt_core.Prelude.{
  ℕ, ◌≡◌, refl, Bool, true, false, not, ◌&&◌, ◌||◌, List, [], ◌∷◌, String, if◌then◌else◌, or_else,
  arith, string_eq, ◌==◌,
}
use pmkt_core.Text.{stripped}
use pmkt_core.Collections.Sets.{mem, mem-discard, mem-of-disjoint, set_laws}
use pmkt_core.Streaming.Instrument.{
  InstrumentFeedHealth, BookReport, book_integrity_quality_flags, current_book_quality_flags,
  merge_book_flags, clear_integrity, close_book, record_message, record_book,
}

mem-merge :
    (f : String) (flags incoming : List String)
    → mem f (merge_book_flags flags incoming) ≡ (
        ((mem f flags && not (mem f current_book_quality_flags))
          || (mem f incoming && mem f current_book_quality_flags))
        || (mem f incoming && mem f book_integrity_quality_flags))
unfolding merge_book_flags
mem-merge f flags incoming = simp set_laws

mem-clear :
    (f : String) (c : Bool) (flags : List String)
    → mem f (clear_integrity c flags)
      ≡ (mem f flags && not (c && ((f == "reconnect") || mem f book_integrity_quality_flags)))
unfolding clear_integrity
mem-clear f true flags = simp set_laws (ground arith)
mem-clear f false flags = ground arith

mem-close :
    (f : String) (v : Bool) (now : ℕ) (incoming : List String) (s : InstrumentFeedHealth)
    → mem f (close_book v now incoming s).quality_flags ≡ (
        if v
        then mem f s.quality_flags
          && not (
              (f == "invalid_book")
              || (f == "stale_books")
              || (f == "reconnect")
              || mem f book_integrity_quality_flags)
        else ((f == "invalid_book") || mem f s.quality_flags || mem f incoming))
unfolding close_book
mem-close f true now incoming s = simp set_laws (ground arith)
mem-close f false now incoming s = simp set_laws (ground arith)

-- The verdict that `record_book` uses for the integrity of the book.
abbrev pub integrity_verdict : BookReport → Bool
integrity_verdict b = or_else b.book_integrity_valid b.valid_state

mem-record_book :
    (f : String) (b : BookReport) (now : ℕ) (s : InstrumentFeedHealth)
    → mem f (record_book b now s).quality_flags ≡ (
        let incoming = mem f (stripped b.quality_flags) in
        let cur = mem f current_book_quality_flags in
        let integ = mem f book_integrity_quality_flags in
        let old = mem f s.quality_flags && not (f == "stale_messages") in
        let merged = ((old && not cur) || (incoming && cur)) || (incoming && integ) in
        let cleared = merged && not (integrity_verdict b && ((f == "reconnect") || integ)) in
        if b.valid_state
        then cleared
          && not ((f == "invalid_book") || (f == "stale_books") || (f == "reconnect") || integ)
        else ((f == "invalid_book") || cleared || incoming))
unfolding record_book record_message
mem-record_book f b now s = simp (mem-close, mem-clear, mem-merge, mem-discard)

-- the flags that `record_book` handles by name
abbrev named : List String
named = "stale_messages" ∷ "invalid_book" ∷ "stale_books" ∷ "reconnect" ∷ []

current_apart :
    (f : String)
    → mem f current_book_quality_flags ≡ true
    → (mem f named ≡ false) × (mem f book_integrity_quality_flags ≡ false)
unfolding mem
current_apart f h = (
  mem-of-disjoint f current_book_quality_flags named refl h,
  mem-of-disjoint f current_book_quality_flags book_integrity_quality_flags refl h,
)

integrity_apart :
    (f : String)
    → mem f book_integrity_quality_flags ≡ true
    → (mem f named ≡ false) × (mem f current_book_quality_flags ≡ false)
unfolding mem
integrity_apart f h = (
  mem-of-disjoint f book_integrity_quality_flags named refl h,
  mem-of-disjoint f book_integrity_quality_flags current_book_quality_flags refl h,
)

named_parts :
    (f : String)
    → mem f named ≡ false
    → ((f == "stale_messages") ≡ false)
      × ((f == "invalid_book") ≡ false)
      × ((f == "stale_books") ≡ false)
      × ((f == "reconnect") ≡ false)
unfolding mem
named_parts f h = ground arith

-- After `record_book` a current-book flag is set exactly when the report carries it, whatever was
-- set before. An integrity flag is gone after a valid book; after an invalid one it is set exactly
-- when the report carries it, or when it was set before and the report does not vouch for the
-- integrity of the book.
pub record_book-flags :
    (f : String) (b : BookReport) (now : ℕ) (s : InstrumentFeedHealth)
    → (mem f current_book_quality_flags ≡ true
        → mem f (record_book b now s).quality_flags ≡ mem f (stripped b.quality_flags))
      × (mem f book_integrity_quality_flags ≡ true
          → mem f (record_book b now s).quality_flags ≡ (
              if b.valid_state
              then false
              else (mem f (stripped b.quality_flags)
                  || (mem f s.quality_flags && not (integrity_verdict b)))))
record_book-flags f b now s = (
  λ h. let (n, i) = current_apart f h in ground (arith, mem-record_book f b now s, named_parts f n),
  λ h.
      let (n, c) = integrity_apart f h in
      ground (arith, mem-record_book f b now s, named_parts f n),
)
