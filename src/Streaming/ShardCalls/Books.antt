-- ===== src/Streaming/ShardCalls/Books.antt =====
-- `record_book`, `record_sequence_gap` and `record_resync` keep a shard consistent.
use pmkt_core.Prelude.{
  ℕ, ◌+◌, ◌≡◌, refl, Bool, true, false, List, [], ◌∷◌, Option, none, some, String, arith, string_eq,
  inl, inr, Bool-cases, null,
}
use pmkt_core.Text.{stripped}
use pmkt_core.Streaming.Instrument
use pmkt_core.Streaming.Instrument.{BookReport, InstrumentFeedHealth}
use pmkt_core.Streaming.Projection.{◌>>=◌}
use pmkt_core.Streaming.Shard.{
  FeedShardHealth, notify, instrument_state, instrument_key, change_instrument,
  refresh_reconnect_flag,
}
use pmkt_core.Streaming.Consistency.{
  IsConsistent, SameInstruments, IsConsistent-same, Sound, SoundCall,
  change_instrument-IsConsistent, instrument_state-IsConsistent, refresh_derived-same,
  refresh_reconnect-same, reported-Sound,
}
use pmkt_core.Streaming.ShardOps.{
  count_book, untracked_flags, book_flags, begin_gap, begin_resync, record_book_body, gap_each,
  gap_of, distinct_from, record_sequence_gap_body, discard_gap, record_resync_body, record_book,
  record_sequence_gap, record_resync,
}
use pmkt_core.Streaming.ShardCalls.Steps.{notify-same, later_message-same, message_of-IsConsistent}

-- one instrument looked up and changed
change_named :
    (f : InstrumentFeedHealth → InstrumentFeedHealth) (instrument : Option String)
    (s : FeedShardHealth)
    → IsConsistent s
    → (t : FeedShardHealth) × ((instrument_state instrument s >>= λ r. change_instrument f r.1 r.0)
        ≡ some t)
      × IsConsistent t
change_named f instrument s c =
    let (s1, e1, c1) = instrument_state-IsConsistent instrument s c in
    let (s2, e2, c2) = change_instrument-IsConsistent f (instrument_key s instrument) s1 c1 in
    (s2, rw e1 e2, c2)

count_book-same :
    (valid : Bool) (now : ℕ) (incoming : List String) (s : FeedShardHealth)
    → SameInstruments s (count_book valid now incoming s)
unfolding count_book
count_book-same true now incoming s = record { health = refl; cache = refl; subscribed = refl }
count_book-same false now incoming s = record { health = refl; cache = refl; subscribed = refl }

book_flags-IsConsistent :
    (valid : Bool) (incoming : List String) (s : FeedShardHealth)
    → IsConsistent s
    → IsConsistent (book_flags valid incoming s)
unfolding book_flags untracked_flags
book_flags-IsConsistent valid incoming s c = elim (Bool-cases (null s.instrument_health)) [
  | inr n ↦ rw n (IsConsistent-same (refresh_derived-same s) c)
  | inl e ↦ rw e (elim (Bool-cases valid) [
    | inl v ↦ rw v (record { cached = c.cached; owned = c.owned })
    | inr v ↦ rw v (record { cached = c.cached; owned = c.owned })
  ])
]

end_book-IsConsistent :
    (key : Option String) (valid : Bool) (now : ℕ) (incoming : List String) (s : FeedShardHealth)
    → IsConsistent s
    → IsConsistent (
        notify key false
          (refresh_reconnect_flag (book_flags valid incoming (count_book valid now incoming s))))
end_book-IsConsistent key valid now incoming s c =
    let t = book_flags valid incoming (count_book valid now incoming s) in
    IsConsistent-same (notify-same key false (refresh_reconnect_flag t)) (
      IsConsistent-same (refresh_reconnect-same t) (
        book_flags-IsConsistent valid incoming (count_book valid now incoming s)
          (IsConsistent-same (count_book-same valid now incoming s) c)))

record_book_body-Sound :
    (b : BookReport) (now : ℕ) (instrument : Option String)
    → Sound (record_book_body b now instrument)
unfolding record_book_body
record_book_body-Sound b now instrument s c =
    let (r, e0, c0) = message_of-IsConsistent now instrument s c in
    let (s1, e1, c1) = instrument_state-IsConsistent instrument r.0 c0 in
    let key = instrument_key r.0 instrument in
    let incoming = stripped b.quality_flags in
    let (s2, e2, c2) =
      change_instrument-IsConsistent
        (Instrument.record_book (record b { quality_flags = incoming }) now) key s1 c1 in
    (
      notify key false (
          refresh_reconnect_flag
            (book_flags b.valid_state incoming (count_book b.valid_state now incoming s2))),
      rw (e0, e1, e2) refl,
      end_book-IsConsistent key b.valid_state now incoming s2 c2,
    )

pub record_book-Sound :
    (b : BookReport) (now : ℕ) (instrument : Option String)
    → SoundCall (record_book b now instrument)
unfolding record_book
record_book-Sound b now instrument =
    reported-Sound (record_book_body b now instrument) (record_book_body-Sound b now instrument)

gap_each-Sound : (is : List String) → Sound (gap_each is)
unfolding gap_each
gap_each-Sound [] s c = (s, refl, c)
gap_each-Sound (i ∷ is) s c =
    let (s1, e1, c1) = instrument_state-IsConsistent (some i) s c in
    let (s2, e2, c2) =
      change_instrument-IsConsistent Instrument.record_sequence_gap (instrument_key s (some i)) s1
        c1 in
    let (s3, e3, c3) = gap_each-Sound is s2 c2 in (s3, rw (e1, e2) e3, c3)

gap_of-Sound :
    (instrument : Option String) (is : Option (List String)) → Sound (gap_of instrument is)
unfolding gap_of
gap_of-Sound instrument none s c = change_named Instrument.record_sequence_gap instrument s c
gap_of-Sound instrument (some is) s c = gap_each-Sound (distinct_from [] is) s c

gap_body-Sound :
    (instrument : Option String) (is : Option (List String))
    → Sound (record_sequence_gap_body instrument is)
unfolding record_sequence_gap_body
gap_body-Sound instrument is s c =
    let (t, e, c') =
      gap_of-Sound instrument is (begin_gap s) (record { cached = c.cached; owned = c.owned }) in
    (notify none true t, rw e refl, IsConsistent-same (notify-same none true t) c')

pub record_sequence_gap-Sound :
    (instrument : Option String) (is : Option (List String))
    → SoundCall (record_sequence_gap instrument is)
unfolding record_sequence_gap
record_sequence_gap-Sound instrument is =
    reported-Sound (record_sequence_gap_body instrument is) (gap_body-Sound instrument is)

discard_gap-same : (s : FeedShardHealth) → SameInstruments s (discard_gap s)
unfolding discard_gap
discard_gap-same s = ground arith

begin_resync-IsConsistent :
    (now : Option ℕ) (s : FeedShardHealth) → IsConsistent s → IsConsistent (begin_resync now s)
unfolding begin_resync
begin_resync-IsConsistent now s c =
    IsConsistent-same (later_message-same now (record s { resync_count = s.resync_count + 1 }))
      (record { cached = c.cached; owned = c.owned })

resync_body-Sound :
    (now : Option ℕ) (instrument : Option String) → Sound (record_resync_body now instrument)
unfolding record_resync_body
resync_body-Sound now instrument s c =
    let (s1, e1, c1) =
      instrument_state-IsConsistent instrument (begin_resync now s)
        (begin_resync-IsConsistent now s c) in
    let key = instrument_key (begin_resync now s) instrument in
    let (s2, e2, c2) = change_instrument-IsConsistent (Instrument.record_resync now) key s1 c1 in
    (
      notify key false (discard_gap s2),
      rw (e1, e2) refl,
      IsConsistent-same (notify-same key false (discard_gap s2))
          (IsConsistent-same (discard_gap-same s2) c2),
    )

pub record_resync-Sound :
    (now : Option ℕ) (instrument : Option String) → SoundCall (record_resync now instrument)
unfolding record_resync
record_resync-Sound now instrument =
    reported-Sound (record_resync_body now instrument) (resync_body-Sound now instrument)
