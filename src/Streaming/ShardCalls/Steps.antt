-- ===== src/Streaming/ShardCalls/Steps.antt =====
-- Each method of a shard keeps it consistent, and is not refused.
use pmkt_core.Prelude.{
  ℕ, ◌≡◌, refl, Bool, true, false, [], ◌∷◌, Option, none, some, String, arith, string_eq, is_some,
}
use pmkt_core.Collections.Dict.{get}
use pmkt_core.Streaming.Instrument
use pmkt_core.Streaming.Instrument.{BookReport, InstrumentFeedHealth}
use pmkt_core.Streaming.Projection.{Instruments}
use pmkt_core.Streaming.Projection.Rebuild.{rebuild-Matches}
use pmkt_core.Streaming.Shard.{
  instrument_key, refresh_derived_book_flags, FeedShardHealth, notify, reconnect_all,
}
use pmkt_core.Streaming.Consistency.{
  same-Sound, IsConsistent, SameInstruments, IsConsistent-same, Sound, SoundCall,
  SameInstruments-refl, change_instrument-IsConsistent, instrument_state-IsConsistent,
  refresh_derived-same, reported-Sound,
}
use pmkt_core.Streaming.ShardOps.{
  begin_message, reset_shard, mark_disconnected_body, mark_transport_alive_body, record_error_body,
  mark_connected_body, mark_reconnect_body, later_message, message_of, mark_connected,
  mark_disconnected, mark_transport_alive, mark_reconnect, record_message, record_error,
}

pub notify-same :
    (i : Option String) (b : Bool) (s : FeedShardHealth) → SameInstruments s (notify i b s)
unfolding notify
notify-same i b s = record { health = refl; cache = refl; subscribed = refl }

pub mark_connected-Sound : (now : ℕ) → SoundCall (mark_connected now)
unfolding mark_connected notify
mark_connected-Sound now =
    same-Sound (mark_connected_body now)
      (λ s. record { health = refl; cache = refl; subscribed = refl })

pub mark_disconnected-Sound : SoundCall mark_disconnected
unfolding mark_disconnected
mark_disconnected-Sound =
    same-Sound mark_disconnected_body
      (λ s. record { health = refl; cache = refl; subscribed = refl })

pub mark_transport_alive-Sound : SoundCall mark_transport_alive
unfolding mark_transport_alive
mark_transport_alive-Sound =
    same-Sound mark_transport_alive_body
      (λ s. record { health = refl; cache = refl; subscribed = refl })

pub record_error-Sound : (message : Option String) → SoundCall (record_error message)
unfolding record_error
record_error-Sound message =
    same-Sound (record_error_body message)
      (λ s. record { health = refl; cache = refl; subscribed = refl })

pub later_message-same :
    (now : Option ℕ) (s : FeedShardHealth) → SameInstruments s (later_message now s)
later_message-same none s = SameInstruments-refl s
later_message-same (some now) s = record { health = refl; cache = refl; subscribed = refl }

get-reconnect_all :
    (k : String) (h : Instruments) → is_some (get k (reconnect_all h)) ≡ is_some (get k h)
unfolding get reconnect_all
get-reconnect_all k [] = refl
get-reconnect_all k ((j, state) ∷ h) = ground (arith, get-reconnect_all k h)

end_reconnect-same :
    (now : Option ℕ) (s : FeedShardHealth)
    → IsConsistent s
    → IsConsistent (notify none true (later_message now (refresh_derived_book_flags s)))
end_reconnect-same now s c =
    IsConsistent-same (notify-same none true (later_message now (refresh_derived_book_flags s))) (
      IsConsistent-same (later_message-same now (refresh_derived_book_flags s))
        (IsConsistent-same (refresh_derived-same s) c))

reconnect_body-Sound : (now : Option ℕ) → Sound (mark_reconnect_body now)
unfolding mark_reconnect_body
reconnect_body-Sound now s c =
    let (cache, e, m) = rebuild-Matches (reconnect_all s.instrument_health) in
    let t = reset_shard (reconnect_all s.instrument_health) cache s in
    (
      notify none true (later_message now (refresh_derived_book_flags t)),
      rw e refl,
      end_reconnect-same now t (record {
        cached = m;
        owned = λ k h. c.owned k (rw (get-reconnect_all k s.instrument_health) at h);
      }),
    )

pub mark_reconnect-Sound : (now : Option ℕ) → SoundCall (mark_reconnect now)
unfolding mark_reconnect
mark_reconnect-Sound now = reported-Sound (mark_reconnect_body now) (reconnect_body-Sound now)

pub message_of-IsConsistent :
    (now : ℕ) (instrument : Option String) (s : FeedShardHealth)
    → IsConsistent s
    → (r : FeedShardHealth × Option String) × (message_of now instrument s ≡ some r)
      × IsConsistent r.0
unfolding message_of
message_of-IsConsistent now instrument s c =
    let (s1, e1, c1) =
      instrument_state-IsConsistent instrument (begin_message now s)
        (record { cached = c.cached; owned = c.owned }) in
    let key = instrument_key (begin_message now s) instrument in
    let (s2, e2, c2) = change_instrument-IsConsistent (Instrument.record_message now) key s1 c1 in
    ((notify key false s2, key), rw (e1, e2) refl, IsConsistent-same (notify-same key false s2) c2)

pub record_message-Sound :
    (now : ℕ) (instrument : Option String) → SoundCall (record_message now instrument)
unfolding record_message
record_message-Sound now instrument =
    reported-Sound _
      λ s c. let (r, e, c') = message_of-IsConsistent now instrument s c in (r.0, rw e refl, c')
