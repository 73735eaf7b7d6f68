-- ===== src/Streaming/Supervisor/SameShard.antt =====
-- Each method of a shard leaves its name and its subscriptions.
use pmkt_core.Prelude.{
  ℕ, ◌≡◌, refl, ◌∙◌, Bool, true, false, not, ◌||◌, List, [], ◌∷◌, Option, none, some, String,
  if◌then◌else◌, string_eq, inl, inr, Bool-cases, arith, null,
}
use pmkt_core.Collections.Dict.{get}
use pmkt_core.Streaming.Instrument
use pmkt_core.Streaming.Instrument.{InstrumentFeedHealth, BookReport}
use pmkt_core.Streaming.Projection.{◌>>=◌, Instruments}
use pmkt_core.Streaming.Shard.{FeedShardHealth, refresh_derived_book_flags}
use pmkt_core.Streaming.ShardOps
use pmkt_core.Streaming.ShardStale
use pmkt_core.Streaming.ShardCalls.{
  Call, connect, disconnect, probe, reconnect, message, book, gap, resync, fail, expire_clocks,
  expire_instrument, expire, perform,
}
use pmkt_core.Streaming.Supervisor.Identity.{
  identity, itself, shard_of, IsOf, IsOfPair, IsOfBy-trans, bind_IsOf, instrument_state-IsOf,
  change_instrument-IsOf, refresh_derived-identity, refresh_reconnect-identity,
  later_message-identity, notify-identity, reported-IsOf, chosen_identity, change_then,
}

message_of-IsOf :
    (now : ℕ) (i : Option String) (s : FeedShardHealth) → IsOfPair s (ShardOps.message_of now i s)
unfolding ShardOps.message_of ShardOps.begin_message
message_of-IsOf now i s =
    bind_IsOf shard_of shard_of s _ _ (instrument_state-IsOf i (ShardOps.begin_message now s)) λ x.
      bind_IsOf itself shard_of x.0 _ _
        (change_instrument-IsOf (Instrument.record_message now) x.1 x.0)
        λ t. notify-identity x.1 false t

mark_reconnect-IsOf :
    (now : Option ℕ) (s : FeedShardHealth) → IsOf s (ShardOps.mark_reconnect_body now s)
unfolding ShardOps.mark_reconnect_body ShardOps.reset_shard
mark_reconnect-IsOf now s =
    change_then s _ _
      (λ c. notify-identity none true _ ∙ later_message-identity now _ ∙ refresh_derived-identity _)

count_book-identity :
    (valid : Bool) (now : ℕ) (incoming : List String) (s : FeedShardHealth)
    → identity (ShardOps.count_book valid now incoming s) ≡ identity s
unfolding ShardOps.count_book
count_book-identity true now incoming s = refl
count_book-identity false now incoming s = refl

book_flags-identity :
    (valid : Bool) (incoming : List String) (s : FeedShardHealth)
    → identity (ShardOps.book_flags valid incoming s) ≡ identity s
unfolding ShardOps.book_flags ShardOps.untracked_flags
book_flags-identity valid incoming s = elim (Bool-cases (null s.instrument_health)) [
  | inr b ↦ rw b (refresh_derived-identity s)
  | inl b ↦ rw b (untracked valid)
]
  where
    untracked : (v : Bool) → identity (ShardOps.untracked_flags v incoming s) ≡ identity s
    untracked true = refl
    untracked false = refl

record_book-IsOf :
    (b : BookReport) (now : ℕ) (i : Option String) (s : FeedShardHealth)
    → IsOf s (ShardOps.record_book_body b now i s)
unfolding ShardOps.record_book_body
record_book-IsOf b now i s = bind_IsOf shard_of itself s _ _ (message_of-IsOf now i s) λ x.
    bind_IsOf shard_of itself x.0 _ _ (instrument_state-IsOf i x.0) λ y.
      bind_IsOf itself itself y.0 _ _ (change_instrument-IsOf _ y.1 y.0) λ t.
        notify-identity y.1 false _
        ∙ refresh_reconnect-identity _
        ∙ book_flags-identity b.valid_state _ _
        ∙ count_book-identity b.valid_state now _ t

gap_each-IsOf : (is : List String) (s : FeedShardHealth) → IsOf s (ShardOps.gap_each is s)
unfolding ShardOps.gap_each
gap_each-IsOf [] s = refl
gap_each-IsOf (i ∷ is) s = bind_IsOf shard_of itself s _ _ (instrument_state-IsOf (some i) s) λ y.
    bind_IsOf itself itself y.0 _ _ (change_instrument-IsOf Instrument.record_sequence_gap y.1 y.0)
      λ t. gap_each-IsOf is t

gap_of-IsOf :
    (i : Option String) (is : Option (List String)) (s : FeedShardHealth)
    → IsOf s (ShardOps.gap_of i is s)
unfolding ShardOps.gap_of
gap_of-IsOf i none s =
    bind_IsOf shard_of itself s _ _ (instrument_state-IsOf i s)
      λ y. change_instrument-IsOf Instrument.record_sequence_gap y.1 y.0
gap_of-IsOf i (some is) s = gap_each-IsOf (ShardOps.distinct_from [] is) s

record_sequence_gap-IsOf :
    (i : Option String) (is : Option (List String)) (s : FeedShardHealth)
    → IsOf s (ShardOps.record_sequence_gap_body i is s)
unfolding ShardOps.record_sequence_gap_body ShardOps.begin_gap
record_sequence_gap-IsOf i is s =
    bind_IsOf itself itself s _ _ (gap_of-IsOf i is (ShardOps.begin_gap s))
      λ t. notify-identity none true t

discard_gap-identity : (s : FeedShardHealth) → identity (ShardOps.discard_gap s) ≡ identity s
unfolding ShardOps.discard_gap
discard_gap-identity s = ground arith

record_resync-IsOf :
    (now : Option ℕ) (i : Option String) (s : FeedShardHealth)
    → IsOf s (ShardOps.record_resync_body now i s)
unfolding ShardOps.record_resync_body ShardOps.begin_resync
record_resync-IsOf now i s =
    bind_IsOf shard_of itself s _ _
      (IsOfBy-trans shard_of s (ShardOps.begin_resync now s) _ (later_message-identity now _)
        (instrument_state-IsOf i (ShardOps.begin_resync now s)))
      λ y.
        bind_IsOf itself itself y.0 _ _
          (change_instrument-IsOf (Instrument.record_resync now) y.1 y.0)
          λ t. notify-identity y.1 false _ ∙ discard_gap-identity t

stale_clocks-identity :
    (now a b : ℕ) (s : FeedShardHealth) → identity (ShardStale.stale_clocks now a b s) ≡ identity s
unfolding ShardStale.stale_clocks ShardStale.stale_message_clock ShardStale.stale_book_clock
stale_clocks-identity now a b s =
    let t =
      if Instrument.is_stale (ShardStale.last_message_age_ms s now) a
      then ShardStale.stale_message_clock s
      else s in
    chosen_identity _ t (ShardStale.stale_book_clock t) refl
    ∙ chosen_identity _ s (ShardStale.stale_message_clock s) refl

pub invalidate_clocks-IsOf :
    (now a b : ℕ) (s : FeedShardHealth)
    → IsOfPair s (ShardStale.invalidate_shard_clocks_if_stale now a b s)
unfolding ShardStale.invalidate_shard_clocks_if_stale
invalidate_clocks-IsOf now a b s =
    reported-IsOf (λ x. some (ShardStale.stale_clocks now a b x)) s
      (stale_clocks-identity now a b s)

expire_body-IsOf :
    (now a b : ℕ) (r : Bool) (i : String) (s : FeedShardHealth)
    → IsOf s (ShardStale.expire_body now a b r i s)
unfolding ShardStale.expire_body
expire_body-IsOf now a b r i s =
    bind_IsOf itself itself s _ _ (change_instrument-IsOf _ (some i) s) λ t. refreshed r t
  where
    refreshed :
        (r : Bool) (t : FeedShardHealth)
        → identity (if r then refresh_derived_book_flags t else t) ≡ identity t
    refreshed true t = refresh_derived-identity t
    refreshed false t = refl

pub invalidate_instrument-IsOf :
    (now a b : ℕ) (r : Bool) (i : String) (s : FeedShardHealth)
    → IsOfPair s (ShardStale.invalidate_instrument_if_stale now a b r i s)
unfolding ShardStale.invalidate_instrument_if_stale
invalidate_instrument-IsOf now a b r i s =
    let found = get i s.instrument_health in
    elim (Bool-cases
      (ShardStale.stays_fresh now a b found || not (ShardStale.will_transition now a b found))) [
        | inl f ↦ rw f refl
        | inr f ↦
            rw f (
              reported-IsOf (ShardStale.expire_body now a b r i) s (expire_body-IsOf now a b r i s))
      ]

expire_each-IsOf :
    (now a b : ℕ) (h : Instruments) (s : FeedShardHealth) (transitioned : Bool)
    → IsOfPair s (ShardStale.expire_each now a b h s transitioned)
unfolding ShardStale.expire_each
expire_each-IsOf now a b [] s transitioned = refl
expire_each-IsOf now a b ((k, v) ∷ h) s transitioned =
    bind_IsOf shard_of shard_of s _ _ (invalidate_instrument-IsOf now a b false k s)
      λ r. expire_each-IsOf now a b h r.0 (r.1 || transitioned)

invalidate_body-IsOf :
    (now a b : ℕ) (s : FeedShardHealth) → IsOf s (ShardStale.invalidate_body now a b s)
unfolding ShardStale.invalidate_body
invalidate_body-IsOf now a b s =
    let t = ShardStale.stale_clocks now a b s in
    bind_IsOf shard_of itself s _ _
      (IsOfBy-trans shard_of s t _ (stale_clocks-identity now a b s)
        (expire_each-IsOf now a b t.instrument_health t false))
      λ r. chosen_identity r.1 r.0 (refresh_derived_book_flags r.0) (refresh_derived-identity r.0)

-- no call changes the name or the subscriptions of a shard
pub perform-IsOf : (c : Call) (s : FeedShardHealth) → IsOfPair s (perform c s)
unfolding perform ShardOps.mark_connected ShardOps.mark_disconnected ShardOps.mark_transport_alive
    ShardOps.mark_reconnect ShardOps.record_message ShardOps.record_book
    ShardOps.record_sequence_gap ShardOps.record_resync ShardOps.record_error
    ShardOps.mark_connected_body ShardOps.mark_disconnected_body ShardOps.mark_transport_alive_body
    ShardOps.record_error_body ShardStale.invalidate_if_stale
perform-IsOf (connect now) s =
    reported-IsOf (λ x. some (ShardOps.mark_connected_body now x)) s (notify-identity none true _)
perform-IsOf disconnect s = reported-IsOf (λ x. some (ShardOps.mark_disconnected_body x)) s refl
perform-IsOf probe s = reported-IsOf (λ x. some (ShardOps.mark_transport_alive_body x)) s refl
perform-IsOf (reconnect now) s =
    reported-IsOf (ShardOps.mark_reconnect_body now) s (mark_reconnect-IsOf now s)
perform-IsOf (message now i) s =
    reported-IsOf (λ x. ShardOps.message_of now i x >>= λ r. some r.0) s
      (bind_IsOf shard_of itself s _ _ (message_of-IsOf now i s) (λ r. refl))
perform-IsOf (book b now i) s =
    reported-IsOf (ShardOps.record_book_body b now i) s (record_book-IsOf b now i s)
perform-IsOf (gap i is) s =
    reported-IsOf (ShardOps.record_sequence_gap_body i is) s (record_sequence_gap-IsOf i is s)
perform-IsOf (resync now i) s =
    reported-IsOf (ShardOps.record_resync_body now i) s (record_resync-IsOf now i s)
perform-IsOf (fail m) s = reported-IsOf (λ x. some (ShardOps.record_error_body m x)) s refl
perform-IsOf (expire_clocks now a b) s = invalidate_clocks-IsOf now a b s
perform-IsOf (expire_instrument now a b r i) s = invalidate_instrument-IsOf now a b r i s
perform-IsOf (expire now a b) s =
    reported-IsOf (ShardStale.invalidate_body now a b) s (invalidate_body-IsOf now a b s)
