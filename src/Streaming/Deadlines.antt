-- ===== src/Streaming/Deadlines.antt =====
-- The staleness deadlines of `LiveFeedSupervisor` in src/pmkt/streaming/supervisor.py: for each venue a
-- heap whose entries are cancelled lazily, by the generation and the deadline that a key now has.
-- A heap of heapq is the list of its entries in the order in which they are popped. A Counter is a
-- function, and it counts live keys, so it is never 0 where it falls by 1.
pub mod Checking
pub mod Bounds
pub mod Counts
pub mod Expiry
pub mod Handling
pub mod Heaps
pub mod Popping
pub mod Queue
pub mod Spec
use Prim.Native.Nat.{Ordering}
use Prim.Native.String.{compare as compare_text}
use pmkt_core.Prelude.{
  ℕ, ◌+◌, ◌-◌, ◌*◌, ◌≡◌, ◌↔◌, refl, ap, Bool, true, false, not, ◌&&◌, List, [], ◌∷◌, Option, none,
  some, String, if◌then◌else◌, ltb, leb, max, Eq, string_eq, nat_eq, ◌==◌, or_else, is_some, arith,
  length,
}
use pmkt_core.Collections.Dict.{get, put, remove}

-- (venue, shard_id, instrument, kind)
pub record Key : Type 0 where
  pub venue : String
  pub shard_id : String
  pub instrument : String
  pub kind : String

abbrev pub key_beq : Key → Key → Bool
key_beq a b =
    ((a.venue == b.venue) && (a.shard_id == b.shard_id))
    && ((a.instrument == b.instrument) && (a.kind == b.kind))

pub key_beq_iff : (a b : Key) → (key_beq a b ≡ true) ↔ (a ≡ b)
key_beq_iff a b = (
  λ h. ground (
    arith,
    string_eq.beq_iff a.venue b.venue,
    string_eq.beq_iff a.shard_id b.shard_id,
    string_eq.beq_iff a.instrument b.instrument,
    string_eq.beq_iff a.kind b.kind,
  ),
  λ h. ground (
    arith,
    string_eq.beq_iff a.venue b.venue,
    string_eq.beq_iff a.shard_id b.shard_id,
    string_eq.beq_iff a.instrument b.instrument,
    string_eq.beq_iff a.kind b.kind,
  ),
)

instance abbrev pub key_eq : Eq Key
key_eq = record { beq = key_beq; beq_iff = key_beq_iff }

-- an entry of the heap of its key's venue
pub record Entry : Type 0 where
  pub deadline : ℕ
  pub generation : ℕ
  pub key : Key

abbrev pub later_text : String → String → Bool → Bool
later_text a b rest = elim (compare_text a b) [
  | Ordering.lt ↦ true
  | Ordering.eq ↦ rest
  | Ordering.gt ↦ false
]

abbrev later_number : ℕ → ℕ → Bool → Bool
later_number a b rest = if ltb a b then true else if a == b then rest else false

-- the order of the tuples (deadline, generation, shard_id, instrument, kind)
unfoldable pub before : Entry → Entry → Bool
before e f = later_number e.deadline f.deadline (
    later_number e.generation f.generation (
      later_text e.key.shard_id f.key.shard_id
        (later_text e.key.instrument f.key.instrument (later_text e.key.kind f.key.kind true))))

-- heapq.heappush
unfoldable pub push : Entry → List Entry → List Entry
unfolding before
push e [] = e ∷ []
push e (f ∷ heap) = if before e f then e ∷ f ∷ heap else f ∷ push e heap

pub record Deadlines : Type 0 where
  -- _stale_deadline_heaps
  pub heaps : List (String × List Entry)
  -- _stale_deadline_generations
  pub generations : List (Key × ℕ)
  -- _stale_deadline_values
  pub values : List (Key × ℕ)
  -- _active_stale_deadline_counts
  pub active : String → ℕ

abbrev pub no_deadlines : Deadlines
no_deadlines = record { heaps = []; generations = []; values = []; active = λ _. 0 }

unfoldable pub heap_of : String → Deadlines → List Entry
unfolding get
heap_of venue q = or_else (get venue q.heaps) []

unfoldable pub generation_of : Key → Deadlines → ℕ
unfolding get
generation_of key q = or_else (get key q.generations) 0

abbrev adjust : (ℕ → ℕ) → String → (String → ℕ) → String → ℕ
adjust f venue active v = if venue == v then f (active v) else active v

-- heapify over the live keys of a venue
unfoldable pub live_heap : String → List (Key × ℕ) → Deadlines → List Entry
unfolding push generation_of
live_heap venue [] q = []
live_heap venue ((key, deadline) ∷ values) q =
    let rest = live_heap venue values q in
    if key.venue == venue
    then push (record { deadline = deadline; generation = generation_of key q; key = key }) rest
    else rest

-- _compact_stale_deadline_heap
unfoldable pub compact : String → Deadlines → Deadlines
unfolding live_heap put
compact venue q = record q { heaps = put venue (live_heap venue q.values q) q.heaps }

-- the deadline is set and pushed with a new generation
unfoldable pub enter : Key → ℕ → Deadlines → Deadlines
unfolding generation_of heap_of get put push
enter key deadline q =
    let generation = generation_of key q + 1 in
    let entry : Entry = record { deadline = deadline; generation = generation; key = key } in
    record {
      heaps = put key.venue (push entry (heap_of key.venue q)) q.heaps;
      generations = put key generation q.generations;
      values = put key deadline q.values;
      active =
          (if is_some (get key q.values) then q.active else adjust (λ n. n + 1) key.venue q.active);
    }

-- _schedule_stale_deadline, from the deadline on
unfoldable pub schedule : Key → ℕ → Deadlines → Deadlines
unfolding enter compact heap_of
schedule key deadline q0 =
    let q = enter key deadline q0 in
    if ltb (max 1024 (q.active key.venue * 4)) (length (heap_of key.venue q))
    then compact key.venue q
    else q

-- del values[key]; active[venue] -= 1
unfoldable pub forget : Key → Deadlines → Deadlines
unfolding remove
forget key q = record q {
  values = remove key q.values;
  active = adjust (λ n. n - 1) key.venue q.active;
}

-- _cancel_stale_deadline
unfoldable pub cancel : Key → Deadlines → Deadlines
unfolding generation_of get put forget
cancel key q =
    let after = record q { generations = put key (generation_of key q + 1) q.generations } in
    if is_some (get key q.values) then forget key after else after

abbrev pub is_at : ℕ → Option ℕ → Bool
is_at n none = false
is_at n (some m) = m == n

-- the entry is the one that its key has now
unfoldable pub is_live : Entry → Deadlines → Bool
unfolding get
is_live e q = is_at e.generation (get e.key q.generations) && is_at e.deadline (get e.key q.values)

-- the loop of `invalidate_stale` over one heap; `handle` is what it does for a live key
unfoldable pub pop_due :
    {S : Type 0} → (Key → S → S) → ℕ → String → List Entry → Deadlines → S → Deadlines × S
unfolding put is_live forget
pop_due handle now venue [] q s = (record q { heaps = put venue [] q.heaps }, s)
pop_due handle now venue (e ∷ heap) q s =
    let live = is_live e q in
    let rest =
      pop_due handle now venue heap (if live then forget e.key q else q)
        (if live then handle e.key s else s) in
    if leb e.deadline now then rest else (record q { heaps = put venue (e ∷ heap) q.heaps }, s)

-- the loop for a venue; a venue without a heap is passed over
unfoldable pub expire_venue :
    {S : Type 0} → (Key → S → S) → ℕ → String → Deadlines → S → Deadlines × S
unfolding get pop_due
expire_venue handle now venue q s = elim (get venue q.heaps) [
  | none ↦ (q, s)
  | some heap ↦ pop_due handle now venue heap q s
]
