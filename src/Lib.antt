-- ===== src/Lib.antt =====
-- A verification library for pmkt, a client library for prediction markets.
--
-- The modelled part of pmkt keeps order books from websocket messages and judges whether they can be
-- trusted. A venue's book (src/pmkt/exchanges/kalshi/ws.py and
-- src/pmkt/exchanges/polymarket/ws.py) applies snapshots and changes to two
-- ladders (src/pmkt/exchanges/book_integrity.py) and carries quality flags. The supervisor
-- (src/pmkt/streaming/supervisor.py) keeps the health of each instrument and of each shard, a group of
-- instruments on one connection: what a book reports, and whether a clock has gone stale.
-- A market that is resolved gets a label from its record (src/pmkt/resolution/terminal_labels.py).
-- Requests to the venues' REST interfaces are retried under a policy (src/pmkt/_http.py).
--
-- Prelude      names of the library, the comparison of the program's keys, and the integers that
--              `omega` and `ground` read (Prelude.Int).
-- Collections  sets of strings as lists, with the laws of Python's set operators (Collections.Sets),
--              dicts as association lists (Collections.Dict), and sorted (Collections.Sorting).
-- Text         str.strip and the truth of a text.
-- Json         the values of a decoded message, parse_int of src/pmkt/data/types.py and finite_decimal.
--              What is asked of Python's own library is the record `Python`.
-- Streaming    supervisor.py. Instrument is InstrumentFeedHealth; Projection the cached aggregates of
--              FeedShardHealth; Shard its state, its deadline callbacks and its signature; ShardOps and
--              ShardStale its methods, named as in the source, each with a `_body` that leaves out
--              the comparison of signatures; ShardCalls any sequence of calls. Deadlines is the
--              staleness queue of LiveFeedSupervisor, with its abstract map in Deadlines.Spec;
--              Registry the shards that its constructor accepts, Supervisor the constructor and
--              the callbacks, Supervisor.Checks invalidate_stale, and
--              Supervisor.Recovery the recovery actions. Plan names the shards of a
--              subscription plan.
-- Book         Levels is book_integrity.py; Kalshi the state of KalshiOrderBookState with its sequence
--              and validity checks; KalshiMessages apply_snapshot, apply_delta and
--              apply_kalshi_orderbook_message. Polymarket is the state of MarketBookState in
--              src/pmkt/exchanges/polymarket/ws.py, and PolymarketMessages its methods, with
--              apply_market_message in Dispatch.
-- Http         Policy is RequestPolicy and parse_retry_after of src/pmkt/runtime.py; Request the retry
--              loop HttpClient._request of src/pmkt/_http.py, with the network and the clock as a
--              parameter. Attempts and Delays say how often it sends and how long it waits, Returns what it
--              ends in. A delay is `overflow_error` where its computation raises OverflowError. Expiry is
--              OperationExpiry of runtime.py.
-- Resolution   src/pmkt/resolution/terminal_labels.py: Rationals its fractions and their texts, Records the
--              values of a record, Terminal the terminal labels, Eligibility the policy and the
--              finality, with their conditions apart from the order of the checks in
--              Eligibility.Settled and Eligibility.Conditions, Training the training label. Batch is resolve_ordered_batch of
--              src/pmkt/resolution/_batch.py, as steps of its workers, and Evm the words of 32 bytes of
--              src/pmkt/resolution/evm.py.
-- Transport    Budget is WebSocketRetryBudget of src/pmkt/exchanges/ws_transport.py, whose loop `run`
--              takes fuel; Bounded is about a limit on reconnects.
-- Tests        the theorems at concrete inputs.
--
-- Times are natural numbers of nanoseconds, and max(0, now - t) is the subtraction that stops at 0. A
-- set is a list that is read only through membership and emptiness; a Counter is a function that is 0
-- where Python has no entry, and the loops over one run over the constant sets of flags. `none` as the
-- result of a shard's method is the RuntimeError of a negative aggregate. The deadline callback is a
-- log of the calls made to it, which the supervisor then answers; a heap of heapq is the sorted list of
-- its entries, and `none` as the result of invalidate_stale is an exception. A decimal is an integer of
-- units, `one` of them in 1, and its sums are exact: rounding to the 28 digits of Python's decimal context is not modelled.
-- fractions.Fraction and json.loads are parameters of Resolution. The methods of a book return it
-- without the rendered snapshot. Loops run over a list, or over the number of attempts
-- of a request. `run` of Transport.Budget alone takes fuel: without a limit on reconnects it need not
-- end, and with m of them left m + 2 turns are enough.
--
-- Not modelled: rendering (as_row, as_dict, snapshot), sockets, authentication, files and data frames,
-- the responses of the REST interfaces, the catalog, how markets are resolved before they are labelled, the
-- report of a plan's preflight, and the command line.
pub mod Prelude
pub mod Collections
pub mod Text
pub mod Streaming
pub mod Json
pub mod Book
pub mod Http
pub mod Resolution
pub mod Transport
mod Tests
