-- ===== src/Lib.antt =====
-- The verification library of the ticket system: the code that decides who gets which seats, and
-- that no seat is sold twice. It models the service core in app/services and app/crud; the HTTP
-- interface, but for the payment webhook, and the libraries around it are not modelled.
--
-- The parts and where they are modelled.
--
-- app/services/seating.py, the pure placement of a party in runs of free seats, is Seating:
-- `Policy`, `BlockGeometry`, `Run`, `Placement` and `cut_cost` in Seating.Geometry; `candidates`
-- and `feasible_quantities` in Seating.Candidates; `allocate` and `legal_anchors` in
-- Seating.Choice; `occupy` and `release` in Seating.Runs. Floats are a parameter, `FloatOps`, and
-- what the choice of a seat relies on is the order of scores, `IsOrdered`.
--
-- app/services/seat_runs.py, the runs of a zone in Redis, is SeatRuns: `read_zone_state` in
-- SeatRuns.Snapshot; the script `_CLAIM_SEATS_LUA` in SeatRuns.Claim; the script
-- `_RELEASE_SEATS_LUA` and `release_seats` in SeatRuns.Release; `reserve_seats_and_enqueue`,
-- `_record_strict_miss` and `_feasible` in SeatRuns.Reserve. SeatRuns.Index says when the keys of a
-- zone agree: the runs are maximal, each is found by its end, and the counter counts their seats.
--
-- app/services/inventory.py, the plain counter of an event and the quotas of its buyers, is
-- Inventory; `reconcile_inventory` and what it rebuilds from the database are Inventory.Reconcile.
-- Inventory.Trace has the sequences of calls, in the order in which Redis runs their scripts.
--
-- app/crud/order.py, the state machine of an order and its compare-and-set, and
-- app/services/orders.py, what each transition entails and `submit_order`, are Orders.
-- app/worker.py is Worker: `_persist_intent` with the constraints of the tables in Worker.Intents;
-- `_consume_batch`, `_dead_letter_intent` and `reclaim_stale_order_intents` in Worker.Stream, on the
-- stream, its consumer group and a database; `process_outbox` in Worker.Outbox.
-- app/api/v1/webhook.py, what becomes of a payment, is Payments. System puts the request, the
-- consumer, the dead-letter path, the transitions and the returns together, for events without a seat
-- map, as steps that interleave on one database and one Redis.
-- app/services/pricing.py is Pricing. app/services/waiting_room.py, the draw of an event, its
-- status, its deadline and the admission tokens, is WaitingRoom. app/core/exceptions.py is Exceptions.
--
-- State. Redis (module Redis) is a record of the keys that these services use, typed by what they
-- store; Database has the tables orders, seat_holds, outbox and the seats of events. A Lua script is
-- atomic, so it is a function from a state to a reply and a state; a statement of PostgreSQL is a
-- function on lists of rows. A hash is an association list, since Redis promises no order.
--
-- What is left open. What other clients do between two steps, the random choice of an anchor and the
-- stream ids are fields of `World` or arguments. A key with a time to live stands for as long as it
-- has not expired, but for the marker of an admission token, which is kept with its end; trace ids
-- and metrics are left out. Floats in the waiting room are those of `FloatOps`, rounding included.
-- Positions, quantities and prices are natural numbers; times are whole microseconds since the epoch;
-- counters of Redis are integers, since they may fall below zero.
--
-- Bounds. `reserve_loop` runs on the number of attempts left, which `MAX_CAS_ATTEMPTS` sets to five
-- in the source; out of attempts it raises `SeatContention` as the source does, so no fuel is added.
-- All other loops are structural.
--
-- Faults: a try of the consumer may be cut short before the commit, or between the commit and the
-- acknowledgement, as `Fault` says for each entry; an entry given up may stay unacknowledged. The
-- handling of an outbox row may stop before, between and after its effects, as `HandlerFault` says.
-- What happens in Redis while `_dead_letter_intent` waits for the database is an argument of it; a
-- failure of the dead-letter path itself is not modelled, nor the trimming of the dead-letter stream.
--
-- In System, `Allowed` says which steps are taken. A step there is the whole handling of an entry, and
-- the consumer tries only entries that are still in the stream and were not given up. The source does
-- not check this: `_consume_batch` holds up to 500 entries in memory, and one that was given up
-- meanwhile is persisted although its seats are on sale again (Examples.Pipeline, `late`).
--
-- Not modelled: the detectors, purges and metrics of app/worker.py, rate limits, refresh
-- tokens, event administration, caching, personal data, and the rebuilding of a zone from the
-- database.
pub mod Base
pub mod Floats
pub mod Exceptions
pub mod Seating
pub mod Redis
pub mod SeatRuns
pub mod Worker
pub mod Database
pub mod Inventory
pub mod Pricing
pub mod Payments
pub mod Orders
pub mod WaitingRoom
pub mod System
pub mod Examples
