-- ===== src/SeatRuns.antt =====
-- app/services/seat_runs.py: the free runs of a zone in Redis. `Claim` and `Release` are the two
-- Lua scripts, `Reserve` the read-compute-CAS loop, `Index` the agreement between the keys.
pub mod Snapshot
pub mod Claim
pub mod Index
pub mod Release
pub mod Refines
pub mod Reserve
