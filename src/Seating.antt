-- ===== src/Seating.antt =====
-- app/services/seating.py: the pure functions that place a party in a run of free seats.
-- `Geometry` has the policy and the seat quality, `Candidates` the legal cuts, `Choice` the best
-- one and the sorted list, `Runs` the update of the free runs. The proofs stand in `Seating.*`.
pub mod Geometry
pub mod Candidates
pub mod Choice
pub mod Runs
