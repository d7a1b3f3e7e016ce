-- ===== src/SuperTensor/Ring.antt =====
-- The ring of src/tensor/supertensor.rs under any interleaving of its callers: the abstract ledger
-- that it keeps, the calls as a step relation, and how the calls carry out the ledger's moves.
pub mod Distinct
pub mod Ledger
pub mod Calm
pub mod Calls
pub mod Steps
pub mod Rep
pub mod Wins
pub mod Refine
pub mod GiveBack
pub mod Warm
pub mod OneFreed
pub mod Warmed
pub mod Simulation
pub mod Safety
pub mod Progress
