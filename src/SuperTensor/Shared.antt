-- ===== src/SuperTensor/Shared.antt =====
-- Requests that share a batch of src/tensor/supertensor.rs: each is written into slots of its own,
-- and gets the model's answer on its own rows.
pub mod Inputs
pub mod Quiet
pub mod Insert
pub mod Writes
pub mod Stay
pub mod Answer
pub mod Claims
pub mod Requests
pub mod Overlong
pub mod Success
pub mod Ready
pub mod Runs
pub mod Served
