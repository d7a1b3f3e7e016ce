-- ===== src/SuperTensor.antt =====
-- src/tensor/supertensor.rs: the ring of batches that requests are written into and executors drain.
pub mod Index
pub mod Buffer
pub mod Construct
pub mod Frame
pub mod Infer
pub mod Executor
pub mod Response
pub mod Ring
pub mod Shared
