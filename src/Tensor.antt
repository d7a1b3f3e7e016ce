-- ===== src/Tensor.antt =====
-- src/tensor/batched_tensor.rs: the host buffers of a batch, as bytes.
pub mod Element
pub mod Errors
pub mod Bytes
pub mod Copy
pub mod DataType
