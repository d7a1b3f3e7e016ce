-- ===== src/Lib.antt =====
-- Toutates serves ONNX models over gRPC. A request is checked against its model, its rows are
-- written into the slots of a shared ring of batches, an executor runs the model on a batch when
-- it is full or its time is up, and the request collects its rows of the results.
--
-- Base: shared names, lists, results, bit masks, integers, and texts as lists of characters.
-- Tensor: src/tensor/batched_tensor.rs and the data types of src/grpc/inference.rs. A tensor is its
--   element type, its shape and its bytes; Tensor/Copy has the copies into and out of batches, and
--   Tensor/DataType the names of the types.
-- Tracing: the timers of src/tracing/mod.rs.
-- SuperTensor: src/tensor/supertensor.rs. Index has the arithmetic of the ring's counters, which
--   wrap at 2 ^ 64; Buffer the state; Construct the constructor; Infer the writers (`infer`,
--   `insert_tensors_at`); Executor the executor (`execute_on_batch`, `warmup`,
--   `metrics_snapshot`); Response the readers (`get_data`, `get_result`). Ring has the calls of all
--   threads as a step relation (Steps), the abstract ledger that they keep (Ledger), and what
--   follows for every order of the calls (Simulation, Safety, Progress). Shared has the requests that
--   share a batch: their writes (Inputs, Insert, Writes, Stay), why these are on slots of their own
--   (Claims, Requests) and succeed (Success, Ready, Runs), and their replies (Answer, Served);
--   Overlong has a request with more bytes than its shape says.
-- Grpc: the handlers of src/grpc/mod.rs, with `model_infer` whole; Handlers has the short ones.
-- ModelRuntime: what src/model_runtime/manager.rs derives from a model and its configuration; Load
--   has `load_model` whole, with the warmups, the registration and the threads it starts, and
--   Binding the tensors of src/model_runtime/gpu_binding.rs.
-- ModelRepository: the local repository of src/model_repository/repository.rs, and in S3 the one
--   over an object store, on texts as lists of characters.
-- Loader: src/loader.rs, the runs of a session on the host or over tensors on the GPU.
-- Topology: src/topology.rs. Read has the files of sysfs, as texts; the rest is `plan_pairs`.
-- Metrics: Registry has the families that src/metrics/registry.rs registers; Local the counters
--   that a thread keeps for each model until it flushes them, src/metrics/local.rs.
-- Cli, Main: the arguments of src/cli.rs that the program's own code reads, and the pins and the
--   choice of models of src/main.rs.
-- Tests: concrete runs.
--
-- How the code is read. An atomic is a number, and a step of the model is one atomic exchange with
-- what the thread does before its next one. A lost exchange is a value (`retry`, or `none`), and
-- the counters that a thread read earlier are arguments beside the buffer that its exchange meets.
-- A `BatchState` is a cell of a store, as a tracker and its reservations share it. A call that can
-- panic or return an error has a `Result`. Waiting is a `none`: the caller asks again later.
-- The loops of `infer` and of `move_tail_to_next_non_dirty_buffer` are on fuel: the first has one
-- more round than the request has rows, and writes one row at least in each; the second has one
-- more than there are batches, and gives back one in each round but the last.
--
-- `warmup` does not look at the ring. Ring takes it to be called where every slot handed out is in a
-- batch that an executor has claimed and the ring has another batch: `load_model` calls it before
-- anything else has the buffer. With one batch, its second warmup is outside of Ring. A round of
-- `move_tail_to_next_non_dirty_buffer` makes two exchanges, on the batch's mark and on the tail; it
-- is one step here, so that a tail that another thread moves between the two is left out.
--
-- Parameters: `Shape::num_elements`, the builder, the session and the device of the crate `ort`, the
-- memory that an allocator hands out, the readings of the clock, what the file system and the object
-- store answer, the parsers of configurations and of the local versions, and the collectors, the
-- registry and the local handles of the crate `prometheus`.
--
-- Not modelled: memory orders (an exchange is sequentially consistent), timeouts that only log, the
-- text that the metrics are served as, the client of the object store, the thread pools and the HTTP
-- server.
pub mod Base
pub mod Tensor
pub mod Tracing
pub mod SuperTensor
pub mod Grpc
pub mod Topology
pub mod Cli
pub mod Loader
pub mod Main
pub mod Metrics
pub mod ModelRepository
pub mod ModelRuntime
pub mod Tests
