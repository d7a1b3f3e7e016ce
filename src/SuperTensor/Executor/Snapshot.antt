-- ===== src/SuperTensor/Executor/Snapshot.antt =====
-- What `metrics_snapshot` of src/tensor/supertensor.rs reports.
use toutates.Base.{ℕ, ◌+◌, ◌-◌, ◌*◌, ◌/◌, ◌%◌, ◌≤◌, ◌<◌, ◌≡◌, arith, usize_mod}
use toutates.SuperTensor.Buffer.{SuperTensorBuffer}
use toutates.SuperTensor.Executor.{metrics_snapshot}

-- With the tail at the counter `t` and the head at `h`, at most the ring ahead: the reported slots in
-- flight are exactly those between them unless `h` has wrapped and `t` has not, and then, on a ring
-- of less than 2 ^ 63 slots, none are reported.
pub metrics_snapshot_lem :
    (t h : ℕ) (b : SuperTensorBuffer)
    → b.tail ≡ t % usize_mod
    → b.head ≡ h % usize_mod
    → t ≤ h
    → h ≤ t + b.capacity * b.batch_size
    → b.capacity * b.batch_size < usize_mod / 2
    → (h / usize_mod ≡ t / usize_mod → (metrics_snapshot b).inflight ≡ h - t)
      × (t / usize_mod < h / usize_mod → (metrics_snapshot b).inflight ≡ 0)
unfolding metrics_snapshot
metrics_snapshot_lem t h b et eh ordered near small = (λ same. omega arith, λ wrapped. omega arith)
