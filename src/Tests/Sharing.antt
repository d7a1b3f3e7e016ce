-- ===== src/Tests/Sharing.antt =====
-- Two requests of three and two rows on a ring of two batches of four slots of one byte, and a model
-- whose output is its input.
use mathlib.Core.Path.{subst}
use toutates.Base.{
  map, length, bind-ok, ok-injective, sym, Option, ℕ, zero, suc, ◌+◌, ◌-◌, ◌≤◌, List, [], ◌∷◌, some,
  ok, get_elem?, ◌*◌, ◌∙◌, ap₂, true, ◌≡◌, refl, ap, arith,
}
use toutates.Base.Int.{pos}
use toutates.Tensor.Element.{uint8, read_size, write_size}
use toutates.Tensor.DataType.{type_uint8}
use toutates.Tensor.Bytes.{Bytes, TensorBytes, slice_dim0}
use toutates.Tensor.Copy.{HostTensor, BatchableTensor, copy_at_from_bytes}
use toutates.SuperTensor.Index.{masks_of, as_batch_id, as_batch_slot_id}
use toutates.SuperTensor.Index.Power.{is_power_of_two_iff}
use toutates.SuperTensor.Index.Position.{IsRing}
use toutates.SuperTensor.Buffer.{Output, values, SuperTensorBuffer}
use toutates.SuperTensor.Infer.{
  WriteReservation, insert_tensors_at, write_inputs, new_reservation, notify_executor, open_batch,
}
use toutates.SuperTensor.Executor.{run_batch}
use toutates.SuperTensor.Shared.Inputs.{input_slots}
use toutates.SuperTensor.Shared.Writes.{Insert, run_inserts, AllApart}
use toutates.SuperTensor.Shared.Answer.{IsRowwise, HasScalarOutputs, HoldsRows, AllAnswered}
use toutates.Tensor.Copy.Slots.{HoldsBytes, value_as_byte_slice-HoldsElements}
use toutates.SuperTensor.Shared.Requests.{Request, writes_of, Shuffle, swap, writes_of-AllApart}
use toutates.SuperTensor.Shared.Quiet.{cell_at}
use toutates.SuperTensor.Shared.Success.{HasSlots}
use toutates.SuperTensor.Shared.Ready.{IsReady}
use toutates.SuperTensor.Shared.Runs.{OwnCells}
use toutates.SuperTensor.Shared.Served.{requests-served}
use toutates.SuperTensor.Shared.Overlong.{copy_at_from_bytes-overlong}
use toutates.Tensor.Copy.Isolated.{slots}
use toutates.Tests.{elements, idle, tracker}

two_by_four : IsRing 2 4
two_by_four = record {
  capacity_power = (is_power_of_two_iff 2).1 (1, refl);
  batch_power = (is_power_of_two_iff 4).1 (2, refl);
  fits = omega arith;
}

abbrev four_bytes : Bytes → BatchableTensor
four_bytes bytes = record {
  inner_tensor = record { data_type = uint8; shape = pos 4 ∷ []; bytes = bytes };
  data_type = uint8;
  single_tensor_shape = pos 1 ∷ [];
}

abbrev before : SuperTensorBuffer
before = record {
  input_tensors =
      (four_bytes (0 ∷ 0 ∷ 0 ∷ 0 ∷ []) ∷ []) ∷ (four_bytes (0 ∷ 0 ∷ 0 ∷ 0 ∷ []) ∷ []) ∷ [];
  trackers = tracker 0 0 0 ∷ tracker 0 0 1 ∷ [];
  states = idle ∷ idle ∷ [];
  masks = masks_of 2 4;
  batch_size = 4;
  capacity = 2;
  head = 5;
  executor_head = 4;
  tail = 0;
  executors_in_use = 0;
}

abbrev three : List TensorBytes
three = record { data_type = type_uint8; shape = pos 3 ∷ []; content = 1 ∷ 2 ∷ 3 ∷ [] } ∷ []

abbrev two : List TensorBytes
two = record { data_type = type_uint8; shape = pos 2 ∷ []; content = 8 ∷ 9 ∷ [] } ∷ []

abbrev asked : List Request
asked =
    record { inputs = three; rows = 3; now = 10 } ∷ record { inputs = two; rows = 2; now = 20 } ∷ []

abbrev first_write : Insert
first_write = record { idx = 0; start = 0; end = 3; inputs = three; now = 10 }

abbrev second_write : Insert
second_write = record { idx = 3; start = 0; end = 1; inputs = two; now = 20 }

abbrev third_write : Insert
third_write = record { idx = 4; start = 1; end = 2; inputs = two; now = 20 }

-- The second request's write comes first.
abbrev order : List Insert
order = second_write ∷ first_write ∷ third_write ∷ []

order-Shuffle : Shuffle (writes_of 4 0 asked) order
unfolding writes_of
order-Shuffle = swap

abbrev written : SuperTensorBuffer
written = record before {
  input_tensors =
      (four_bytes (1 ∷ 2 ∷ 3 ∷ 8 ∷ []) ∷ []) ∷ (four_bytes (9 ∷ 0 ∷ 0 ∷ 0 ∷ []) ∷ []) ∷ [];
  trackers = tracker 1 4 0 ∷ tracker 1 1 1 ∷ [];
  states =
      record idle { deadline = some 2000010; executor_permit = true; queue_start = some 10 }
      ∷ record idle { deadline = some 2000020; executor_permit = true; queue_start = some 20 }
      ∷ [];
}

abbrev reservations : List WriteReservation
reservations =
    record { state = 0; start = 3; end = 4 }
    ∷ record { state = 0; start = 0; end = 3 }
    ∷ record { state = 1; start = 0; end = 1 }
    ∷ []

order-written : run_inserts elements order before ≡ (written, ok reservations)
unfolding run_inserts insert_tensors_at write_inputs as_batch_id masks_of as_batch_slot_id
    new_reservation notify_executor open_batch
order-written = refl

-- A model that answers each row with itself.
abbrev four_rows : HostTensor → HostTensor
four_rows t = record t { shape = pos 4 ∷ [] }

abbrev same : List HostTensor → Output
same inputs = values (map four_rows inputs)

abbrev zeros : List BatchableTensor
zeros = four_bytes (0 ∷ 0 ∷ 0 ∷ 0 ∷ []) ∷ []

one_byte :
    (u : BatchableTensor)
    → u.inner_tensor.data_type ≡ uint8
    → read_size u.inner_tensor.data_type ≡ some 1
unfolding read_size
one_byte u e = rw e refl

slot-HoldsRows :
    (u : BatchableTensor) (lo hi : ℕ) (held : Bytes)
    → u.single_tensor_shape ≡ pos 1 ∷ []
    → u.inner_tensor.data_type ≡ uint8
    → length u.inner_tensor.bytes ≡ 4
    → slots elements u lo hi ≡ ok held
    → HoldsRows (four_rows u.inner_tensor) lo hi held
slot-HoldsRows u lo hi held shape kind whole e =
    let (size, known, bytes) =
      value_as_byte_slice-HoldsElements u.inner_tensor (lo * elements u.single_tensor_shape)
        (hi * elements u.single_tensor_shape) held e in
    let one_element : elements u.single_tensor_shape ≡ 1 = ap elements shape in
    let byte : size ≡ 1 = some-injective size 1 (sym known ∙ one_byte u kind) in
    (
      4,
      1,
      [],
      refl,
      whole,
      subst (λ k. HoldsBytes u.inner_tensor.bytes k (hi * 1) held) (at_row lo one_element byte)
          (subst
            (λ k.
              HoldsBytes u.inner_tensor.bytes (lo * elements u.single_tensor_shape * size) k held)
            (at_row hi one_element byte) bytes),
    )
  where
    some-injective : (a b : ℕ) → Path (Option ℕ) (some a) (some b) → a ≡ b
    some-injective a b e = ground arith

    at_row :
        {size : ℕ} (k : ℕ)
        → elements u.single_tensor_shape ≡ 1
        → size ≡ 1
        → k * elements u.single_tensor_shape * size ≡ k * 1
    at_row k e f = ap₂ (λ x y. k * x * y) e f ∙ omega arith

same-IsRowwise : IsRowwise elements zeros same (λ rows. rows)
unfolding input_slots
same-IsRowwise [] lo hi rows kinds held = elim kinds [ ]
same-IsRowwise (u ∷ _ ∷ _) lo hi rows (_, _, _, _, kinds) held = elim kinds [ ]
same-IsRowwise (u ∷ []) lo hi rows (_, shape, kind, whole, _) held =
    let (row, read, last) = bind-ok (slots elements u lo hi) _ rows held in
    (
      four_rows u.inner_tensor ∷ [],
      refl,
      rw (sym (ok-injective _ rows last)) (slot-HoldsRows u lo hi row shape kind whole read, tt),
    )

same-HasScalarOutputs : HasScalarOutputs elements zeros same
same-HasScalarOutputs [] vs kinds e = elim kinds [ ]
same-HasScalarOutputs (u ∷ _ ∷ _) vs (_, _, _, _, kinds) e = elim kinds [ ]
same-HasScalarOutputs (u ∷ []) vs (_, shape, kind, whole, _) e =
    let v : HostTensor = four_rows u.inner_tensor in
    let same_values : v ∷ [] ≡ vs = values-injective (v ∷ []) vs e in
    rw (sym same_values) ((4, 1, [], omega arith, refl, one_byte u kind, whole), tt)
  where
    values-injective : (vs ws : List HostTensor) → Path Output (values vs) (values ws) → vs ≡ ws
    values-injective vs ws e = ground arith

before_own : OwnCells before
before_own zero zero cell hi hj = refl
before_own zero (suc zero) cell hi hj = absurd (ground (arith, hi, hj))
before_own zero (suc (suc j)) cell hi hj = absurd (ground (arith, hj))
before_own (suc zero) zero cell hi hj = absurd (ground (arith, hi, hj))
before_own (suc zero) (suc zero) cell hi hj = refl
before_own (suc zero) (suc (suc j)) cell hi hj = absurd (ground (arith, hj))
before_own (suc (suc i)) j cell hi hj = absurd (ground (arith, hi))

zeros_room : (n : ℕ) → n ≤ 4 → HasSlots elements n (four_bytes (0 ∷ 0 ∷ 0 ∷ 0 ∷ []) ∷ [])
unfolding write_size
zeros_room n h = ((1, refl, omega arith), tt)

first-IsReady : IsReady elements (masks_of 2 4) before first_write
unfolding as_batch_id as_batch_slot_id masks_of write_size
first-IsReady = record {
  rows = 3;
  small = omega arith;
  some_rows = omega arith;
  within = omega arith;
  tensors = four_bytes (0 ∷ 0 ∷ 0 ∷ 0 ∷ []) ∷ [];
  found = refl;
  request = (([], refl), refl, refl, tt);
  room = zeros_room 3 (omega arith);
  cell = 0;
  same_cell = refl;
  state = idle;
  there = refl;
  closed = λ z. (refl, refl);
}

second-IsReady : IsReady elements (masks_of 2 4) before second_write
unfolding as_batch_id as_batch_slot_id masks_of write_size
second-IsReady = record {
  rows = 2;
  small = omega arith;
  some_rows = omega arith;
  within = omega arith;
  tensors = four_bytes (0 ∷ 0 ∷ 0 ∷ 0 ∷ []) ∷ [];
  found = refl;
  request = (([], refl), refl, refl, tt);
  room = zeros_room 4 (omega arith);
  cell = 0;
  same_cell = refl;
  state = idle;
  there = refl;
  closed = λ z. (refl, refl);
}

third-IsReady : IsReady elements (masks_of 2 4) before third_write
unfolding as_batch_id as_batch_slot_id masks_of write_size
third-IsReady = record {
  rows = 2;
  small = omega arith;
  some_rows = omega arith;
  within = omega arith;
  tensors = four_bytes (0 ∷ 0 ∷ 0 ∷ 0 ∷ []) ∷ [];
  found = refl;
  request = (([], refl), refl, refl, tt);
  room = zeros_room 1 (omega arith);
  cell = 1;
  same_cell = refl;
  state = idle;
  there = refl;
  closed = λ z. (refl, refl);
}

first_inputs :
    get_elem? before.input_tensors (as_batch_id (masks_of 2 4) 0)
    ≡ some (four_bytes (0 ∷ 0 ∷ 0 ∷ 0 ∷ []) ∷ [])
unfolding as_batch_id masks_of
first_inputs = refl

first_cell : cell_at before (as_batch_id (masks_of 2 4) 0) ≡ some 0
unfolding as_batch_id masks_of
first_cell = refl

writes_of-AllApart_example : AllApart (masks_of 2 4) order
writes_of-AllApart_example =
    writes_of-AllApart 2 4 0 asked order two_by_four (omega arith, (omega arith, tt)) (omega arith)
      order-Shuffle

requests-served_example :
    (c : SuperTensorBuffer) × (rs : List WriteReservation) × (items : ℕ) × (d : SuperTensorBuffer)
    × (run_inserts elements order before ≡ (c, ok rs))
    × (run_batch same 0 30 40 c ≡ (d, ok items))
    × AllAnswered elements
        (masks_of 2 4)
        (as_batch_id (masks_of 2 4) 0)
        (λ rows. rows)
        d.states
        order
        rs
requests-served_example =
    requests-served elements 2 4 0 asked order before same (λ rows. rows) 0 30 40
      (four_bytes (0 ∷ 0 ∷ 0 ∷ 0 ∷ []) ∷ []) 0 idle two_by_four (omega arith, (omega arith, tt))
      (omega arith) order-Shuffle refl (second-IsReady, (first-IsReady, (third-IsReady, tt)))
      before_own first_inputs same-IsRowwise same-HasScalarOutputs first_cell refl refl refl refl
      (omega arith)

-- One row by its shape, with the bytes of three: they go over three slots of a batch.
copy_at_from_bytes-overlong_example :
    (src : Bytes) × (u : BatchableTensor) × (slice_dim0 (7 ∷ 7 ∷ 7 ∷ []) (pos 1 ∷ []) 0 1 ≡ ok src)
    × (copy_at_from_bytes elements (four_bytes (1 ∷ 2 ∷ 3 ∷ 8 ∷ [])) 0 src ≡ ok u)
    × (slots elements u 0 (0 + (1 - 0) * 3) ≡ ok src)
unfolding write_size
copy_at_from_bytes-overlong_example =
    copy_at_from_bytes-overlong elements (four_bytes (1 ∷ 2 ∷ 3 ∷ 8 ∷ [])) (7 ∷ 7 ∷ 7 ∷ [])
      (pos 1 ∷ []) [] 1 3 0 0 1 1 (omega arith) refl refl refl refl (omega arith) (omega arith)
      (omega arith)
