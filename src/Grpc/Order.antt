-- ===== src/Grpc/Order.antt =====
-- The order in which `model_infer` of src/grpc/mod.rs hands on the inputs of a request.
use toutates.Base.{ℕ, ◌≤◌, ◌==◌, if◌then◌else◌, List, [], ◌∷◌}
use toutates.Grpc.{Keyed}

abbrev pub Above : ℕ → List Keyed → Type 0
Above n [] = Unit {0}
Above n (x ∷ xs) = (n ≤ x.key) × Above n xs

-- The keys do not go down.
abbrev pub IsSorted : List Keyed → Type 0
IsSorted [] = Unit {0}
IsSorted (k ∷ ks) = Above k.key ks × IsSorted ks

-- The elements with a given key, in order.
unfoldable pub of_key : ℕ → List Keyed → List Keyed
of_key n [] = []
of_key n (k ∷ ks) = let rest = of_key n ks in if k.key == n then k ∷ rest else rest
