-- ===== src/Transfer/Batches.antt =====
-- The batches of `ensure_remote_dirs` (apps/sidewire/src/transfer.rs).
use side_wire_kernel_su.Base.{
  ℕ, ◌+◌, ◌≤◌, ◌<◌, ◌≡◌, ◌⊎◌, true, false, some, List, [], ◌∷◌, ◌++◌, length, All,
}
use side_wire_kernel_su.Transfer.{max_mkdir_batch_paths, max_mkdir_batch_bytes, Batched}

-- The bytes that a batch is counted with.
abbrev pub size : List (List ℕ) → ℕ
size [] = 0
size (path ∷ more) = length path + 1 + size more

abbrev pub joined : List (List (List ℕ)) → List (List ℕ)
joined [] = []
joined (batch ∷ more) = batch ++ joined more

-- Paths that are cut in two.
abbrev Cut : Type 0
Cut = List (List ℕ) × List (List ℕ)

-- The paths that the inner loop adds to a batch of `count` paths and `bytes` bytes.
abbrev Added : ℕ → ℕ → List (List ℕ) → Cut → Type 0
Added count bytes paths (batch, left) =
    (batch ++ left ≡ paths)
    × (count + length batch ≤ max_mkdir_batch_paths ⊎ (batch ≡ []))
    × (bytes + size batch ≤ max_mkdir_batch_bytes ⊎ (batch ≡ []))

-- A batch is not empty and within the limits, but for a single path that is over them.
abbrev pub Bounded : List (List ℕ) → Type 0
Bounded batch =
    (0 < length batch)
    × (length batch ≤ max_mkdir_batch_paths)
    × ((length batch ≡ 1) ⊎ (size batch ≤ max_mkdir_batch_bytes))

abbrev FirstBatch : List (List ℕ) → Cut → Type 0
FirstBatch paths (batch, left) =
    (batch ++ left ≡ paths) × Bounded batch × (length left < length paths)

-- The paths that were sent are the first of the list, all of them if every batch succeeded.
abbrev pub Batches : List (List ℕ) → Batched → Type 0
Batches paths (batches, end) =
    (left : List (List ℕ)) × (joined batches ++ left ≡ paths)
    × All Bounded batches
    × (((end ≡ some true) × (left ≡ [])) ⊎ (end ≡ some false))
