-- ===== src/Transfer/Tests.antt =====
-- The theorems on transfers of directories, applied to concrete paths.
use side_wire_kernel_su.Base.{
  ℕ, subst, branch_intro, zero, suc, ◌≤◌, ◌≡◌, refl, Option, some, List, [], ◌∷◌, ok, ◌>>=◌, Yields,
  if◌then◌else◌, bytes_eq, arith,
}
use side_wire_kernel_su.Transfer.{
  max_transfer_jobs, transfer_jobs, Component, normal, special, Mkdir, exited, remote_join,
  local_relative,
}
use side_wire_kernel_su.Transfer.Jobs.{run_transfers}
use side_wire_kernel_su.Transfer.Totals.{Ends, run_transfers-Ends}
use side_wire_kernel_su.Transfer.Batches.{Batches}
use side_wire_kernel_su.Transfer.Paths.{
  names, local_relative-remote_join, LeadsBelow, local_relative-LeadsBelow,
}

-- Every part but `..` is a name.
abbrev unix_parts : List ℕ → List Component
unix_parts part = if bytes_eq part (46 ∷ 46 ∷ []) then special ∷ [] else normal part ∷ []

abbrev fails_on : List (List ℕ) → Mkdir
fails_on batch = exited (some 1)

-- `/s/`, and `a` and `b` below it
local_relative-remote_join_example :
    (remote_join (47 ∷ 115 ∷ 47 ∷ []) (names ((97 ∷ []) ∷ (98 ∷ []) ∷ []))
      >>= local_relative unix_parts (47 ∷ 115 ∷ 47 ∷ []))
    ≡ ok ((97 ∷ []) ∷ (98 ∷ []) ∷ [])
local_relative-remote_join_example =
    local_relative-remote_join unix_parts (47 ∷ 115 ∷ 47 ∷ []) (97 ∷ []) ((98 ∷ []) ∷ [])
      ((refl, (ground arith, tt)), ((refl, (ground arith, tt)), tt)) (refl, (refl, tt))

unix_again :
    (part name : List ℕ) → unix_parts part ≡ normal name ∷ [] → unix_parts name ≡ normal name ∷ []
unix_again part name h =
    branch_intro (λ cs. cs ≡ normal name ∷ [] → unix_parts name ≡ normal name ∷ [])
      (bytes_eq part (46 ∷ 46 ∷ [])) (λ _ wrong. cc)
      (λ other found.
        (let same : part ≡ name = cc in
          subst (λ p. unix_parts p ≡ normal p ∷ []) same (rw other refl)))
      h

-- `/s/a//./b` below `/s`
abbrev below_s : List ℕ
below_s = 47 ∷ 115 ∷ 47 ∷ 97 ∷ 47 ∷ 47 ∷ 46 ∷ 47 ∷ 98 ∷ []

local_relative-LeadsBelow_example :
    Yields (LeadsBelow unix_parts) (local_relative unix_parts (47 ∷ 115 ∷ []) below_s)
local_relative-LeadsBelow_example =
    local_relative-LeadsBelow unix_parts (47 ∷ 115 ∷ []) below_s unix_again

-- Files of 5 and 7 bytes; the last task ends first.
abbrev file_sizes : ℕ → Option ℕ
file_sizes zero = some 5
file_sizes (suc f) = some 7

run_transfers-Ends_example :
    Ends file_sizes
      (λ n. 1)
      (transfer_jobs 2)
      (0 ∷ 1 ∷ 0 ∷ [])
      (run_transfers file_sizes (λ n. 1) 2 (0 ∷ 1 ∷ 0 ∷ []))
    × (1 ≤ transfer_jobs 2)
    × (transfer_jobs 2 ≤ max_transfer_jobs)
run_transfers-Ends_example = run_transfers-Ends file_sizes (λ n. 1) 2 (0 ∷ 1 ∷ 0 ∷ [])
