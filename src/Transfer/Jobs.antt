-- ===== src/Transfer/Jobs.antt =====
-- apps/sidewire/src/transfer.rs: the tasks of a recursive transfer, as `push_path` and `run_pull`
-- start them and wait for them. A task is its file; `outcome` is the size that it reports, if it
-- succeeds, and `order` says which of the tasks `join_next` gives, for each number of files done.
use side_wire_kernel_su.Base.{
  ℕ, zero, suc, ◌+◌, ◌^◌, max, Option, none, some, List, [], ◌∷◌, ◌++◌, Result, ok, err, ◌>>=◌,
  context, ltb, leb, if◌then◌else◌, length,
}
use side_wire_kernel_su.Transfer.{transfer_jobs}

pub data TransferError : Type 0 where
  ended_unexpectedly transfer_failed count_overflow no_fuel : TransferError

module _ {File : Type 0} (outcome : File → Option ℕ) (order : ℕ → ℕ) where
  pub record Transfers : Type 0 where
    pub running : List File
    pub files : ℕ
    pub bytes : ℕ
    pub peak : ℕ  -- not in the code: the most tasks that ran at a time

  abbrev pub keep_front : File → Option (File × List File) → Option (File × List File)
  keep_front f none = none
  keep_front f (some (g, rest)) = some (g, f ∷ rest)

  -- The task at an index, or the last one, and the others.
  abbrev pub join_next : ℕ → List File → Option (File × List File)
  join_next index [] = none
  join_next index (f ∷ []) = some (f, [])
  join_next zero (f ∷ g ∷ more) = some (f, g ∷ more)
  join_next (suc index) (f ∷ g ∷ more) = keep_front f (join_next index (g ∷ more))

  -- `checked_add` of a u64
  abbrev pub checked_add : ℕ → ℕ → Option ℕ
  checked_add a b = if ltb (a + b) (2 ^ 64) then some (a + b) else none

  unfoldable pub join_transfer : Transfers → Result TransferError Transfers
  join_transfer s = do
    (f, rest) ← context (join_next (order s.files) s.running) ended_unexpectedly
    transferred ← context (outcome f) transfer_failed
    bytes ← context (checked_add s.bytes transferred) count_overflow
    ok (record s { running = rest; files = s.files + 1; bytes = bytes })

  -- Joins tasks while `jobs` of them run, with as much fuel as there are tasks.
  unfoldable pub make_room : ℕ → ℕ → Transfers → Result TransferError Transfers
  make_room jobs zero s = if leb jobs (length s.running) then err no_fuel else ok s
  make_room jobs (suc fuel) s =
      if leb jobs (length s.running)
      then join_transfer s >>= (λ s'. make_room jobs fuel s')
      else ok s

  unfoldable pub drain_transfers : ℕ → Transfers → Result TransferError Transfers
  drain_transfers zero s = if leb 1 (length s.running) then err no_fuel else ok s
  drain_transfers (suc fuel) s =
      if leb 1 (length s.running) then join_transfer s >>= (λ s'. drain_transfers fuel s') else ok s

  abbrev pub spawn_transfer : File → Transfers → Transfers
  spawn_transfer f s =
      let running = s.running ++ (f ∷ []) in
      record s { running = running; peak = max s.peak (length running) }

  unfoldable pub start_transfers : ℕ → List File → Transfers → Result TransferError Transfers
  start_transfers jobs [] s = drain_transfers (length s.running) s
  start_transfers jobs (f ∷ more) s =
      make_room jobs (length s.running) s
      >>= (λ s'. start_transfers jobs more (spawn_transfer f s'))

  abbrev pub no_transfers : Transfers
  no_transfers = record { running = []; files = 0; bytes = 0; peak = 0 }

  -- The files that are still to be sent, with the number of jobs of the command line.
  unfoldable pub run_transfers : ℕ → List File → Result TransferError Transfers
  run_transfers jobs pending = start_transfers (transfer_jobs jobs) pending no_transfers
