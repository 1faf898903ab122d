-- ===== src/Transfer/Totals.antt =====
-- What the tasks of a recursive transfer come to (apps/sidewire/src/transfer.rs).
use side_wire_kernel_su.Base.{
  ℕ, ◌≤◌, ◌≡◌, refl, sym, ap, subst, Option, List, [], ◌∷◌, ◌++◌, append-nil, append_assoc, Result,
  ok, err, ◌>>=◌, length, All, arith,
}
use side_wire_kernel_su.Transfer.{transfer_jobs, max_transfer_jobs}
use side_wire_kernel_su.Transfer.Jobs.{
  TransferError, Transfers, make_room, drain_transfers, spawn_transfer, start_transfers,
  no_transfers, run_transfers,
}
use side_wire_kernel_su.Transfer.Counts.{
  Succeeds, total, Counts, Excuse, Either, Room, make_room-Either, drain_transfers-Either,
  spawn-Counts, Excuse-append,
}

module _ {File : Type 0} (outcome : File → Option ℕ) (order : ℕ → ℕ) where
  -- All tasks are done, each of them counted.
  abbrev pub Complete : ℕ → List File → Transfers outcome order → Type 0
  Complete jobs all s =
      (s.running ≡ [])
      × All (Succeeds outcome order) all
      × (s.files ≡ length all)
      × (s.bytes ≡ total outcome order all)
      × (s.peak ≤ jobs)

  abbrev pub Ends : ℕ → List File → Result TransferError (Transfers outcome order) → Type 0
  Ends jobs all (ok s) = Complete jobs all s
  Ends jobs all (err e) = Excuse outcome order all e

  Complete-of_Counts :
      (jobs : ℕ) (all : List File) (s : Transfers outcome order) (left : List File)
      → s.running ≡ left
      → Room outcome order jobs all 1 s
      → Complete jobs all s
  Complete-of_Counts jobs all s [] e (c, room) = (
    e,
    c.more (subst (All (Succeeds outcome order)) (sym e) tt),
    omega (arith, c.counted, ap length e),
    omega (arith, c.summed, ap (total outcome order) e),
    c.limited,
  )
  Complete-of_Counts jobs all s (f ∷ more) e (c, room) = absurd (omega (arith, room, ap length e))

  Ends-of_drain :
      (jobs : ℕ) (all : List File) (r : Result TransferError (Transfers outcome order))
      → Either outcome order (Room outcome order jobs all 1) all r
      → Ends jobs all r
  Ends-of_drain jobs all (ok s) h = Complete-of_Counts jobs all s s.running refl h
  Ends-of_drain jobs all (err e) h = h

  Ends-bind :
      (jobs : ℕ) (P : Transfers outcome order → Type 0) (started more : List File)
      (first : Result TransferError (Transfers outcome order))
      (next : Transfers outcome order → Result TransferError (Transfers outcome order))
      → Either outcome order P started first
      → ((s : Transfers outcome order) → P s → Ends jobs (started ++ more) (next s))
      → Ends jobs (started ++ more) (first >>= next)
  Ends-bind jobs P started more (ok s) next h k = k s h
  Ends-bind jobs P started more (err e) next h k = Excuse-append outcome order started more e h

  start_transfers-Ends :
      (jobs : ℕ) (started pending : List File) (s : Transfers outcome order)
      → Counts outcome order jobs started s
      → 1 ≤ jobs
      → Ends jobs (started ++ pending) (start_transfers outcome order jobs pending s)
  unfolding start_transfers
  start_transfers-Ends jobs started [] s c one =
      subst (λ all. Ends jobs all (drain_transfers outcome order (length s.running) s))
        (sym (append-nil started))
        (Ends-of_drain jobs started _
          (drain_transfers-Either outcome order jobs (length s.running) started s c (omega arith)))
  start_transfers-Ends jobs started (f ∷ more) s c one =
      Ends-bind jobs (Room outcome order jobs started jobs) started (f ∷ more)
        (make_room outcome order jobs (length s.running) s) _
        (make_room-Either outcome order jobs jobs (length s.running) started s c one (omega arith))
        (λ s' room.
          subst
            (λ all.
              Ends jobs all
                (start_transfers outcome order jobs more (spawn_transfer outcome order f s')))
            (append_assoc started (f ∷ []) more)
            (start_transfers-Ends jobs (started ++ (f ∷ [])) more
              (spawn_transfer outcome order f s')
              (spawn-Counts outcome order jobs started f s' room) one))

  -- Whatever number of jobs is asked for, and in whatever order the tasks end: the transfer comes to
  -- an end. It succeeds only if each task did; then each was counted once, with its bytes, none is
  -- left running, and never more tasks ran at a time than the jobs, between one and 16. It fails
  -- only if a task failed, or if the sum of all sizes does not fit into 64 bits.
  pub run_transfers-Ends :
      (jobs : ℕ) (pending : List File)
      → Ends (transfer_jobs jobs) pending (run_transfers outcome order jobs pending)
        × (1 ≤ transfer_jobs jobs)
        × (transfer_jobs jobs ≤ max_transfer_jobs)
  unfolding run_transfers transfer_jobs
  run_transfers-Ends jobs pending = (
    start_transfers-Ends (transfer_jobs jobs) [] pending (no_transfers outcome order)
        (record {
          counted = refl;
          summed = refl;
          fewer = λ h. h;
          more = λ h. h;
          limited = omega arith;
        })
        (ground arith),
    ground arith,
    ground arith,
  )
