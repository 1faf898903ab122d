-- ===== src/Transfer/Counts.antt =====
-- The counts that `run_transfers` keeps, through each of its steps (apps/sidewire/src/transfer.rs).
use side_wire_kernel_su.Base.{
  ℕ, zero, suc, ◌+◌, ◌^◌, ◌≤◌, ◌<◌, ◌≡◌, refl, sym, ap, Option, none, some, List, [], ◌∷◌, ◌++◌,
  Result, ok, err, ◌>>=◌, context, ltb, leb, branch_intro, length, length-append, All, All-append,
  arith,
}
use side_wire_kernel_su.Transfer.Jobs.{
  TransferError, ended_unexpectedly, transfer_failed, count_overflow, no_fuel, Transfers,
  keep_front, join_next, checked_add, join_transfer, make_room, drain_transfers, spawn_transfer,
}

module _ {File : Type 0} (outcome : File → Option ℕ) (order : ℕ → ℕ) where
  abbrev pub Succeeds : File → Type 0
  Succeeds f = (size : ℕ) × (outcome f ≡ some size)

  abbrev pub size_or_zero : Option ℕ → ℕ
  size_or_zero none = 0
  size_or_zero (some size) = size

  abbrev pub total : List File → ℕ
  total [] = 0
  total (f ∷ more) = size_or_zero (outcome f) + total more

  -- The same files, the first of them apart.
  record Apart (files : List File) (f : File) (rest : List File) : Type 0 where
    pub counted : length files ≡ suc (length rest)
    pub summed : total files ≡ size_or_zero (outcome f) + total rest
    splits : All Succeeds files → Succeeds f × All Succeeds rest
    joins : Succeeds f → All Succeeds rest → All Succeeds files

  -- What `join_next` gives for some running tasks.
  abbrev Joined : List File → Option (File × List File) → Type 0
  Joined files none = ⊥
  Joined files (some (f, rest)) = Apart files f rest

  Joined-keep_front :
      (f g : File) (more : List File) (o : Option (File × List File))
      → Joined (g ∷ more) o
      → Joined (f ∷ g ∷ more) (keep_front outcome order f o)
  Joined-keep_front f g more none a = elim a [ ]
  Joined-keep_front f g more (some (h, rest)) a = record {
    counted = omega (arith, a.counted);
    summed = omega (arith, a.summed);
    splits = λ (first, others). (let (found, left) = a.splits others in (found, (first, left)));
    joins = λ found (first, left). (first, a.joins found left);
  }

  join_next-Joined :
      (index : ℕ) (f : File) (more : List File)
      → Joined (f ∷ more) (join_next outcome order index (f ∷ more))
  join_next-Joined index f [] = record {
    counted = refl;
    summed = refl;
    splits = λ h. h;
    joins = λ a b. (a, b);
  }
  join_next-Joined zero f (g ∷ more) = record {
    counted = refl;
    summed = refl;
    splits = λ h. h;
    joins = λ a b. (a, b);
  }
  join_next-Joined (suc index) f (g ∷ more) =
      Joined-keep_front f g more _ (join_next-Joined index g more)

  -- The counts, after these files were started.
  pub record Counts (jobs : ℕ) (started : List File) (s : Transfers outcome order) : Type 0 where
    pub counted : s.files + length s.running ≡ length started
    pub summed : s.bytes + total s.running ≡ total started
    pub fewer : All Succeeds started → All Succeeds s.running
    pub more : All Succeeds s.running → All Succeeds started
    pub limited : s.peak ≤ jobs

  -- Why a transfer of these files may fail.
  abbrev pub Excuse : List File → TransferError → Type 0
  Excuse all transfer_failed = All Succeeds all → ⊥
  Excuse all count_overflow = 2 ^ 64 ≤ total all
  Excuse all _ = ⊥

  abbrev pub Either :
      (Transfers outcome order → Type 0)
      → List File
      → Result TransferError (Transfers outcome order)
      → Type 0
  Either P all (ok s) = P s
  Either P all (err e) = Excuse all e

  Either-bind :
      (P Q : Transfers outcome order → Type 0) (all : List File)
      (first : Result TransferError (Transfers outcome order))
      (next : Transfers outcome order → Result TransferError (Transfers outcome order))
      → Either P all first
      → ((s : Transfers outcome order) → P s → Either Q all (next s))
      → Either Q all (first >>= next)
  Either-bind P Q all (ok s) next h k = k s h
  Either-bind P Q all (err e) next h k = h

  -- One task less runs, and the counts are as they must be.
  abbrev Less : ℕ → List File → ℕ → Transfers outcome order → Type 0
  Less jobs started running s = Counts jobs started s × (suc (length s.running) ≡ running)

  checked_add-Either :
      (jobs : ℕ) (started rest : List File) (s : Transfers outcome order) (f : File) (size : ℕ)
      → Counts jobs started s
      → Apart s.running f rest
      → outcome f ≡ some size
      → Either (Less jobs started (length s.running)) started (
          context (checked_add outcome order s.bytes size) count_overflow
          >>= (λ bytes. ok (record s { running = rest; files = s.files + 1; bytes = bytes })))
  checked_add-Either jobs started rest s f size c a e =
      let sized : size_or_zero (outcome f) ≡ size = ap size_or_zero e in
      branch_intro
        (λ (o : Option ℕ). Either (Less jobs started (length s.running)) started (
          context o count_overflow
          >>= (λ bytes. ok (record s { running = rest; files = s.files + 1; bytes = bytes }))))
        (ltb (s.bytes + size) (2 ^ 64))
        (λ fits. (
          record {
            counted = omega (arith, c.counted, a.counted);
            summed = omega (arith, c.summed, a.summed, sized);
            fewer = λ h. (a.splits (c.fewer h)).1;
            more = λ h. c.more (a.joins (size, e) h);
            limited = c.limited;
          },
          sym a.counted,
        ))
        (λ over. ground (arith, c.summed, a.summed, sized))

  outcome-Either :
      (jobs : ℕ) (started rest : List File) (s : Transfers outcome order) (f : File) (o : Option ℕ)
      → Counts jobs started s
      → Apart s.running f rest
      → outcome f ≡ o
      → Either (Less jobs started (length s.running)) started (
          context o transfer_failed >>= (λ transferred.
            context (checked_add outcome order s.bytes transferred) count_overflow
            >>= (λ bytes. ok (record s { running = rest; files = s.files + 1; bytes = bytes }))))
  outcome-Either jobs started rest s f (some size) c a e =
      checked_add-Either jobs started rest s f size c a e
  outcome-Either jobs started rest s f none c a e =
      λ h. (let ((size, found), left) = a.splits (c.fewer h) in cc)

  Either-of_Joined :
      (jobs : ℕ) (started : List File) (s : Transfers outcome order) (o : Option (File × List File))
      → Counts jobs started s
      → Joined s.running o
      → Either (Less jobs started (length s.running)) started (
          context o ended_unexpectedly >>= (λ (f, rest).
            context (outcome f) transfer_failed >>= (λ transferred.
              context (checked_add outcome order s.bytes transferred) count_overflow
              >>= (λ bytes. ok (record s { running = rest; files = s.files + 1; bytes = bytes })))))
  Either-of_Joined jobs started s none c a = elim a [ ]
  Either-of_Joined jobs started s (some (f, rest)) c a =
      outcome-Either jobs started rest s f (outcome f) c a refl

  running-Joined :
      (index : ℕ) (files : List File)
      → 0 < length files
      → Joined files (join_next outcome order index files)
  running-Joined index [] h = omega arith
  running-Joined index (f ∷ more) h = join_next-Joined index f more

  join_transfer-Either :
      (jobs : ℕ) (started : List File) (s : Transfers outcome order)
      → Counts jobs started s
      → 0 < length s.running
      → Either (Less jobs started (length s.running)) started (join_transfer outcome order s)
  unfolding join_transfer
  join_transfer-Either jobs started s c some_run =
      Either-of_Joined jobs started s _ c (running-Joined (order s.files) s.running some_run)

  -- Fewer tasks run than this.
  abbrev pub Room : ℕ → List File → ℕ → Transfers outcome order → Type 0
  Room jobs started limit s = Counts jobs started s × (length s.running < limit)

  pub make_room-Either :
      (jobs limit fuel : ℕ) (started : List File) (s : Transfers outcome order)
      → Counts jobs started s
      → 1 ≤ limit
      → length s.running ≤ fuel
      → Either (Room jobs started limit) started (make_room outcome order limit fuel s)
  unfolding make_room
  make_room-Either jobs limit zero started s c one enough =
      branch_intro (Either (Room jobs started limit) started) (leb limit (length s.running))
        (λ full. ground arith) (λ room. (c, ground arith))
  make_room-Either jobs limit (suc fuel) started s c one enough =
      branch_intro (Either (Room jobs started limit) started) (leb limit (length s.running))
        (λ full.
          Either-bind (Less jobs started (length s.running)) (Room jobs started limit) started
            (join_transfer outcome order s) (λ s'. make_room outcome order limit fuel s')
            (join_transfer-Either jobs started s c (ground arith))
            (λ s' (c', less). make_room-Either jobs limit fuel started s' c' one (omega arith)))
        (λ room. (c, ground arith))

  pub drain_transfers-Either :
      (jobs fuel : ℕ) (started : List File) (s : Transfers outcome order)
      → Counts jobs started s
      → length s.running ≤ fuel
      → Either (Room jobs started 1) started (drain_transfers outcome order fuel s)
  unfolding drain_transfers
  drain_transfers-Either jobs zero started s c enough =
      branch_intro (Either (Room jobs started 1) started) (leb 1 (length s.running))
        (λ full. ground arith) (λ room. (c, ground arith))
  drain_transfers-Either jobs (suc fuel) started s c enough =
      branch_intro (Either (Room jobs started 1) started) (leb 1 (length s.running))
        (λ full.
          Either-bind (Less jobs started (length s.running)) (Room jobs started 1) started
            (join_transfer outcome order s) (λ s'. drain_transfers outcome order fuel s')
            (join_transfer-Either jobs started s c (ground arith))
            (λ s' (c', less). drain_transfers-Either jobs fuel started s' c' (omega arith)))
        (λ room. (c, ground arith))

  total-append : (xs ys : List File) → total (xs ++ ys) ≡ total xs + total ys
  total-append [] ys = omega arith
  total-append (x ∷ xs) ys = omega (arith, total-append xs ys)

  All-front : (xs ys : List File) → All Succeeds (xs ++ ys) → All Succeeds xs
  All-front [] ys h = tt
  All-front (x ∷ xs) ys (first, others) = (first, All-front xs ys others)

  All-back : (xs ys : List File) → All Succeeds (xs ++ ys) → All Succeeds ys
  All-back [] ys h = h
  All-back (x ∷ xs) ys (first, others) = All-back xs ys others

  pub spawn-Counts :
      (jobs : ℕ) (started : List File) (f : File) (s : Transfers outcome order)
      → Room jobs started jobs s
      → Counts jobs (started ++ (f ∷ [])) (spawn_transfer outcome order f s)
  spawn-Counts jobs started f s (c, room) =
      let here = length-append s.running (f ∷ []) in
      record {
        counted = omega (arith, c.counted, here, length-append started (f ∷ []));
        summed =
            omega (arith, c.summed, total-append s.running (f ∷ []), total-append started (f ∷ []));
        fewer = λ h.
            All-append Succeeds s.running (f ∷ []) (c.fewer (All-front started (f ∷ []) h))
              (All-back started (f ∷ []) h);
        more = λ h.
            All-append Succeeds started (f ∷ []) (c.more (All-front s.running (f ∷ []) h))
              (All-back s.running (f ∷ []) h);
        limited = omega (arith, c.limited, here);
      }

  pub Excuse-append : (xs ys : List File) (e : TransferError) → Excuse xs e → Excuse (xs ++ ys) e
  Excuse-append xs ys transfer_failed h = λ all. h (All-front xs ys all)
  Excuse-append xs ys count_overflow h = omega (arith, h, total-append xs ys)
  Excuse-append xs ys ended_unexpectedly h = h
  Excuse-append xs ys no_fuel h = h
