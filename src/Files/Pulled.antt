-- ===== src/Files/Pulled.antt =====
-- What `remote_pull` of apps/sidewire/src/server.rs has written when it succeeds.
use side_wire_kernel_su.Base.{
  ℕ, ◌+◌, ◌%◌, ◌^◌, ◌≡◌, refl, sym, ap, ◌∙◌, subst, Bool, true, false, not, Option, none, some,
  List, [], ◌∷◌, ◌++◌, append-nil, ok, err, leb, ◌==◌, if◌then◌else◌, branch_intro, length,
  length-append, arith, ==_iff,
}
use side_wire_kernel_su.Frame.Kind.{FrameKind, file_chunk, file_end, error}
use side_wire_kernel_su.Files.{
  Turn, again, finished, failed, size_mismatch, Receiver, Pull, Received, received, recv_failed,
  Ended, go_on, new_receiver, pull_window, pull_kind, pull_turn, pull_loop, with_written,
  check_size, remote_pull, file_flow_update_threshold,
}
use side_wire_kernel_su.Files.Window.{Keeps}
use side_wire_kernel_su.Files.Receive.{Adds, Wrote, go_on-Adds, file_by, file_of, frames_received}

abbrev pub pulled : Pull → List ℕ
pulled p = p.receiver.file

-- The counter of a pull counts its file.
abbrev pub Counted : Pull → Type 0
Counted p = p.written ≡ length p.receiver.file % 2 ^ 64

Counted-append :
    (p : Pull) (payload : List ℕ)
    → Counted p
    → (p.written + length payload) % 2 ^ 64 ≡ length (pulled p ++ payload) % 2 ^ 64
Counted-append p payload c = omega (arith, c, length-append (pulled p) payload)

pull_window-Wrote :
    (r : Receiver) (bytes : ℕ) (sent : Bool)
    → Wrote (λ r'. r'.file) r.file (pull_window r bytes sent)
unfolding pull_window
pull_window-Wrote r bytes sent =
    let P : Turn Receiver → Type 0 = Wrote (λ r'. r'.file) r.file in
    branch_intro P (leb file_flow_update_threshold ((r.window_consumed + bytes) % 2 ^ 64))
      (λ _. branch_intro P sent (λ _. refl) (λ _. tt)) (λ _. refl)

with_written-Wrote :
    (now : List ℕ) (written : ℕ) (x : Turn Receiver)
    → Wrote (λ r. r.file) now x
    → Wrote pulled now (with_written written x)
with_written-Wrote now written (again r) wrote = wrote
with_written-Wrote now written (finished r) wrote = wrote
with_written-Wrote now written (failed e) wrote = tt

chunk-Wrote :
    (p : Pull) (payload : List ℕ) (disk sent : Bool)
    → Wrote pulled (pulled p ++ payload) (pull_kind file_chunk p payload disk sent)
chunk-Wrote p payload disk sent =
    branch_intro (Wrote pulled (pulled p ++ payload)) disk
      (λ _. with_written-Wrote (pulled p ++ payload) _ _ (
        pull_window-Wrote (record p.receiver { file = pulled p ++ payload }) (length payload) sent))
      (λ _. tt)

pull_kind-Adds :
    (kind : FrameKind) (p : Pull) (payload : List ℕ) (disk sent : Bool) (carried : Option (List ℕ))
    (next : Pull → Ended Pull)
    → ((p' : Pull) → Adds pulled (pulled p') carried (next p'))
    → Adds pulled
        (pulled p)
        (file_by kind payload carried)
        (go_on (pull_kind kind p payload disk sent) next)
pull_kind-Adds file_chunk p payload disk sent carried next rest =
    go_on-Adds pulled (pulled p) payload carried (pull_kind file_chunk p payload disk sent) next
      (chunk-Wrote p payload disk sent) rest
pull_kind-Adds file_end p payload disk sent carried next rest =
    ([], refl, sym (append-nil (pulled p)))
pull_kind-Adds error p payload disk sent carried next rest = tt
pull_kind-Adds _ p payload disk sent carried next rest = tt

pub pull_loop-Adds :
    (p : Pull) (is : List Received)
    → Adds pulled (pulled p) (file_of (frames_received is)) (pull_loop p is)
unfolding pull_loop pull_turn
pull_loop-Adds p [] = tt
pull_loop-Adds p (recv_failed ∷ is) = tt
pull_loop-Adds p (received f disk sent ∷ is) =
    pull_kind-Adds f.kind p f.payload disk sent (file_of (frames_received is))
      (λ p'. pull_loop p' is) (λ p'. pull_loop-Adds p' is)

-- The count of the bytes.
with_written-Counted :
    (p : Pull) (payload : List ℕ) (x : Turn Receiver)
    → Counted p
    → Wrote (λ r. r.file) (pulled p ++ payload) x
    → Keeps Counted (with_written ((p.written + length payload) % 2 ^ 64) x)
with_written-Counted p payload (again r) c wrote =
    Counted-append p payload c ∙ ap (λ t. length t % 2 ^ 64) (sym wrote)
with_written-Counted p payload (finished r) c wrote = absurd wrote
with_written-Counted p payload (failed e) c wrote = tt

pull_kind-Counted :
    (kind : FrameKind) (p : Pull) (payload : List ℕ) (disk sent : Bool)
    → Counted p
    → Keeps Counted (pull_kind kind p payload disk sent)
pull_kind-Counted file_chunk p payload disk sent c =
    branch_intro (Keeps Counted) disk
      (λ _. with_written-Counted p payload _ c (
        pull_window-Wrote (record p.receiver { file = pulled p ++ payload }) (length payload) sent))
      (λ _. tt)
pull_kind-Counted file_end p payload disk sent c = c
pull_kind-Counted error p payload disk sent c = tt
pull_kind-Counted _ p payload disk sent c = tt

abbrev pub EndsCounted : Ended Pull → Type 0
EndsCounted (some (ok p)) = Counted p
EndsCounted _ = Unit

go_on-Counted :
    (x : Turn Pull) (next : Pull → Ended Pull)
    → Keeps Counted x
    → ((p : Pull) → Counted p → EndsCounted (next p))
    → EndsCounted (go_on x next)
go_on-Counted (again p) next c rest = rest p c
go_on-Counted (finished p) next c rest = c
go_on-Counted (failed e) next c rest = tt

pub pull_loop-Counted : (p : Pull) (is : List Received) → Counted p → EndsCounted (pull_loop p is)
unfolding pull_loop pull_turn
pull_loop-Counted p [] c = tt
pull_loop-Counted p (recv_failed ∷ is) c = tt
pull_loop-Counted p (received f disk sent ∷ is) c =
    go_on-Counted (pull_kind f.kind p f.payload disk sent) (λ p'. pull_loop p' is)
      (pull_kind-Counted f.kind p f.payload disk sent c) (λ p' c'. pull_loop-Counted p' is c')

abbrev written_of : Ended Pull → ℕ
written_of (some (ok p)) = p.written
written_of _ = 0

check_size-eq-ok :
    (size : ℕ) (flushed : Bool) (x : Ended Pull) (p : Pull)
    → check_size size flushed x ≡ some (ok p)
    → (x ≡ some (ok p)) × (p.written ≡ size)
check_size-eq-ok size flushed none p h = cc
check_size-eq-ok size flushed (some (err e)) p h = cc
check_size-eq-ok size false (some (ok p')) p h = cc
check_size-eq-ok size true (some (ok p')) p h = go (p'.written == size) refl h
  where
    go :
        (b : Bool)
        → (p'.written == size) ≡ b
        → ◌≡◌ {A = Ended Pull}
            (if not b then some (err (size_mismatch size p'.written)) else some (ok p'))
            (some (ok p))
        → (◌≡◌ {A = Ended Pull} (some (ok p')) (some (ok p))) × (p.written ≡ size)
    go true e h = (h, sym (ap written_of h) ∙ (==_iff p'.written size).0 e)
    go false e h = cc

-- Whatever is received, and whatever disk and sends answer: a pull that succeeds has received
-- chunks and then the end of the file, its file holds exactly the bytes of the chunks in the order
-- in which they came, and there are as many of them, modulo 2^64, as the device announced.
pub remote_pull-eq-ok :
    (size : ℕ) (is : List Received) (flushed : Bool) (p : Pull)
    → remote_pull size is flushed ≡ some (ok p)
    → (file_of (frames_received is) ≡ some p.receiver.file)
      × (size ≡ length p.receiver.file % 2 ^ 64)
unfolding remote_pull
remote_pull-eq-ok size is flushed p h =
    let fresh : Pull = record { receiver = new_receiver; written = 0 } in
    let (ended, counted) = check_size-eq-ok size flushed (pull_loop fresh is) p h in
    let (content, e, whole) =
      subst (Adds pulled [] (file_of (frames_received is))) ended (pull_loop-Adds fresh is) in
    (
      e ∙ ap some (sym whole),
      sym counted ∙ subst EndsCounted ended (pull_loop-Counted fresh is refl),
    )
