-- ===== src/Files/EndToEnd.antt =====
-- A receiver of a file whose disk and sends succeed, on the frames of a sender that succeeds.
use mathlib.Core.Option.{some-injective}
use side_wire_kernel_su.Base.{
  ℕ, ◌+◌, ◌≤◌, ◌<◌, ◌%◌, ◌^◌, ◌≡◌, refl, sym, ap, ◌∙◌, subst, Bool, true, Option, none, some, List,
  [], ◌∷◌, ◌++◌, ok, leb, ==_iff, branch_intro, length, All, arith,
}
use side_wire_kernel_su.Frame.Kind.{FrameKind, file_chunk, file_end}
use side_wire_kernel_su.Frame.Header.{Frame, max_payload}
use side_wire_kernel_su.Files.{
  Turn, again, Receiver, Incoming, arrives, Ended, go_on, new_receiver, file_flow_update_threshold,
  account_file_window, pull_window, push_kind, push_turn, push_loop, handle_push, Received,
  received, Pull, pull_kind, pull_turn, pull_loop, remote_pull, check_size, with_written,
}
use side_wire_kernel_su.Files.Receive.{
  Adds, file_of, file_by, before, frames_in, frames_received, handle_push-eq-ok,
}
use side_wire_kernel_su.Files.Pulled.{pull_loop-Adds, pull_loop-Counted, pulled, EndsCounted}
use side_wire_kernel_su.Files.Send.{
  PushRead, PullRead, push_frames, push_chunks, handle_pull, pull_chunks,
}
use side_wire_kernel_su.Files.Whole.{
  bytes_pushed, bytes_pulled, ShortPush, ShortPull, Good, Whole, then_end-Whole,
  push_chunks-Carries, pull_chunks-Carries,
}

-- The frames as they arrive, with a disk and window updates that succeed.
abbrev pub arriving : List Frame → List Incoming
arriving [] = []
arriving (f ∷ fs) = arrives f true true ∷ arriving fs

abbrev pub receiving : List Frame → List Received
receiving [] = []
receiving (f ∷ fs) = received f true true ∷ receiving fs

frames_in-arriving : (fs : List Frame) → frames_in (arriving fs) ≡ fs
frames_in-arriving [] = refl
frames_in-arriving (f ∷ fs) = ap (λ t. f ∷ t) (frames_in-arriving fs)

frames_received-receiving : (fs : List Frame) → frames_received (receiving fs) ≡ fs
frames_received-receiving [] = refl
frames_received-receiving (f ∷ fs) = ap (λ t. f ∷ t) (frames_received-receiving fs)

-- A turn that goes on from a small counter to a small counter.
abbrev GoesOn : Turn Receiver → Type 0
GoesOn x = (r : Receiver) × (x ≡ again r) × (r.window_consumed < file_flow_update_threshold)

account_file_window-GoesOn :
    (r : Receiver) (bytes : ℕ)
    → r.window_consumed < file_flow_update_threshold
    → bytes ≤ max_payload
    → GoesOn (account_file_window r bytes true)
unfolding account_file_window
account_file_window-GoesOn r bytes small fits =
    branch_intro GoesOn (leb (2 ^ 64) (r.window_consumed + bytes)) (λ big. absurd (ground arith))
      (λ _.
        branch_intro GoesOn (leb file_flow_update_threshold (r.window_consumed + bytes))
          (λ _. (_, refl, omega arith)) (λ below. (_, refl, ground arith)))

pull_window-GoesOn :
    (r : Receiver) (bytes : ℕ)
    → r.window_consumed < file_flow_update_threshold
    → bytes ≤ max_payload
    → GoesOn (pull_window r bytes true)
unfolding pull_window
pull_window-GoesOn r bytes small fits =
    branch_intro GoesOn (leb file_flow_update_threshold ((r.window_consumed + bytes) % 2 ^ 64))
      (λ _. (_, refl, omega arith)) (λ below. (_, refl, ground arith))

before-eq-some :
    (payload content : List ℕ) (o : Option (List ℕ))
    → before payload o ≡ some content
    → (rest : List ℕ) × (o ≡ some rest)
before-eq-some payload content none h = cc
before-eq-some payload content (some rest) h = (rest, refl)

abbrev Accepted : {S : Type 0} → Ended S → Type 0
Accepted {S} x = (s : S) × (x ≡ some (ok s))

again-Accepted :
    {S : Type 0} (s : S) (x : Turn S) (next : S → Ended S)
    → x ≡ again s
    → Accepted (next s)
    → Accepted (go_on x next)
again-Accepted s x next e done_ = rw e done_

-- The rest of a loop accepts the rest of the frames.
abbrev Rest : {S : Type 0} → (S → ℕ) → Option (List ℕ) → (S → Ended S) → Type 0
Rest {S} counter carried next =
    (s : S) (content : List ℕ)
    → counter s < file_flow_update_threshold
    → carried ≡ some content
    → Accepted (next s)

push_kind-Accepted :
    (kind : FrameKind) (r : Receiver) (payload content : List ℕ) (carried : Option (List ℕ))
    (next : Receiver → Ended Receiver)
    → r.window_consumed < file_flow_update_threshold
    → length payload ≤ max_payload
    → file_by kind payload carried ≡ some content
    → Rest (λ r'. r'.window_consumed) carried next
    → Accepted (go_on (push_kind kind r payload true true) next)
push_kind-Accepted file_chunk r payload content carried next small fits e rest =
    let (r', goes_on, small') =
      account_file_window-GoesOn (record r { file = r.file ++ payload }) (length payload) small
        fits in
    let (content', e') = before-eq-some payload content carried e in
    again-Accepted r' _ next goes_on (rest r' content' small' e')
push_kind-Accepted file_end r payload content carried next small fits e rest = (r, refl)
push_kind-Accepted _ r payload content carried next small fits e rest = cc

push_loop-Accepted :
    (id : ℕ) (r : Receiver) (fs : List Frame) (content : List ℕ)
    → r.window_consumed < file_flow_update_threshold
    → All (Good id) fs
    → file_of fs ≡ some content
    → Accepted (push_loop id r (arriving fs))
unfolding push_loop push_turn
push_loop-Accepted id r [] content small good carried = cc
push_loop-Accepted id r (f ∷ fs) content small ((mine, fits), good) carried =
    rw ((==_iff f.stream_id id).1 mine) (
      push_kind-Accepted f.kind r f.payload content (file_of fs)
        (λ r'. push_loop id r' (arriving fs)) small fits carried
        (λ r' content' small' e. push_loop-Accepted id r' fs content' small' good e))

pull_chunk-GoesOn :
    (p : Pull) (payload : List ℕ)
    → p.receiver.window_consumed < file_flow_update_threshold
    → length payload ≤ max_payload
    → (p' : Pull) × (pull_kind file_chunk p payload true true ≡ again p')
      × (p'.receiver.window_consumed < file_flow_update_threshold)
pull_chunk-GoesOn p payload small fits =
    let (r, goes_on, small') =
      pull_window-GoesOn (record p.receiver { file = p.receiver.file ++ payload }) (length payload)
        small fits in
    (_, ap (with_written ((p.written + length payload) % 2 ^ 64)) goes_on, small')

pull_kind-Accepted :
    (kind : FrameKind) (p : Pull) (payload content : List ℕ) (carried : Option (List ℕ))
    (next : Pull → Ended Pull)
    → p.receiver.window_consumed < file_flow_update_threshold
    → length payload ≤ max_payload
    → file_by kind payload carried ≡ some content
    → Rest (λ p'. p'.receiver.window_consumed) carried next
    → Accepted (go_on (pull_kind kind p payload true true) next)
pull_kind-Accepted file_chunk p payload content carried next small fits e rest =
    let (p', goes_on, small') = pull_chunk-GoesOn p payload small fits in
    let (content', e') = before-eq-some payload content carried e in
    again-Accepted p' _ next goes_on (rest p' content' small' e')
pull_kind-Accepted file_end p payload content carried next small fits e rest = (p, refl)
pull_kind-Accepted _ p payload content carried next small fits e rest = cc

pull_loop-Accepted :
    (id : ℕ) (p : Pull) (fs : List Frame) (content : List ℕ)
    → p.receiver.window_consumed < file_flow_update_threshold
    → All (Good id) fs
    → file_of fs ≡ some content
    → Accepted (pull_loop p (receiving fs))
unfolding pull_loop pull_turn
pull_loop-Accepted id p [] content small good carried = cc
pull_loop-Accepted id p (f ∷ fs) content small ((mine, fits), good) carried =
    pull_kind-Accepted f.kind p f.payload content (file_of fs) (λ p'. pull_loop p' (receiving fs))
      small fits carried
      (λ p' content' small' e. pull_loop-Accepted id p' fs content' small' good e)

-- A push that the host has sent to its end, on a stream that delivers its frames to a daemon whose
-- disk and sends succeed: the daemon completes it, and its file holds the bytes that the host read.
pub handle_push-push_frames :
    (id : ℕ) (reads : List PushRead) (sent : Bool) (frames : List Frame)
    → All ShortPush reads
    → push_frames id reads sent ≡ (some (ok tt), frames)
    → (r : Receiver) × (handle_push id (arriving frames) true true ≡ some (ok r))
      × (r.file ≡ bytes_pushed reads)
unfolding push_frames handle_push
handle_push-push_frames id reads sent frames short e =
    let (carried, good) = subst (Whole id (bytes_pushed reads)) e (
      then_end-Whole id (bytes_pushed reads) sent (push_chunks id reads)
        (push_chunks-Carries id reads short)) in
    let (r, accepted) =
      push_loop-Accepted id new_receiver frames (bytes_pushed reads) (omega arith) good carried in
    let complete : handle_push id (arriving frames) true true ≡ some (ok r) = rw accepted refl in
    (
      r,
      complete,
      some-injective r.file (bytes_pushed reads) (
          sym (handle_push-eq-ok id (arriving frames) true true r complete)
          ∙ ap file_of (frames_in-arriving frames)
          ∙ carried),
    )

pull_complete :
    (size : ℕ) (x : Ended Pull) (p : Pull)
    → x ≡ some (ok p)
    → p.written ≡ size
    → check_size size true x ≡ some (ok p)
pull_complete size x p e counted = rw (e, (==_iff p.written size).1 counted) refl

-- The same for a pull of a file below 2^64 bytes, of which the daemon has announced the size: the
-- host completes it, and its file holds the bytes that the daemon read.
pub remote_pull-handle_pull :
    (id : ℕ) (reads : List PullRead) (sent : Bool) (frames : List Frame)
    → All ShortPull reads
    → length (bytes_pulled reads) < 2 ^ 64
    → handle_pull id reads sent ≡ (some (ok tt), frames)
    → (p : Pull) × (remote_pull (length (bytes_pulled reads)) (receiving frames) true ≡ some (ok p))
      × (p.receiver.file ≡ bytes_pulled reads)
unfolding handle_pull remote_pull
remote_pull-handle_pull id reads sent frames short small e =
    let content : List ℕ = bytes_pulled reads in
    let fresh : Pull = record { receiver = new_receiver; written = 0 } in
    let (carried, good) = subst (Whole id content) e (
      then_end-Whole id content sent (pull_chunks id reads) (pull_chunks-Carries id reads short)) in
    let (p, accepted) = pull_loop-Accepted id fresh frames content (omega arith) good carried in
    let (content', e', whole) =
      subst (Adds pulled [] (file_of (frames_received (receiving frames)))) accepted
        (pull_loop-Adds fresh (receiving frames)) in
    let same : p.receiver.file ≡ content =
      whole
      ∙ some-injective content' content
          (sym e' ∙ ap file_of (frames_received-receiving frames) ∙ carried) in
    let counted : p.written ≡ length p.receiver.file % 2 ^ 64 =
      subst EndsCounted accepted (pull_loop-Counted fresh (receiving frames) refl) in
    (p, pull_complete (length content) _ p accepted (omega (arith, counted, ap length same)), same)
