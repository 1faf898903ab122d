-- ===== src/Files/Receive.antt =====
-- What a transfer that succeeds has written (apps/sidewired/src/main.rs, apps/sidewire/src/server.rs).
use side_wire_kernel_su.Base.{
  ℕ, ◌+◌, ◌^◌, ◌≡◌, refl, sym, ap, ◌∙◌, Bool, true, false, not, Option, none, some, List, [], ◌∷◌,
  ◌++◌, append-nil, append_assoc, ok, err, leb, ◌==◌, subst, branch_intro, length,
}
use side_wire_kernel_su.Frame.Kind.{FrameKind, file_chunk, file_end}
use side_wire_kernel_su.Frame.Header.{Frame}
use side_wire_kernel_su.Files.{
  Turn, again, finished, failed, Receiver, Incoming, arrives, cancel_told, inbox_closed, Received,
  received, Ended, go_on, new_receiver, account_file_window, push_kind, push_turn, push_loop,
  after_push, handle_push, file_flow_update_threshold,
}

abbrev pub frame_of : Incoming → List Frame
frame_of (arrives f disk sent) = f ∷ []
frame_of _ = []

abbrev pub frames_in : List Incoming → List Frame
frames_in [] = []
frames_in (i ∷ is) = frame_of i ++ frames_in is

abbrev pub frame_received : Received → List Frame
frame_received (received f disk sent) = f ∷ []
frame_received _ = []

abbrev pub frames_received : List Received → List Frame
frames_received [] = []
frames_received (i ∷ is) = frame_received i ++ frames_received is

-- The file that a sequence of frames carries: the payloads of the chunks before the first
-- `FileEnd`, in their order; `none` if there is another frame before it, or none at all.
abbrev pub before : List ℕ → Option (List ℕ) → Option (List ℕ)
before payload none = none
before payload (some rest) = some (payload ++ rest)

abbrev pub file_by : FrameKind → List ℕ → Option (List ℕ) → Option (List ℕ)
file_by file_chunk payload rest = before payload rest
file_by file_end payload rest = some []
file_by _ payload rest = none

abbrev pub file_of : List Frame → Option (List ℕ)
file_of [] = none
file_of (f ∷ fs) = file_by f.kind f.payload (file_of fs)

-- What a loop that has ended well adds to the file.
abbrev pub Adds : {S : Type 0} → (S → List ℕ) → List ℕ → Option (List ℕ) → Ended S → Type 0
Adds file start carried (some (ok s)) =
    (content : List ℕ) × (carried ≡ some content) × (file s ≡ start ++ content)
Adds file start carried _ = Unit

-- A turn that writes `payload`, and the rest of the loop.
Adds-chunk :
    {S : Type 0} (file : S → List ℕ) (start payload : List ℕ) (carried : Option (List ℕ))
    (x : Ended S)
    → Adds file (start ++ payload) carried x
    → Adds file start (before payload carried) x
Adds-chunk file start payload carried none h = tt
Adds-chunk file start payload carried (some (err e)) h = tt
Adds-chunk file start payload carried (some (ok s)) (content, e, whole) =
    (payload ++ content, ap (before payload) e, whole ∙ append_assoc start payload content)

-- A turn that goes on has written this to its file.
abbrev pub Wrote : {S : Type 0} → (S → List ℕ) → List ℕ → Turn S → Type 0
Wrote file now (again s) = file s ≡ now
Wrote file now (finished s) = ⊥
Wrote file now (failed e) = Unit

pub go_on-Adds :
    {S : Type 0} (file : S → List ℕ) (start payload : List ℕ) (carried : Option (List ℕ))
    (x : Turn S) (next : S → Ended S)
    → Wrote file (start ++ payload) x
    → ((s : S) → Adds file (file s) carried (next s))
    → Adds file start (before payload carried) (go_on x next)
go_on-Adds file start payload carried (again s) next wrote rest =
    Adds-chunk file start payload carried (next s)
      (subst (λ now. Adds file now carried (next s)) wrote (rest s))
go_on-Adds file start payload carried (finished s) next wrote rest = absurd wrote
go_on-Adds file start payload carried (failed e) next wrote rest = tt

account_file_window-Wrote :
    (r : Receiver) (bytes : ℕ) (sent : Bool)
    → Wrote (λ r'. r'.file) r.file (account_file_window r bytes sent)
unfolding account_file_window
account_file_window-Wrote r bytes sent =
    let P : Turn Receiver → Type 0 = Wrote (λ r'. r'.file) r.file in
    branch_intro P (leb (2 ^ 64) (r.window_consumed + bytes)) (λ _. tt)
      (λ _.
        branch_intro P (leb file_flow_update_threshold (r.window_consumed + bytes))
          (λ _. branch_intro P sent (λ _. refl) (λ _. tt)) (λ _. refl))

push_kind-Adds :
    (kind : FrameKind) (r : Receiver) (payload : List ℕ) (disk sent : Bool)
    (carried : Option (List ℕ)) (next : Receiver → Ended Receiver)
    → ((r' : Receiver) → Adds (λ s. s.file) r'.file carried (next r'))
    → Adds
        (λ s. s.file)
        r.file
        (file_by kind payload carried)
        (go_on (push_kind kind r payload disk sent) next)
push_kind-Adds file_chunk r payload disk sent carried next rest =
    go_on-Adds (λ s. s.file) r.file payload carried (push_kind file_chunk r payload disk sent) next
      (branch_intro (Wrote (λ s. s.file) (r.file ++ payload)) disk
        (λ _.
          account_file_window-Wrote (record r { file = r.file ++ payload }) (length payload) sent)
        (λ _. tt))
      rest
push_kind-Adds file_end r payload disk sent carried next rest = ([], refl, sym (append-nil r.file))
push_kind-Adds _ r payload disk sent carried next rest = tt

push_loop-Adds :
    (id : ℕ) (r : Receiver) (is : List Incoming)
    → Adds (λ s. s.file) r.file (file_of (frames_in is)) (push_loop id r is)
unfolding push_loop push_turn
push_loop-Adds id r [] = tt
push_loop-Adds id r (cancel_told ∷ is) = tt
push_loop-Adds id r (inbox_closed ∷ is) = tt
push_loop-Adds id r (arrives f disk sent ∷ is) =
    branch_intro
      (λ x.
        Adds (λ s. s.file) r.file (file_of (f ∷ frames_in is)) (go_on x (λ r'. push_loop id r' is)))
      (not (f.stream_id == id)) (λ _. tt)
      (λ _.
        push_kind-Adds f.kind r f.payload disk sent (file_of (frames_in is))
          (λ r'. push_loop id r' is) (λ r'. push_loop-Adds id r' is))

-- The result of `handle_push` is that of its loop.
after_push-eq-ok :
    (flushed acknowledged : Bool) (x : Ended Receiver) (r : Receiver)
    → after_push flushed acknowledged x ≡ some (ok r)
    → x ≡ some (ok r)
after_push-eq-ok flushed acknowledged none r h = cc
after_push-eq-ok flushed acknowledged (some (err e)) r h = cc
after_push-eq-ok true true (some (ok r')) r h = h
after_push-eq-ok false acknowledged (some (ok r')) r h = cc
after_push-eq-ok true false (some (ok r')) r h = cc

-- Whatever arrives, and whatever disk, sends and cancellations answer: a push that succeeds has
-- received chunks and then the end of the file, and the file holds exactly the bytes of the
-- chunks, in the order in which they came.
pub handle_push-eq-ok :
    (id : ℕ) (is : List Incoming) (flushed acknowledged : Bool) (r : Receiver)
    → handle_push id is flushed acknowledged ≡ some (ok r)
    → file_of (frames_in is) ≡ some r.file
unfolding handle_push
handle_push-eq-ok id is flushed acknowledged r h =
    let (content, e, whole) =
      subst (Adds (λ s. s.file) [] (file_of (frames_in is)))
        (after_push-eq-ok flushed acknowledged (push_loop id new_receiver is) r h)
        (push_loop-Adds id new_receiver is) in
    e ∙ ap some (sym whole)
