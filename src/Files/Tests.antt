-- ===== src/Files/Tests.antt =====
-- The theorems on transfers, applied to a small file.
use side_wire_kernel_su.Base.{◌%◌, ◌^◌, ◌≡◌, refl, true, some, List, [], ◌∷◌, ok, length, arith}
use side_wire_kernel_su.Frame.Header.{Frame}
use side_wire_kernel_su.Files
use side_wire_kernel_su.Files.{Receiver, handle_push, arrives, Pull, remote_pull, pull_turn}
use side_wire_kernel_su.Files.Receive.{file_of, frames_received}
use side_wire_kernel_su.Files.Pulled.{remote_pull-eq-ok}
use side_wire_kernel_su.Files.Send.{
  PushRead, push_read, PullRead, pull_read, woken, no_reply, chunk, end_frame, push_frames,
  handle_pull,
}
use side_wire_kernel_su.Files.Whole.{bytes_pushed, bytes_pulled}
use side_wire_kernel_su.Files.EndToEnd.{
  arriving, receiving, handle_push-push_frames, remote_pull-handle_pull,
}

abbrev frames : List Frame
frames = chunk 3 (1 ∷ 2 ∷ []) ∷ chunk 3 (9 ∷ []) ∷ end_frame 3 ∷ []

abbrev pushed : List PushRead
pushed =
    push_read (1 ∷ 2 ∷ []) true no_reply
    ∷ push_read (9 ∷ []) true no_reply
    ∷ push_read [] true no_reply
    ∷ []

abbrev to_pull : List PullRead
to_pull = pull_read (1 ∷ 2 ∷ []) true ∷ woken ∷ pull_read (9 ∷ []) true ∷ pull_read [] true ∷ []

abbrev filled : Receiver
filled = record { file = 1 ∷ 2 ∷ 9 ∷ []; window_consumed = 3; granted = 1048576 ∷ [] }

handle_push-push_frames_example :
    (r : Receiver) × (handle_push 3 (arriving frames) true true ≡ some (ok r))
    × (r.file ≡ bytes_pushed pushed)
unfolding push_frames Files.Send.push_chunks
handle_push-push_frames_example =
    handle_push-push_frames 3 pushed true frames (omega arith, (omega arith, (omega arith, tt)))
      refl

remote_pull-handle_pull_example :
    (p : Pull) × (remote_pull (length (bytes_pulled to_pull)) (receiving frames) true ≡ some (ok p))
    × (p.receiver.file ≡ bytes_pulled to_pull)
unfolding handle_pull Files.Send.pull_chunks
remote_pull-handle_pull_example =
    remote_pull-handle_pull 3 to_pull true frames
      (omega arith, (tt, (omega arith, (omega arith, tt)))) (omega arith) refl

remote_pull-eq-ok_example :
    (file_of (frames_received (receiving frames)) ≡ some (1 ∷ 2 ∷ 9 ∷ []))
    × (3 ≡ length filled.file % 2 ^ 64)
unfolding remote_pull Files.pull_loop Files.pull_turn Files.pull_window
remote_pull-eq-ok_example =
    remote_pull-eq-ok 3 (receiving frames) true (record { receiver = filled; written = 3 }) refl
