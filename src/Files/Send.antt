-- ===== src/Files/Send.antt =====
-- The senders of a file: the loop of `remote_push` (apps/sidewire/src/server.rs) and that of
-- `handle_pull` (apps/sidewired/src/main.rs), with the frames that they hand to their stream.
use side_wire_kernel_su.Base.{
  ℕ, ◌*◌, Bool, none, some, List, [], ◌∷◌, ◌++◌, Result, ok, err, if◌then◌else◌,
}
use side_wire_kernel_su.Frame.Kind.{FrameKind, file_chunk, file_end, error}
use side_wire_kernel_su.Frame.Header.{Frame}
use side_wire_kernel_su.Files.{
  FileError, io, canceled, ended_early, unexpected, remote_error, Ended,
}

abbrev pub file_buffer_size : ℕ
file_buffer_size = 256 * 1024

abbrev pub chunk : ℕ → List ℕ → Frame
chunk stream_id payload = record { kind = file_chunk; stream_id = stream_id; payload = payload }

abbrev pub end_frame : ℕ → Frame
end_frame stream_id = record { kind = file_end; stream_id = stream_id; payload = [] }

-- What `try_recv` gives after a chunk.
pub data Reply : Type 0 where
  no_reply reply_failed : Reply
  replied : Frame → Reply

-- A turn of the push: what `file.read` gives (no bytes: the end of the file), whether the send of
-- the chunk succeeds, and the reply.
pub data PushRead : Type 0 where
  read_failed : PushRead
  push_read : List ℕ → Bool → Reply → PushRead

-- How a loop has ended, and the frames that were sent.
abbrev pub Sent : Type 0
Sent = Ended (Unit {0}) × List Frame

abbrev pub first_sent : Frame → Sent → Sent
first_sent f (end, frames) = (end, f ∷ frames)

abbrev pub early_reply : FrameKind → List ℕ → Result FileError (Unit {0})
early_reply error payload = err (remote_error payload)
early_reply file_end payload = err ended_early
early_reply kind payload = err (unexpected kind)

abbrev pub after_reply : Reply → Sent → Sent
after_reply no_reply next = next
after_reply reply_failed next = (some (err io), [])
after_reply (replied f) next = (some (early_reply f.kind f.payload), [])

unfoldable pub push_chunks : ℕ → List PushRead → Sent
push_chunks stream_id [] = (none, [])
push_chunks stream_id (read_failed ∷ more) = (some (err io), [])
push_chunks stream_id (push_read [] sent reply ∷ more) = (some (ok tt), [])
push_chunks stream_id (push_read (b ∷ bs) sent reply ∷ more) =
    let next = push_chunks stream_id more in
    if sent
    then first_sent (chunk stream_id (b ∷ bs)) (after_reply reply next)
    else (some (err io), [])

-- The `FileEnd` behind the chunks; `sent` is the answer of its send.
abbrev pub then_end : ℕ → Bool → Sent → Sent
then_end stream_id sent (some (ok _), frames) =
    if sent then (some (ok tt), frames ++ (end_frame stream_id ∷ [])) else (some (err io), frames)
then_end stream_id sent (end, frames) = (end, frames)

-- `remote_push` up to the reply that completes it.
unfoldable pub push_frames : ℕ → List PushRead → Bool → Sent
push_frames stream_id reads sent = then_end stream_id sent (push_chunks stream_id reads)

-- `match done.kind`: the result of `remote_push`, which is the size that the file had at first.
unfoldable pub push_completion : ℕ → FrameKind → List ℕ → Result FileError ℕ
push_completion size file_end payload = ok size
push_completion size error payload = err (remote_error payload)
push_completion size kind payload = err (unexpected kind)

-- A turn of the pull: a cancellation, a change that is none, or a read of the file.
pub data PullRead : Type 0 where
  cancel_seen woken pull_failed : PullRead
  pull_read : List ℕ → Bool → PullRead

unfoldable pub pull_chunks : ℕ → List PullRead → Sent
pull_chunks stream_id [] = (none, [])
pull_chunks stream_id (cancel_seen ∷ more) = (some (err canceled), [])
pull_chunks stream_id (woken ∷ more) = pull_chunks stream_id more
pull_chunks stream_id (pull_failed ∷ more) = (some (err io), [])
pull_chunks stream_id (pull_read [] sent ∷ more) = (some (ok tt), [])
pull_chunks stream_id (pull_read (b ∷ bs) sent ∷ more) =
    let next = pull_chunks stream_id more in
    if sent then first_sent (chunk stream_id (b ∷ bs)) next else (some (err io), [])

-- `handle_pull` behind its `FileMeta`.
unfoldable pub handle_pull : ℕ → List PullRead → Bool → Sent
handle_pull stream_id reads sent = then_end stream_id sent (pull_chunks stream_id reads)
