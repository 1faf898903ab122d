-- ===== src/Files/Whole.antt =====
-- The sender of a file and its receiver, over a stream that delivers its frames: `remote_push` with
-- `handle_push`, `handle_pull` with `remote_pull`.
use side_wire_kernel_su.Base.{
  ℕ, ◌≤◌, ◌≡◌, refl, ap, Bool, none, some, List, [], ◌∷◌, ◌++◌, ok, err, branch_intro, length, All,
  All-append, arith,
}
use side_wire_kernel_su.Frame.Kind.{FrameKind, file_end, error}
use side_wire_kernel_su.Frame.Header.{Frame, max_payload}
use side_wire_kernel_su.Files.Receive.{file_of, before}
use side_wire_kernel_su.Files.Send.{
  PushRead, push_read, read_failed, PullRead, pull_read, cancel_seen, woken, pull_failed, Sent,
  early_reply, chunk, end_frame, first_sent, after_reply, no_reply, reply_failed, replied, Reply,
  push_chunks, then_end, pull_chunks, file_buffer_size,
}

-- The bytes that are read up to the end of the file.
abbrev pub bytes_pushed : List PushRead → List ℕ
bytes_pushed (push_read (b ∷ bs) sent reply ∷ more) = (b ∷ bs) ++ bytes_pushed more
bytes_pushed _ = []

abbrev pub bytes_pulled : List PullRead → List ℕ
bytes_pulled (pull_read (b ∷ bs) sent ∷ more) = (b ∷ bs) ++ bytes_pulled more
bytes_pulled (woken ∷ more) = bytes_pulled more
bytes_pulled _ = []

-- A read gives no more bytes than its buffer has.
abbrev pub ShortPush : PushRead → Type 0
ShortPush (push_read bytes sent reply) = length bytes ≤ file_buffer_size
ShortPush _ = Unit

abbrev pub ShortPull : PullRead → Type 0
ShortPull (pull_read bytes sent) = length bytes ≤ file_buffer_size
ShortPull _ = Unit

-- A frame of the stream that the format allows.
abbrev pub Good : ℕ → Frame → Type 0
Good id f = (f.stream_id ≡ id) × (length f.payload ≤ max_payload)

-- The frames of a sender that has ended well carry this file.
abbrev pub Carries : ℕ → List ℕ → Sent → Type 0
Carries id content (some (ok _), frames) =
    (file_of (frames ++ (end_frame id ∷ [])) ≡ some content) × All (Good id) frames
Carries id content _ = Unit

Carries-first :
    (id : ℕ) (bytes content : List ℕ) (x : Sent)
    → length bytes ≤ file_buffer_size
    → Carries id content x
    → Carries id (bytes ++ content) (first_sent (chunk id bytes) x)
Carries-first id bytes content (none, frames) short h = tt
Carries-first id bytes content (some (err e), frames) short h = tt
Carries-first id bytes content (some (ok _), frames) short (carried, good) =
    (ap (before bytes) carried, ((refl, omega arith), good))

Carries-reply :
    (id : ℕ) (content : List ℕ) (reply : Reply) (x : Sent)
    → Carries id content x
    → Carries id content (after_reply reply x)
Carries-reply id content no_reply x h = h
Carries-reply id content reply_failed x h = tt
Carries-reply id content (replied f) x h = go f.kind
  where
    go : (kind : FrameKind) → Carries id content (some (early_reply kind f.payload), [])
    go error = tt
    go file_end = tt
    go _ = tt

pub push_chunks-Carries :
    (id : ℕ) (reads : List PushRead)
    → All ShortPush reads
    → Carries id (bytes_pushed reads) (push_chunks id reads)
unfolding push_chunks
push_chunks-Carries id [] short = tt
push_chunks-Carries id (read_failed ∷ more) short = tt
push_chunks-Carries id (push_read [] sent reply ∷ more) short = (refl, tt)
push_chunks-Carries id (push_read (b ∷ bs) sent reply ∷ more) (first, others) =
    branch_intro (Carries id ((b ∷ bs) ++ bytes_pushed more)) sent
      (λ _.
        Carries-first id (b ∷ bs) (bytes_pushed more) _ first
          (Carries-reply id (bytes_pushed more) reply _ (push_chunks-Carries id more others)))
      (λ _. tt)

pub pull_chunks-Carries :
    (id : ℕ) (reads : List PullRead)
    → All ShortPull reads
    → Carries id (bytes_pulled reads) (pull_chunks id reads)
unfolding pull_chunks
pull_chunks-Carries id [] short = tt
pull_chunks-Carries id (cancel_seen ∷ more) short = tt
pull_chunks-Carries id (woken ∷ more) (_, others) = pull_chunks-Carries id more others
pull_chunks-Carries id (pull_failed ∷ more) short = tt
pull_chunks-Carries id (pull_read [] sent ∷ more) short = (refl, tt)
pull_chunks-Carries id (pull_read (b ∷ bs) sent ∷ more) (first, others) =
    branch_intro (Carries id ((b ∷ bs) ++ bytes_pulled more)) sent
      (λ _.
        Carries-first id (b ∷ bs) (bytes_pulled more) _ first (pull_chunks-Carries id more others))
      (λ _. tt)

-- All frames of a transfer that was sent to its end.
abbrev pub Whole : ℕ → List ℕ → Sent → Type 0
Whole id content (some (ok _), frames) = (file_of frames ≡ some content) × All (Good id) frames
Whole id content _ = Unit

pub then_end-Whole :
    (id : ℕ) (content : List ℕ) (sent : Bool) (x : Sent)
    → Carries id content x
    → Whole id content (then_end id sent x)
then_end-Whole id content sent (none, frames) h = tt
then_end-Whole id content sent (some (err e), frames) h = tt
then_end-Whole id content sent (some (ok _), frames) (carried, good) =
    branch_intro (Whole id content) sent
      (λ _.
        (carried, All-append (Good id) frames (end_frame id ∷ []) good ((refl, omega arith), tt)))
      (λ _. tt)
