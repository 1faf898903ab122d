-- ===== src/Files.antt =====
-- The transfer of a file over a stream: `remote_push` and `remote_pull` of
-- apps/sidewire/src/server.rs, `handle_push` and `handle_pull` of apps/sidewired/src/main.rs for the
-- root identity. Disks, waits and sends are what they answer, turn by turn.
pub mod Receive
pub mod Pulled
pub mod Send
pub mod Whole
pub mod EndToEnd
pub mod Window
mod Tests
use side_wire_kernel_su.Base.{
  ℕ, ◌+◌, ◌*◌, ◌/◌, ◌%◌, ◌^◌, Bool, true, false, not, Option, none, some, List, [], ◌∷◌, ◌++◌,
  Result, ok, err, leb, ◌==◌, if◌then◌else◌, length,
}
use side_wire_kernel_su.Frame.Kind.{FrameKind, file_meta, file_chunk, file_end, error}
use side_wire_kernel_su.Frame.Header.{Frame}

abbrev pub file_flow_window : ℕ
file_flow_window = 1024 * 1024

abbrev pub file_flow_update_threshold : ℕ
file_flow_update_threshold = file_flow_window / 2

-- `bail!` and `?` in the four functions; `io` is an error of a disk or of a send.
pub data FileError : Type 0 where
  io canceled disconnected counter_overflow ended_early : FileError
  wrong_stream : ℕ → FileError
  unexpected : FrameKind → FileError
  remote_error : List ℕ → FileError
  size_mismatch : ℕ → ℕ → FileError

-- The receiver of a file: what it has written, the bytes since its last window update, and the
-- window updates that it has sent.
pub record Receiver : Type 0 where
  pub file : List ℕ
  pub window_consumed : ℕ
  pub granted : List ℕ

-- What a turn of a loop leads to.
pub data Turn (S : Type 0) : Type 0 where
  again : S → Turn S
  finished : S → Turn S
  failed : FileError → Turn S

-- `account_file_window`; `sent` is the answer of `send_window_update`.
unfoldable pub account_file_window : Receiver → ℕ → Bool → Turn Receiver
account_file_window r bytes sent =
    let consumed = r.window_consumed + bytes in
    if leb (2 ^ 64) consumed
    then failed counter_overflow
    else if leb file_flow_update_threshold consumed
    then if sent
      then again (record r { window_consumed = 0; granted = r.granted ++ (consumed ∷ []) })
      else failed io
    else again (record r { window_consumed = consumed })

-- What the loop of `handle_push` waits for. `disk` is the answer of `write_all`, `sent` that of the
-- window update.
pub data Incoming : Type 0 where
  cancel_told inbox_closed : Incoming
  arrives : Frame → Bool → Bool → Incoming

abbrev pub push_kind : FrameKind → Receiver → List ℕ → Bool → Bool → Turn Receiver
push_kind file_chunk r payload disk sent =
    if disk
    then account_file_window (record r { file = r.file ++ payload }) (length payload) sent
    else failed io
push_kind file_end r payload disk sent = finished r
push_kind kind r payload disk sent = failed (unexpected kind)

unfoldable pub push_turn : ℕ → Receiver → Incoming → Turn Receiver
push_turn stream_id r cancel_told = failed canceled
push_turn stream_id r inbox_closed = failed disconnected
push_turn stream_id r (arrives f disk sent) =
    if not (f.stream_id == stream_id)
    then failed (wrong_stream f.stream_id)
    else push_kind f.kind r f.payload disk sent

-- The end of a loop; `none`: it still waits.
abbrev pub Ended : Type 0 → Type 0
Ended S = Option (Result FileError S)

abbrev pub go_on : {S : Type 0} → Turn S → (S → Ended S) → Ended S
go_on (again s) next = next s
go_on (finished s) next = some (ok s)
go_on (failed e) next = some (err e)

unfoldable pub push_loop : ℕ → Receiver → List Incoming → Ended Receiver
push_loop stream_id r [] = none
push_loop stream_id r (i ∷ is) = go_on (push_turn stream_id r i) (λ r'. push_loop stream_id r' is)

-- The state before the loop: a new file, and the first window.
abbrev pub new_receiver : Receiver
new_receiver = record { file = []; window_consumed = 0; granted = file_flow_window ∷ [] }

-- `handle_push` from the loop on: `flushed` is the answer of `flush`, `acknowledged` that of the
-- send of the `FileEnd`.
abbrev pub after_push : Bool → Bool → Ended Receiver → Ended Receiver
after_push flushed acknowledged none = none
after_push flushed acknowledged (some (err e)) = some (err e)
after_push true true (some (ok r)) = some (ok r)
after_push _ _ (some (ok r)) = some (err io)

unfoldable pub handle_push : ℕ → List Incoming → Bool → Bool → Ended Receiver
handle_push stream_id incoming flushed acknowledged =
    after_push flushed acknowledged (push_loop stream_id new_receiver incoming)

-- What a turn of `remote_pull` receives: `recv` fails, or it gives a frame.
pub data Received : Type 0 where
  recv_failed : Received
  received : Frame → Bool → Bool → Received

-- `written` is a u64.
pub record Pull : Type 0 where
  pub receiver : Receiver
  pub written : ℕ

abbrev pub with_written : ℕ → Turn Receiver → Turn Pull
with_written written (again r) = again (record { receiver = r; written = written })
with_written written (finished r) = finished (record { receiver = r; written = written })
with_written written (failed e) = failed e

-- The accounting is written out here, without a check of the counter.
unfoldable pub pull_window : Receiver → ℕ → Bool → Turn Receiver
pull_window r bytes sent =
    let consumed = (r.window_consumed + bytes) % 2 ^ 64 in
    if leb file_flow_update_threshold consumed
    then if sent
      then again (record r { window_consumed = 0; granted = r.granted ++ (consumed ∷ []) })
      else failed io
    else again (record r { window_consumed = consumed })

abbrev pub pull_kind : FrameKind → Pull → List ℕ → Bool → Bool → Turn Pull
pull_kind file_chunk p payload disk sent =
    if disk
    then with_written ((p.written + length payload) % 2 ^ 64) (
        pull_window (record p.receiver { file = p.receiver.file ++ payload }) (length payload) sent)
    else failed io
pull_kind file_end p payload disk sent = finished p
pull_kind error p payload disk sent = failed (remote_error payload)
pull_kind kind p payload disk sent = failed (unexpected kind)

unfoldable pub pull_turn : Pull → Received → Turn Pull
pull_turn p recv_failed = failed disconnected
pull_turn p (received f disk sent) = pull_kind f.kind p f.payload disk sent

unfoldable pub pull_loop : Pull → List Received → Ended Pull
pull_loop p [] = none
pull_loop p (i ∷ is) = go_on (pull_turn p i) (λ p'. pull_loop p' is)

abbrev pub check_size : ℕ → Bool → Ended Pull → Ended Pull
check_size size flushed none = none
check_size size flushed (some (err e)) = some (err e)
check_size size false (some (ok p)) = some (err io)
check_size size true (some (ok p)) =
    if not (p.written == size) then some (err (size_mismatch size p.written)) else some (ok p)

-- `remote_pull` from its loop on; `size` is that of the `FileMeta`.
unfoldable pub remote_pull : ℕ → List Received → Bool → Ended Pull
remote_pull size incoming flushed =
    check_size size flushed (pull_loop (record { receiver = new_receiver; written = 0 }) incoming)
