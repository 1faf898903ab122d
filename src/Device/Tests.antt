-- ===== src/Device/Tests.antt =====
-- The theorems on the device daemon, applied to concrete states.
use side_wire_kernel_su.Base.{ℕ, ◌≡◌, ◌≤◌, ◌+◌, refl, true, false, List, [], ◌∷◌, ok, arith}
use side_wire_kernel_su.Base.{Option, some, none, replicate, length}
use side_wire_kernel_su.Device.Pairing.Guard.{empty_guard, max_pairing_attempts_per_ip}
use side_wire_kernel_su.Device.Pairing.RateLimit.{
  Request, allowed_times, within_minute, within_minute-allowed_times,
}
use side_wire_kernel_su.Device.Pairing.Pin.{present, PairState}
use side_wire_kernel_su.Device.Pairing.Hosts.{
  Files, paired_host_secret, store_paired_host, paired_host_secret-store_paired_host,
}
use side_wire_kernel_su.Device.Pairing.Commit.{
  PairCommit, PairStore, Attempt, stored, commits_run, faults, commits_run-le,
}
use side_wire_kernel_su.Device.Handshake.{secure, PeerHello, accept_connection, connect_connection}
use side_wire_kernel_su.Device.Handshake.NoDowngrade.{
  Agreed, accept_connection-Agreed, connect_connection-Agreed,
}
use side_wire_kernel_su.Device.Shell.{shell_quote, read_word, read_word-shell_quote}
use side_wire_kernel_su.Device.Completion.Path.{DirEntry, complete_pty_path}
use side_wire_kernel_su.Device.Completion.Inserts.{Completed, complete_pty_path-Completed}
use side_wire_kernel_su.Frame.Kind.{file_chunk, exec_stdout}
use side_wire_kernel_su.Frame.Header.{Frame}
use side_wire_kernel_su.Device.Mux.{Mux, Meanwhile, new_mux, is_canceled}
use side_wire_kernel_su.Device.Mux.Trace.{MuxOp, register, credit, send, finish, admit, mux_run}
use side_wire_kernel_su.Device.Mux.Quiet.{Quiet}
use side_wire_kernel_su.Device.Mux.Silence.{mux_run-Quiet}
use side_wire_kernel_su.Device.Mux.Credit.{file_bytes, total_grants}
use side_wire_kernel_su.Device.Mux.Conservation.{file_bytes-mux_run}

abbrev encode_bytes : ℕ → List ℕ
encode_bytes n = n ∷ []

abbrev done : Meanwhile
done = record { answer = ok tt; cancels = false }

abbrev chunk : Frame
chunk = record { kind = file_chunk; stream_id = 3; payload = 1 ∷ 2 ∷ [] }

-- Stream 3 was canceled while a chunk of it waited, stream 4 was not.
abbrev canceled_three : Mux
canceled_three = record {
  canceled_ids = 3 ∷ [];
  failed = false;
  flow_credits = (3, 10) ∷ [];
  supports_stream_cancel = true;
  supports_flow_control = true;
  waiting = chunk ∷ [];
  wire = [];
}

abbrev two_sends : List MuxOp
two_sends =
    send chunk done
    ∷ send (record { kind = exec_stdout; stream_id = 4; payload = [] }) done
    ∷ admit 0
    ∷ admit 0
    ∷ finish 4
    ∷ []

mux_run-Quiet_example : Quiet 3 canceled_three (mux_run encode_bytes canceled_three two_sends)
unfolding is_canceled
mux_run-Quiet_example =
    mux_run-Quiet encode_bytes 3 canceled_three two_sends refl
      (tt, (tt, (tt, (tt, ((λ e. omega arith), tt)))))

abbrev granted_sends : List MuxOp
granted_sends = register 3 ∷ credit 3 3 ∷ send chunk done ∷ send chunk done ∷ admit 0 ∷ admit 0 ∷ []

file_bytes-mux_run_example :
    file_bytes 3 (mux_run encode_bytes (new_mux true true) granted_sends).wire
    ≤ total_grants 3 granted_sends
file_bytes-mux_run_example = file_bytes-mux_run encode_bytes 3 true granted_sends

-- Seven attempts of one address within a minute, and one of another address.
abbrev requests : List Request
requests = (0, 1) ∷ (1, 1) ∷ (2, 1) ∷ (3, 2) ∷ (4, 1) ∷ (5, 1) ∷ (6, 1) ∷ (7, 1) ∷ []

within_minute-allowed_times_example :
    within_minute 0 (allowed_times 1 empty_guard requests) ≤ max_pairing_attempts_per_ip
within_minute-allowed_times_example = within_minute-allowed_times 0 1 requests (ground arith)

abbrev pin : List ℕ
pin = 49 ∷ 50 ∷ 51 ∷ 52 ∷ 53 ∷ 54 ∷ []

-- `pin=123456` and `until=90`
abbrev pin_text : List ℕ
pin_text =
    112 ∷ 105 ∷ 110 ∷ 61 ∷ 49 ∷ 50 ∷ 51 ∷ 52 ∷ 53 ∷ 54 ∷ 10 ∷ 117 ∷ 110 ∷ 116 ∷ 105 ∷ 108 ∷ 61 ∷ 57
    ∷ 48 ∷ 10 ∷ []

abbrev pairing : PairState
pairing = record {
  file = present pin_text;
  guard = record { per_ip = []; current_pin = none; failures = 0 };
}

-- A name that tries to bring a secret of its own: `x`, a line break, `secret=`.
abbrev sly_name : List ℕ
sly_name = 120 ∷ 10 ∷ 115 ∷ 101 ∷ 99 ∷ 114 ∷ 101 ∷ 116 ∷ 61 ∷ []

paired_host_secret-store_paired_host_example :
    paired_host_secret
      (some (store_paired_host [] (replicate 16 7) sly_name (replicate 32 200)))
      (replicate 16 7)
    ≡ ok (some (replicate 32 200))
paired_host_secret-store_paired_host_example =
    paired_host_secret-store_paired_host [] (replicate 16 7) sly_name (replicate 32 200) refl
      (ground arith)

abbrev commit : PairCommit
commit = record { host_id = replicate 16 7; host_name = []; shared_secret = replicate 32 200 }

-- The second commit comes with the pairing file still there, the third without.
abbrev commits : List Attempt
commits =
    (record { now = 80; pin = pin; commit = commit; storing = stored; removes = false })
    ∷ (record { now = 81; pin = pin; commit = commit; storing = stored; removes = true })
    ∷ (record { now = 82; pin = pin; commit = commit; storing = stored; removes = true })
    ∷ []

abbrev open_store : PairStore
open_store = record { file = present pin_text; pairs = [] }

commits_run-le_example :
    length (commits_run open_store commits).pairs ≤ length open_store.pairs + 1 + faults commits
commits_run-le_example = commits_run-le open_store commits

abbrev peer : PeerHello
peer = record { node_id = replicate 16 7; security = secure; protocol_version = 258 }

abbrev key_handshake : List ℕ → List ℕ → Option (List ℕ)
key_handshake secret prologue = some secret

abbrev paired : Option Files
paired = some (store_paired_host [] (replicate 16 7) [] (replicate 32 200))

connect_connection-Agreed_example :
    Agreed key_handshake secure paired peer
      (connect_connection key_handshake (replicate 16 1) secure paired peer true)
connect_connection-Agreed_example =
    connect_connection-Agreed key_handshake (replicate 16 1) secure paired peer true

accept_connection-Agreed_example :
    Agreed key_handshake secure paired peer
      (accept_connection key_handshake (replicate 16 1) secure paired peer).1
accept_connection-Agreed_example =
    accept_connection-Agreed key_handshake (replicate 16 1) secure paired peer

read_word-shell_quote_example :
    read_word (shell_quote (105 ∷ 116 ∷ 39 ∷ 115 ∷ 32 ∷ 36 ∷ []))
    ≡ some (105 ∷ 116 ∷ 39 ∷ 115 ∷ 32 ∷ 36 ∷ [])
read_word-shell_quote_example = read_word-shell_quote (105 ∷ 116 ∷ 39 ∷ 115 ∷ 32 ∷ 36 ∷ [])

-- The files of every directory: `ls` and `lsof`.
abbrev listing : List ℕ → Option (List DirEntry)
listing directory = some (
    (record { name = 108 ∷ 115 ∷ []; is_dir = false })
    ∷ (record { name = 108 ∷ 115 ∷ 111 ∷ 102 ∷ []; is_dir = false })
    ∷ [])

complete_pty_path-Completed_example :
    Completed
      (47 ∷ 98 ∷ [])
      listing
      listing
      (108 ∷ 33 ∷ [])
      1
      (complete_pty_path (47 ∷ 98 ∷ []) listing listing (108 ∷ 33 ∷ []) 1)
complete_pty_path-Completed_example =
    complete_pty_path-Completed (47 ∷ 98 ∷ []) listing listing (108 ∷ 33 ∷ []) 1
