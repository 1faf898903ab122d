-- ===== src/Host/Tests.antt =====
-- The theorems on the streams of a connection, applied to a concrete one.
use side_wire_kernel_su.Base.{ℕ, refl, true, false, Option, some, none, List, [], ◌∷◌, ok, arith}
use side_wire_kernel_su.Frame.Kind.{exec_stdout, stream_window_update}
use side_wire_kernel_su.Frame.Header.{Frame}
use side_wire_kernel_su.Host.Transport.{Transport}
use side_wire_kernel_su.Host.Reader.{dispatch, reader_task}
use side_wire_kernel_su.Host.Stream.{open_stream}
use side_wire_kernel_su.Host.Invariant.{IsValid}
use side_wire_kernel_su.Host.Offends.{Offends}
use side_wire_kernel_su.Host.Dispatch.{Ended, reader_task_lem}
use side_wire_kernel_su.Frame.Version.{protocol_minor}
use side_wire_kernel_su.Host.Transport.{Channel, new, frame_completes_stream}
use side_wire_kernel_su.Host.Flow.{new_credit}
use side_wire_kernel_su.Host.Stream.{open_loop, recv}
use side_wire_kernel_su.Host.Reachable.{Reach, start, next, opens, arrives, receives, Reach-IsValid}
use side_wire_kernel_su.Host.Open.{OpenedWell, open_stream-OpenedWell}

-- Every window update grants a thousand bytes.
abbrev window : List ℕ → Option ℕ
window payload = some 1000

-- Two streams, one with a frame in its queue.
abbrev two_streams : Transport
two_streams = record {
  routes = (2, 1) ∷ (1, 0) ∷ [];
  channels =
      record {
        id = 1;
        queue = [];
        receiver = true;
        cancel = none;
        flow = some 0;
        completed = false;
      }
      ∷ record {
        id = 2;
        queue = record { kind = exec_stdout; stream_id = 2; payload = [] } ∷ [];
        receiver = true;
        cancel = none;
        flow = some 70;
        completed = false;
      }
      ∷ [];
  next_stream_id = 4294967295;
  closed = false;
  supports_stream_cancel = true;
  supports_flow_control = true;
  outbox = [];
  wire = [];
}

abbrev two_streams-IsValid : IsValid two_streams
two_streams-IsValid = record {
  channels_ok = (
    record { capacity = omega arith; credit = omega arith },
    (record { capacity = omega arith; credit = omega arith }, tt),
  );
  routes_ok = ((λ e. omega arith, omega arith), ((λ e. omega arith, omega arith), tt));
}

abbrev update : Frame
update = record { kind = stream_window_update; stream_id = 2; payload = [] }

abbrev output : Frame
output = record { kind = exec_stdout; stream_id = 1; payload = 104 ∷ [] }

reader_task_lem_example : Ended (reader_task window two_streams (some update ∷ some output ∷ []))
reader_task_lem_example =
    reader_task_lem window two_streams (some update ∷ some output ∷ []) two_streams-IsValid

open_stream-OpenedWell_example : OpenedWell two_streams (open_stream two_streams)
open_stream-OpenedWell_example =
    open_stream-OpenedWell two_streams two_streams-IsValid (omega arith) (omega arith)

-- A new connection, the first stream on it, and a frame that waits for the stream.
abbrev fresh : Transport
fresh = new 258 96

abbrev first_channel : List Frame → Channel
first_channel queue = record {
  id = 1;
  queue = queue;
  receiver = true;
  cancel = none;
  flow = some 0;
  completed = false;
}

abbrev with_stream : List Frame → Transport
with_stream queue = record {
  routes = (1, 0) ∷ [];
  channels = first_channel queue ∷ [];
  next_stream_id = 2;
  closed = false;
  supports_stream_cancel = true;
  supports_flow_control = true;
  outbox = [];
  wire = [];
}

history : Reach window fresh (with_stream [])
unfolding new open_stream open_loop new_credit dispatch recv protocol_minor frame_completes_stream
history =
    next (next (next start (opens fresh (with_stream []) 0 refl)) (arrives (with_stream []) output))
      (receives (with_stream (output ∷ [])) (with_stream []) 0 (first_channel (output ∷ []))
        (ok output) refl refl)

Reach-IsValid_example : IsValid (with_stream [])
Reach-IsValid_example = Reach-IsValid window 258 96 history
