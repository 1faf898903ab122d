-- ===== src/Host/Transport.antt =====
-- apps/sidewire/src/transport.rs: the streams that share a device connection. The routes of
-- `TransportInner` point to channels, which the `DeviceStream`s hold too: a channel is a cell of
-- `channels`, and its position is what both sides keep.
use side_wire_kernel_su.Base.{
  ℕ, ◌/◌, ◌%◌, Bool, true, false, not, ◌&&◌, ◌||◌, Option, none, some, List, [], ◌∷◌, ◌++◌, leb,
  ◌==◌, if◌then◌else◌,
}
use side_wire_kernel_su.Base.Assoc.{lookup, get_elem?, set}
use side_wire_kernel_su.Frame.Kind.{
  FrameKind, exec_exit, file_end, pty_exit, clipboard_data, pong, proxy_start_ack, error,
}
use side_wire_kernel_su.Frame.Header.{Frame}
use side_wire_kernel_su.Frame.Version.{protocol_minor}

abbrev pub route_capacity : ℕ
route_capacity = 16

-- The texts of the cancellations: `format!("remote canceled stream {id}")`, the peer's own text,
-- the overflow of a receive queue, and a stream that was dropped before it was completed.
pub data Reason : Type 0 where
  remote_canceled : ℕ → Reason
  remote_text : List ℕ → Reason
  queue_overflow : ℕ → Reason
  local_drop : Reason

-- What the two ends of a stream share: the `mpsc` queue, whether its receiver is still there, the
-- `watch` value, the flow credit. `completed` belongs to the `DeviceStream`.
pub record Channel : Type 0 where
  pub id : ℕ
  pub queue : List Frame
  pub receiver : Bool
  pub cancel : Option Reason
  pub flow : Option ℕ
  pub completed : Bool

-- `outbox` holds the cancellations and `wire` the other frames that went to the writer task.
pub record Transport : Type 0 where
  pub routes : List (ℕ × ℕ)
  pub channels : List Channel
  pub next_stream_id : ℕ  -- AtomicU32
  pub closed : Bool
  pub supports_stream_cancel : Bool
  pub supports_flow_control : Bool
  pub outbox : List (ℕ × Reason)
  pub wire : List Frame

unfoldable pub frame_completes_stream : FrameKind → Bool
frame_completes_stream exec_exit = true
frame_completes_stream file_end = true
frame_completes_stream pty_exit = true
frame_completes_stream clipboard_data = true
frame_completes_stream pong = true
frame_completes_stream proxy_start_ack = true
frame_completes_stream error = true
frame_completes_stream _ = false

-- `capabilities & bit != 0`, for a bit that is a power of two
abbrev pub has_capability : ℕ → ℕ → Bool
has_capability capabilities bit = not (capabilities / bit % 2 == 0)

-- The state that `DeviceTransport::new` builds: capability bits 5 and 6, protocol minors 1 and 2.
unfoldable pub new : ℕ → ℕ → Transport
unfolding protocol_minor
new protocol peer_capabilities = record {
  routes = [];
  channels = [];
  next_stream_id = 1;
  closed = false;
  supports_stream_cancel = leb 1 (protocol_minor protocol) && has_capability peer_capabilities 32;
  supports_flow_control = leb 2 (protocol_minor protocol) && has_capability peer_capabilities 64;
  outbox = [];
  wire = [];
}

-- `signal_closed`; the notifications have no state.
unfoldable pub signal_closed : Transport → Transport
signal_closed t = record t { closed = true }

unfoldable pub clear_routes : Transport → Transport
clear_routes t = record t { routes = [] }

unfoldable pub close : Transport → Transport
unfolding signal_closed clear_routes
close t = clear_routes (signal_closed t)

-- `send_stream_cancel`: nothing is sent to a peer that does not know it, or on a closed connection.
unfoldable pub send_stream_cancel : Transport → ℕ → Reason → Transport
send_stream_cancel t stream_id reason =
    if not t.supports_stream_cancel || t.closed
    then t
    else record t { outbox = t.outbox ++ ((stream_id, reason) ∷ []) }

abbrev pub set_channel : Transport → ℕ → Channel → Transport
set_channel t h c = record t { channels = set t.channels h c }

abbrev pub with_position : ℕ → Option Channel → Option (ℕ × Channel)
with_position h none = none
with_position h (some c) = some (h, c)

abbrev pub find_at : List Channel → Option ℕ → Option (ℕ × Channel)
find_at channels none = none
find_at channels (some h) = with_position h (get_elem? channels h)

-- The channel that a stream id is routed to, with its position.
abbrev pub find_route : Transport → ℕ → Option (ℕ × Channel)
find_route t stream_id = find_at t.channels (lookup stream_id t.routes)
