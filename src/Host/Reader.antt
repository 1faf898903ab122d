-- ===== src/Host/Reader.antt =====
-- apps/sidewire/src/transport.rs: the reader task of `DeviceTransport::new`.
use side_wire_kernel_su.Base.{
  ℕ, Bool, true, false, not, Option, none, some, List, [], ◌∷◌, ◌++◌, Result, ok, err, leb,
  if◌then◌else◌, length,
}
use side_wire_kernel_su.Base.Assoc.{remove}
use side_wire_kernel_su.Frame.Kind.{FrameKind, stream_window_update, stream_cancel}
use side_wire_kernel_su.Frame.Header.{Frame}
use side_wire_kernel_su.Host.Flow.{FlowError, add}
use side_wire_kernel_su.Host.Transport.{
  Transport, Channel, Reason, remote_canceled, remote_text, queue_overflow, route_capacity,
  set_channel, find_route, send_stream_cancel, close,
}

-- The state after a frame, and whether the loop goes on (`false`: it breaks).
abbrev pub Round : Type 0
Round = Transport × Bool

-- `flow.add(update.bytes)`; an invalid credit ends the connection.
abbrev pub grant_to : Transport → ℕ → Channel → Result FlowError ℕ → Round
grant_to t h c (err _) = (t, false)
grant_to t h c (ok updated) = (set_channel t h (record c { flow = some updated }), true)

abbrev pub grant_flow : Transport → ℕ → Channel → Option ℕ → ℕ → Round
grant_flow t h c none bytes = (t, true)
grant_flow t h c (some available) bytes = grant_to t h c (add available bytes)

abbrev pub grant_route : Transport → Option (ℕ × Channel) → ℕ → Round
grant_route t none bytes = (t, true)
grant_route t (some (h, c)) bytes = grant_flow t h c c.flow bytes

abbrev pub grant : Transport → ℕ → Option ℕ → Round
grant t stream_id none = (t, false)
grant t stream_id (some bytes) = grant_route t (find_route t stream_id) bytes

abbrev pub cancel_reason : ℕ → List ℕ → Reason
cancel_reason stream_id [] = remote_canceled stream_id
cancel_reason stream_id (b ∷ bs) = remote_text (b ∷ bs)

abbrev pub drop_route : Transport → ℕ → Transport
drop_route t stream_id = record t { routes = remove stream_id t.routes }

abbrev pub cancel_channel : Transport → ℕ → Channel → Reason → Transport
cancel_channel t h c reason = set_channel t h (record c { cancel = some reason })

abbrev pub cancel_route : Transport → Frame → Option (ℕ × Channel) → Round
cancel_route t frame none = (t, true)
cancel_route t frame (some (h, c)) = (
  cancel_channel (drop_route t frame.stream_id) h c (cancel_reason frame.stream_id frame.payload),
  true,
)

-- `route.sender.try_send(frame)`: a closed channel is reported before a full one.
abbrev pub deliver_to : Transport → Frame → ℕ → Channel → Round
deliver_to t frame h c =
    if not c.receiver
    then (drop_route t frame.stream_id, true)
    else if leb route_capacity (length c.queue)
    then (
      send_stream_cancel
          (cancel_channel (drop_route t frame.stream_id) h c (queue_overflow frame.stream_id))
          frame.stream_id (queue_overflow frame.stream_id),
      true,
    )
    else (set_channel t h (record c { queue = c.queue ++ (frame ∷ []) }), true)

abbrev pub deliver : Transport → Frame → Option (ℕ × Channel) → Round
deliver t frame none = (t, true)
deliver t frame (some (h, c)) = deliver_to t frame h c

-- `decode::<StreamWindowUpdate>` belongs to the serializer, which is not part of the program.
module _ (decode_window : List ℕ → Option ℕ) where
  -- One frame, after it was read.
  abbrev pub dispatch_kind : FrameKind → Transport → Frame → Round
  dispatch_kind stream_window_update t frame =
      if not t.supports_flow_control
      then (t, false)
      else grant t frame.stream_id (decode_window frame.payload)
  dispatch_kind stream_cancel t frame = cancel_route t frame (find_route t frame.stream_id)
  dispatch_kind _ t frame = deliver t frame (find_route t frame.stream_id)

  unfoldable pub dispatch : Transport → Frame → Round
  dispatch t frame = dispatch_kind frame.kind t frame

  -- The task, over what the connection delivers: `none` is a read error. It ends when the
  -- connection is closed or the loop breaks, and then closes the connection for all streams.
  unfoldable pub reader_task : Transport → List (Option Frame) → Transport
  unfolding close
  reader_task t [] = close t
  reader_task t (none ∷ more) = close t
  reader_task t (some frame ∷ more) =
      let (t', again) = dispatch t frame in
      let rest = reader_task t' more in
      if t.closed then close t else if again then rest else close t'
