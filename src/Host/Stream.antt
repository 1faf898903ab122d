-- ===== src/Host/Stream.antt =====
-- apps/sidewire/src/transport.rs: `open_stream`, and the operations of a `DeviceStream`. A stream
-- is the position of its channel. An operation that waits is one poll of it: `pending` is no
-- result yet, and leaves the state alone.
use side_wire_kernel_su.Base.{
  ℕ, zero, suc, ◌+◌, ◌%◌, ◌^◌, Bool, true, false, not, ◌||◌, Option, none, some, List, [], ◌∷◌,
  ◌++◌, Result, ok, err, Poll, ready, pending, ltb, leb, ◌==◌, if◌then◌else◌, length,
}
use side_wire_kernel_su.Base.Assoc.{remove, insert}
use side_wire_kernel_su.Frame.Kind.{FrameKind, file_chunk, stream_window_update}
use side_wire_kernel_su.Frame.Header.{Frame}
use side_wire_kernel_su.Host.Flow.{max_flow_credit, new_credit, try_take}
use side_wire_kernel_su.Host.Transport.{
  Transport, Channel, Reason, local_drop, set_channel, send_stream_cancel, frame_completes_stream,
}

pub data StreamError : Type 0 where
  connection_closed disconnected credit_too_large window_too_large write_failed : StreamError
  canceled : Reason → StreamError
  wrong_stream : ℕ → StreamError

-- `fuel_out` is no outcome of the program: the loop of `open_stream` ran out of fuel.
pub data Opened : Type 0 where
  opened : Transport → ℕ → Opened
  refused : Transport → Opened
  fuel_out : Opened

abbrev pub contains_key : ℕ → List (ℕ × ℕ) → Bool
contains_key id [] = false
contains_key id ((j, h) ∷ m) = j == id || contains_key id m

abbrev pub new_channel : Transport → ℕ → Channel
new_channel t id = record {
  id = id;
  queue = [];
  receiver = true;
  cancel = none;
  flow = if t.supports_flow_control then some new_credit else none;
  completed = false;
}

abbrev pub insert_stream : Transport → ℕ → Opened
insert_stream t id =
    opened
      (record t {
        routes = insert id (length t.channels) t.routes;
        channels = t.channels ++ (new_channel t id ∷ []);
      })
      (length t.channels)

-- The loop: `fetch_add(1)` on the u32, which skips 0 and the ids that are in use.
unfoldable pub open_loop : ℕ → Transport → Opened
open_loop zero t = fuel_out
open_loop (suc fuel) t =
    let id = t.next_stream_id in
    let t' = record t { next_stream_id = (id + 1) % 2 ^ 32 } in
    let again = open_loop fuel t' in
    if id == 0
    then again
    else if t'.closed
    then refused t'
    else if contains_key id t'.routes
    then again
    else insert_stream t' id

-- There are at most `length routes + 1` ids to skip, so as many rounds and one more are enough.
unfoldable pub open_stream : Transport → Opened
open_stream t = if t.closed then refused t else open_loop (length t.routes + 2) t

-- `ensure_active`, on the stream's cancellation and the connection's `closed`.
abbrev pub ensure_active : Option Reason → Bool → Result StreamError (Unit {0})
ensure_active (some reason) closed = err (canceled reason)
ensure_active none true = err connection_closed
ensure_active none false = ok tt

-- The outcome of a send, with the state.
abbrev pub SendResult : Type 0
SendResult = Result StreamError (Unit {0}) × Transport

abbrev pub take_credit : Transport → ℕ → Channel → Bool × ℕ → Poll SendResult
take_credit t h c (false, left) = pending
take_credit t h c (true, left) = ready (ok tt, set_channel t h (record c { flow = some left }))

abbrev pub if_active : Result StreamError (Unit {0}) → Transport → Poll SendResult → Poll SendResult
if_active (err e) t next = ready (err e, t)
if_active (ok _) t next = next

-- One poll of `acquire_flow_credit`.
abbrev pub acquire : Transport → ℕ → Channel → Option ℕ → ℕ → Poll SendResult
acquire t h c none bytes = ready (ok tt, t)
acquire t h c (some available) bytes =
    if bytes == 0
    then ready (ok tt, t)
    else if ltb max_flow_credit bytes
    then ready (err credit_too_large, t)
    else if_active (ensure_active c.cancel t.closed) t
        (take_credit t h c (try_take available bytes))

unfoldable pub acquire_flow_credit : Transport → ℕ → Channel → ℕ → Poll SendResult
acquire_flow_credit t h c bytes = acquire t h c c.flow bytes

-- `queued_write`: `answer` is what the writer task reports for the frame.
unfoldable pub queued_write : Transport → Frame → Result StreamError (Unit {0}) → SendResult
queued_write t frame answer =
    if t.closed
    then (err connection_closed, t)
    else (answer, record t { wire = t.wire ++ (frame ∷ []) })

-- The end of `send`: the result of the write, unless the stream was canceled meanwhile.
abbrev pub after_write : Result StreamError (Unit {0}) → SendResult → Poll SendResult
after_write (err e) (r, t) = ready (err e, t)
after_write (ok _) x = ready x

abbrev pub write_now :
    Channel → Frame → Result StreamError (Unit {0}) → Poll SendResult → Poll SendResult
write_now c frame answer pending = pending
write_now c frame answer (ready (err e, t)) = ready (err e, t)
write_now c frame answer (ready (ok _, t)) =
    if_active (ensure_active c.cancel t.closed) t
      (let x = queued_write t frame answer in after_write (ensure_active c.cancel t.closed) x)

abbrev pub is_file_chunk : FrameKind → Bool
is_file_chunk file_chunk = true
is_file_chunk _ = false

-- `DeviceStream::send` on the channel `c` at `h`.
unfoldable pub send :
    Transport → ℕ → Channel → Frame → Result StreamError (Unit {0}) → Poll SendResult
unfolding acquire_flow_credit
send t h c frame answer = if_active (ensure_active c.cancel t.closed) t (
    if not (frame.stream_id == c.id)
    then ready (err (wrong_stream frame.stream_id), t)
    else write_now c frame answer (
        if is_file_chunk frame.kind
        then acquire_flow_credit t h c (length frame.payload)
        else ready (ok tt, t)))

-- `send_raw` is `send` on a frame of the stream's own id.
unfoldable pub send_raw :
    Transport → ℕ → Channel → FrameKind → List ℕ → Result StreamError (Unit {0}) → Poll SendResult
unfolding send
send_raw t h c kind payload answer =
    send t h c (record { kind = kind; stream_id = c.id; payload = payload }) answer

abbrev pub uses_flow_control : Option ℕ → Bool
uses_flow_control none = false
uses_flow_control (some available) = true

-- The payload of a window update is made by the serializer.
unfoldable pub grant_window :
    (ℕ → List ℕ) → Transport → ℕ → Channel → ℕ → Result StreamError (Unit {0}) → Poll SendResult
unfolding send
grant_window encode_window t h c bytes answer =
    if not (uses_flow_control c.flow) || bytes == 0
    then ready (ok tt, t)
    else if leb (2 ^ 32) bytes
    then ready (err window_too_large, t)
    else send t h c
        (record { kind = stream_window_update; stream_id = c.id; payload = encode_window bytes })
        answer

abbrev pub is_routed : ℕ → List (ℕ × ℕ) → Bool
is_routed h [] = false
is_routed h ((j, g) ∷ m) = g == h || is_routed h m

abbrev pub RecvResult : Type 0
RecvResult = Result StreamError Frame × Transport

abbrev pub recv_queue : Transport → ℕ → Channel → List Frame → Poll RecvResult
recv_queue t h c [] = if is_routed h t.routes then pending else ready (err disconnected, t)
recv_queue t h c (frame ∷ more) = ready (
  ok frame,
  set_channel t h
      (record c { queue = more; completed = c.completed || frame_completes_stream frame.kind }),
)

abbrev pub recv_by : Transport → ℕ → Channel → Option Reason → Poll RecvResult
recv_by t h c (some reason) =
    ready (err (canceled reason), set_channel t h (record c { completed = true }))
recv_by t h c none = recv_queue t h c c.queue

-- One poll of `recv`. A cancellation comes before what is queued; the queue is read to its end
-- before a stream that lost its route is reported as disconnected.
unfoldable pub recv : Transport → ℕ → Channel → Poll RecvResult
recv t h c = recv_by t h c c.cancel

abbrev pub TryResult : Type 0
TryResult = Result StreamError (Option Frame) × Transport

-- `try_recv` is one poll of `recv`, for which an empty queue is an answer.
abbrev pub tried : Transport → Poll RecvResult → TryResult
tried t pending = (ok none, t)
tried t (ready (err e, t')) = (err e, t')
tried t (ready (ok frame, t')) = (ok (some frame), t')

unfoldable pub try_recv : Transport → ℕ → Channel → TryResult
unfolding recv
try_recv t h c = tried t (recv t h c)

-- `Drop for DeviceStream`
unfoldable pub drop_stream : Transport → ℕ → Channel → Transport
drop_stream t h c =
    let t₁ = record t { routes = remove c.id t.routes } in
    let t₂ = set_channel t₁ h (record c { receiver = false }) in
    if c.completed then t₂ else send_stream_cancel t₂ c.id local_drop
