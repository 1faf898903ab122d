-- ===== src/Device/Mux.antt =====
-- apps/sidewired/src/transport.rs: `MuxWriter`, by which the streams of the device daemon share the
-- writer of a connection. `FlowCredit` is the same code as on the host (Host/Flow).
pub mod Trace
pub mod Quiet
pub mod Silence
pub mod Credit
pub mod Payment
pub mod Conservation
use side_wire_kernel_su.Base.{
  ℕ, zero, suc, ◌^◌, Bool, true, false, not, ◌||◌, Option, none, some, List, [], ◌∷◌, ◌++◌, Result,
  ok, err, Poll, ready, pending, ltb, leb, ◌==◌, if◌then◌else◌, length,
}
use side_wire_kernel_su.Base.Assoc.{lookup, remove, insert}
use side_wire_kernel_su.Frame.Kind.{
  FrameKind, file_chunk, stream_window_update, stream_cancel, error,
}
use side_wire_kernel_su.Frame.Header.{Frame}
use side_wire_kernel_su.Host.Flow.{FlowError, max_flow_credit, new_credit, add, try_take}

pub data MuxError : Type 0 where
  stopped not_negotiated credit_too_large exceeds_u32 : MuxError
  already_registered : ℕ → MuxError
  missing_flow : ℕ → MuxError
  canceled : ℕ → MuxError
  flow : FlowError → MuxError

-- `canceled_ids` is the hash set `canceled`. `waiting` holds the frames that a `queue_frame` has
-- passed its test with and that wait for room in the bounded queue of the writer task; `wire` those
-- that the queue has taken.
pub record Mux : Type 0 where
  pub canceled_ids : List ℕ
  pub failed : Bool
  pub flow_credits : List (ℕ × ℕ)
  pub supports_stream_cancel : Bool
  pub supports_flow_control : Bool
  pub waiting : List Frame
  pub wire : List Frame

-- How `queue_frame` ends: the answer of the writer task, and whether the stream is canceled by
-- then.
pub record Meanwhile : Type 0 where
  pub answer : Result MuxError (Unit {0})
  pub cancels : Bool

unfoldable pub new_mux : Bool → Bool → Mux
new_mux supports_stream_cancel supports_flow_control = record {
  canceled_ids = [];
  failed = false;
  flow_credits = [];
  supports_stream_cancel = supports_stream_cancel;
  supports_flow_control = supports_flow_control;
  waiting = [];
  wire = [];
}

-- An outcome, and the state that is left.
abbrev pub Acted : Type 0 → Type 0
Acted A = Result MuxError A × Mux

-- `queue_frame`, up to where it waits; its answer comes once the frame was admitted and written, or
-- given up.
unfoldable pub queue_frame : Mux → Frame → Result MuxError (Unit {0}) → Acted (Unit {0})
queue_frame m frame answer =
    if m.failed
    then (err stopped, m)
    else (answer, record m { waiting = m.waiting ++ (frame ∷ []) })

abbrev pub keep_frame : Frame → Option (Frame × List Frame) → Option (Frame × List Frame)
keep_frame f none = none
keep_frame f (some (g, rest)) = some (g, f ∷ rest)

abbrev pub pick_frame : ℕ → List Frame → Option (Frame × List Frame)
pick_frame index [] = none
pick_frame zero (f ∷ more) = some (f, more)
pick_frame (suc index) (f ∷ more) = keep_frame f (pick_frame index more)

abbrev pub admit_picked : Mux → Option (Frame × List Frame) → Mux
admit_picked m none = m
admit_picked m (some (f, rest)) = record m { waiting = rest; wire = m.wire ++ (f ∷ []) }

-- The queue has room for a frame that waits: the `await` of `inner.send` is over.
unfoldable pub admit_frame : Mux → ℕ → Mux
admit_frame m index = admit_picked m (pick_frame index m.waiting)

abbrev pub give_up_picked : Mux → Option (Frame × List Frame) → Mux
give_up_picked m none = m
give_up_picked m (some (f, rest)) = record m { waiting = rest }

-- The queue is closed while a frame waits.
unfoldable pub give_up_frame : Mux → ℕ → Mux
give_up_frame m index = give_up_picked m (pick_frame index m.waiting)

unfoldable pub close_mux : Mux → Mux
close_mux m = record m { failed = true }

-- The credit that was there is replaced before its presence is reported.
abbrev pub replaced : Option ℕ → ℕ → Mux → Acted (Unit {0})
replaced none stream_id m = (ok tt, m)
replaced (some _) stream_id m = (err (already_registered stream_id), m)

unfoldable pub register_flow_stream : Mux → ℕ → Acted (Unit {0})
register_flow_stream m stream_id =
    if not m.supports_flow_control
    then (ok tt, m)
    else replaced (lookup stream_id m.flow_credits) stream_id
        (record m { flow_credits = insert stream_id new_credit m.flow_credits })

abbrev pub add_to : Mux → ℕ → Result FlowError ℕ → Acted Bool
add_to m stream_id (err e) = (err (flow e), m)
add_to m stream_id (ok updated) =
    (ok true, record m { flow_credits = insert stream_id updated m.flow_credits })

abbrev pub add_found : Mux → ℕ → ℕ → Option ℕ → Acted Bool
add_found m stream_id bytes none = (ok false, m)
add_found m stream_id bytes (some available) = add_to m stream_id (add available bytes)

unfoldable pub add_flow_credit : Mux → ℕ → ℕ → Acted Bool
add_flow_credit m stream_id bytes =
    if not m.supports_flow_control
    then (err not_negotiated, m)
    else add_found m stream_id bytes (lookup stream_id m.flow_credits)

abbrev pub contains : ℕ → List ℕ → Bool
contains id [] = false
contains id (j ∷ js) = j == id || contains id js

abbrev pub without : ℕ → List ℕ → List ℕ
without id [] = []
without id (j ∷ js) = if j == id then without id js else j ∷ without id js

unfoldable pub is_canceled : Mux → ℕ → Bool
is_canceled m stream_id = contains stream_id m.canceled_ids

unfoldable pub cancel_local : Mux → ℕ → Mux
cancel_local m stream_id = record m {
  canceled_ids = if is_canceled m stream_id then m.canceled_ids else stream_id ∷ m.canceled_ids;
}

unfoldable pub finish_stream : Mux → ℕ → Mux
finish_stream m stream_id = record m {
  canceled_ids = without stream_id m.canceled_ids;
  flow_credits = remove stream_id m.flow_credits;
}

-- `ensure_active`, before what follows it.
abbrev pub if_running : Mux → ℕ → Poll (Acted (Unit {0})) → Poll (Acted (Unit {0}))
if_running m stream_id next =
    if is_canceled m stream_id then ready (err (canceled stream_id), m) else next

abbrev pub take_bytes : Mux → ℕ → Bool × ℕ → Poll (Acted (Unit {0}))
take_bytes m stream_id (false, left) = pending
take_bytes m stream_id (true, left) =
    ready (ok tt, record m { flow_credits = insert stream_id left m.flow_credits })

abbrev pub acquire_found : Mux → ℕ → ℕ → Option ℕ → Poll (Acted (Unit {0}))
acquire_found m stream_id bytes none = ready (err (missing_flow stream_id), m)
acquire_found m stream_id bytes (some available) =
    if_running m stream_id (
      if m.failed
      then ready (err stopped, m)
      else take_bytes m stream_id (try_take available bytes))

-- One poll of `acquire_flow_credit`.
unfoldable pub acquire_flow_credit : Mux → ℕ → ℕ → Poll (Acted (Unit {0}))
acquire_flow_credit m stream_id bytes =
    if not m.supports_flow_control || bytes == 0
    then ready (ok tt, m)
    else if ltb max_flow_credit bytes
    then ready (err credit_too_large, m)
    else acquire_found m stream_id bytes (lookup stream_id m.flow_credits)

-- The end of a send: the answer of the writer, unless the stream was canceled meanwhile.
abbrev pub report : ℕ → Bool → Acted (Unit {0}) → Acted (Unit {0})
report stream_id true (r, m) = (err (canceled stream_id), m)
report stream_id false x = x

abbrev pub queue_now : Mux → Frame → Meanwhile → Acted (Unit {0})
queue_now m frame w =
    if is_canceled m frame.stream_id
    then (err (canceled frame.stream_id), m)
    else report frame.stream_id w.cancels (queue_frame m frame w.answer)

abbrev pub queue_after : Frame → Meanwhile → Poll (Acted (Unit {0})) → Poll (Acted (Unit {0}))
queue_after frame w pending = pending
queue_after frame w (ready (err e, m)) = ready (err e, m)
queue_after frame w (ready (ok _, m)) = ready (queue_now m frame w)

-- Without a file chunk `ensure_active` is not called twice: the test in `queue_now` then repeats
-- that of `mux_send`, on the same state.
abbrev pub send_kind : FrameKind → Mux → Frame → Meanwhile → Poll (Acted (Unit {0}))
send_kind file_chunk m frame w =
    queue_after frame w (acquire_flow_credit m frame.stream_id (length frame.payload))
send_kind _ m frame w = ready (queue_now m frame w)

-- One poll of `send`; `send_raw` is the same on the frame of its arguments.
unfoldable pub mux_send : Mux → Frame → Meanwhile → Poll (Acted (Unit {0}))
mux_send m frame w = if_running m frame.stream_id (send_kind frame.kind m frame w)

unfoldable pub mux_send_raw : Mux → FrameKind → ℕ → List ℕ → Meanwhile → Poll (Acted (Unit {0}))
unfolding mux_send
mux_send_raw m kind stream_id payload w =
    mux_send m (record { kind = kind; stream_id = stream_id; payload = payload }) w

abbrev pub cancel_kind : Bool → FrameKind
cancel_kind true = stream_cancel
cancel_kind false = error

-- `send_cancel`; a failure to send is only logged.
unfoldable pub send_cancel : Mux → ℕ → List ℕ → Result MuxError (Unit {0}) → Mux
unfolding cancel_local queue_frame
send_cancel m stream_id message answer =
    (queue_frame (cancel_local m stream_id)
      (record {
        kind = cancel_kind m.supports_stream_cancel;
        stream_id = stream_id;
        payload = message;
      })
      answer).1

abbrev pub state_after : Mux → Poll (Acted (Unit {0})) → Mux
state_after m pending = m
state_after m (ready (r, m')) = m'

unfoldable pub send_error : Mux → ℕ → List ℕ → Meanwhile → Mux
unfolding is_canceled mux_send_raw
send_error m stream_id message w =
    if is_canceled m stream_id then m else state_after m (mux_send_raw m error stream_id message w)

-- The payload of a window update is made by the serializer, which is not part of the program.
module _ (encode_window : ℕ → List ℕ) where
  unfoldable pub send_window_update : Mux → ℕ → ℕ → Result MuxError (Unit {0}) → Acted (Unit {0})
  unfolding is_canceled queue_frame
  send_window_update m stream_id bytes answer =
      if not m.supports_flow_control || bytes == 0
      then (ok tt, m)
      else if is_canceled m stream_id
      then (err (canceled stream_id), m)
      else if leb (2 ^ 32) bytes
      then (err exceeds_u32, m)
      else queue_frame m
          (record {
            kind = stream_window_update;
            stream_id = stream_id;
            payload = encode_window bytes;
          })
          answer
