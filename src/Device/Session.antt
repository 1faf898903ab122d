-- ===== src/Device/Session.antt =====
-- apps/sidewired/src/main.rs: the loop of `serve` over the frames of one connection, with the
-- streams that it registers and the tasks that it spawns for them.
pub mod Events
pub mod Valid
pub mod Frames
pub mod Tasks
pub mod Told
pub mod Spawns
pub mod Late
pub mod Steps
mod Tests
pub mod Shutdown
use side_wire_kernel_su.Base.{
  ℕ, Bool, true, false, not, Option, none, some, List, [], ◌∷◌, ◌++◌, Result, ok, err, Poll, ready,
  pending, leb, if◌then◌else◌, length,
}
use side_wire_kernel_su.Base.Assoc.{lookup, remove, insert, get_elem?, set}
use side_wire_kernel_su.Frame.Kind.{
  FrameKind, exec_request, push_request, pull_request, pty_open, clipboard_get, clipboard_set,
  clipboard_clear, proxy_start_request, ping, pong, stream_cancel, stream_window_update,
}
use side_wire_kernel_su.Frame.Header.{Frame}
use side_wire_kernel_su.Device.Mux.{
  Mux, MuxError, Acted, Meanwhile, register_flow_stream, add_flow_credit, cancel_local,
  finish_stream, mux_send_raw, send_error, send_cancel, close_mux,
}

abbrev pub stream_route_capacity : ℕ
stream_route_capacity = 16

-- A task works, then it has unregistered its stream, then it has finished it.
pub data Phase : Type 0 where
  working leaving ended : Phase

-- A spawned task with the receivers that it owns: the queue of its inbox (empty where it has none)
-- and the value of its cancellation.
pub record Task : Type 0 where
  pub id : ℕ
  pub request : FrameKind
  pub inbox : List Frame
  pub cancel : Bool
  pub phase : Phase

-- `routes` and `cancels` hold senders: the position of the task that has the receiver. `overflows`
-- are the streams whose `send_cancel` was spawned and has not run.
pub record Session : Type 0 where
  pub mux : Mux
  pub routes : List (ℕ × ℕ)
  pub cancels : List (ℕ × ℕ)
  pub tasks : List Task
  pub overflows : List ℕ

pub data SessionError : Type 0 where
  invalid_update : SessionError
  already_active already_cancelable : ℕ → SessionError
  mux_error : MuxError → SessionError

-- What one turn of the loop ends with; an error ends the loop.
abbrev pub Turn : Type 0
Turn = Result SessionError (Unit {0}) × Session

infixl 5 ◌and_next◌
abbrev pub ◌and_next◌ : Turn → (Session → Turn) → Turn
(ok _, s) and_next next = next s
(err e, s) and_next next = (err e, s)

abbrev pub new_session : Mux → Session
new_session m = record { mux = m; routes = []; cancels = []; tasks = []; overflows = [] }

abbrev pub has_inbox : FrameKind → Bool
has_inbox push_request = true
has_inbox pty_open = true
has_inbox _ = false

abbrev pub has_cancel : FrameKind → Bool
has_cancel exec_request = true
has_cancel push_request = true
has_cancel pull_request = true
has_cancel clipboard_get = true
has_cancel clipboard_set = true
has_cancel clipboard_clear = true
has_cancel proxy_start_request = true
has_cancel _ = false

-- The position of the task that is spawned next.
abbrev pub next_position : Session → ℕ
next_position s = length s.tasks

abbrev pub if_inactive : Session → ℕ → Option ℕ → Turn
if_inactive s stream_id (some _) = (err (already_active stream_id), s)
if_inactive s stream_id none =
    (ok tt, record s { routes = insert stream_id (next_position s) s.routes })

unfoldable pub register_stream : Session → ℕ → Turn
register_stream s stream_id = if_inactive s stream_id (lookup stream_id s.routes)

-- The sender that was there is replaced before its presence is reported.
abbrev pub if_replaced : Session → ℕ → Option ℕ → Turn
if_replaced s stream_id (some _) = (err (already_cancelable stream_id), s)
if_replaced s stream_id none = (ok tt, s)

unfoldable pub register_cancel : Session → ℕ → Turn
register_cancel s stream_id =
    if_replaced (record s { cancels = insert stream_id (next_position s) s.cancels }) stream_id
      (lookup stream_id s.cancels)

abbrev pub with_mux : Session → Result MuxError (Unit {0}) × Mux → Turn
with_mux s (ok _, m) = (ok tt, record s { mux = m })
with_mux s (err e, m) = (err (mux_error e), record s { mux = m })

abbrev pub register_flow : Session → ℕ → Turn
register_flow s stream_id = with_mux s (register_flow_stream s.mux stream_id)

abbrev pub new_task : Frame → Task
new_task f = record {
  id = f.stream_id;
  request = f.kind;
  inbox = [];
  cancel = false;
  phase = working;
}

-- `tokio::spawn`
abbrev pub spawn : Session → Frame → Turn
spawn s f = (ok tt, record s { tasks = s.tasks ++ (new_task f ∷ []) })

abbrev pub set_task : Session → ℕ → Task → Session
set_task s h t = record s { tasks = set s.tasks h t }

-- `cancel.send(true)`
abbrev pub tell : Session → ℕ → Option Task → Session
tell s h none = s
tell s h (some t) = set_task s h (record t { cancel = true })

abbrev pub tell_at : Session → Option ℕ → Session
tell_at s none = s
tell_at s (some h) = tell s h (get_elem? s.tasks h)

-- `FrameKind::StreamCancel`
unfoldable pub cancel_frame : Session → ℕ → Session
cancel_frame s stream_id =
    tell_at
      (record s {
        mux = cancel_local s.mux stream_id;
        routes = remove stream_id s.routes;
        cancels = remove stream_id s.cancels;
      })
      (lookup stream_id s.cancels)

abbrev pub unroute : Session → ℕ → Session
unroute s stream_id = record s { routes = remove stream_id s.routes }

-- `sender.try_send(request)`: a task that has ended has dropped its inbox.
abbrev pub send_inbox : Session → Frame → ℕ → Phase → Task → Session
send_inbox s f h ended t = unroute s f.stream_id
send_inbox s f h _ t =
    if leb stream_route_capacity (length t.inbox)
    then record s {
      routes = remove f.stream_id s.routes;
      overflows = s.overflows ++ (f.stream_id ∷ []);
    }
    else set_task s h (record t { inbox = t.inbox ++ (f ∷ []) })

abbrev pub send_route : Session → Frame → ℕ → Option Task → Session
send_route s f h none = unroute s f.stream_id
send_route s f h (some t) = send_inbox s f h t.phase t

-- An awaited send of a kind that never waits for credit.
abbrev pub awaited : Session → Poll (Acted (Unit {0})) → Turn
awaited s pending = (ok tt, s)
awaited s (ready x) = with_mux s x

abbrev pub finished : ℕ → Session → Turn
finished stream_id s = (ok tt, record s { mux = finish_stream s.mux stream_id })

abbrev pub credited : Session → Acted Bool → Turn
credited s (ok _, m) = (ok tt, record s { mux = m })
credited s (err e, m) = (err (mux_error e), record s { mux = m })

abbrev pub update_arm : Session → ℕ → Option ℕ → Turn
update_arm s stream_id none = (err invalid_update, s)
update_arm s stream_id (some bytes) = credited s (add_flow_credit s.mux stream_id bytes)

module _ (decode_window : List ℕ → Option ℕ) (unsupported : FrameKind → List ℕ) where
  -- The `match` on the kind of a frame that is not routed. `w` is what happens while it sends.
  unfoldable pub request_arm : FrameKind → Session → Frame → Meanwhile → Turn
  request_arm push_request s f w =
      register_stream s f.stream_id
      and_next (λ s. register_cancel s f.stream_id)
      and_next (λ s. spawn s f)
  request_arm pull_request s f w =
      register_cancel s f.stream_id
      and_next (λ s. register_flow s f.stream_id)
      and_next (λ s. spawn s f)
  request_arm pty_open s f w = register_stream s f.stream_id and_next (λ s. spawn s f)
  request_arm exec_request s f w = register_cancel s f.stream_id and_next (λ s. spawn s f)
  request_arm clipboard_get s f w = register_cancel s f.stream_id and_next (λ s. spawn s f)
  request_arm clipboard_set s f w = register_cancel s f.stream_id and_next (λ s. spawn s f)
  request_arm clipboard_clear s f w = register_cancel s f.stream_id and_next (λ s. spawn s f)
  request_arm proxy_start_request s f w = register_cancel s f.stream_id and_next (λ s. spawn s f)
  request_arm ping s f w =
      awaited s (mux_send_raw s.mux pong f.stream_id f.payload w) and_next (finished f.stream_id)
  request_arm kind s f w =
      finished f.stream_id (record s { mux = send_error s.mux f.stream_id (unsupported kind) w })

  abbrev pub routed_or : Session → Frame → Meanwhile → Option ℕ → Turn
  routed_or s f w (some h) = (ok tt, send_route s f h (get_elem? s.tasks h))
  routed_or s f w none = request_arm f.kind s f w

  -- One turn of the loop, after its frame was read.
  unfoldable pub serve_kind : FrameKind → Session → Frame → Meanwhile → Turn
  serve_kind stream_window_update s f w = update_arm s f.stream_id (decode_window f.payload)
  serve_kind stream_cancel s f w = (ok tt, cancel_frame s f.stream_id)
  serve_kind _ s f w = routed_or s f w (lookup f.stream_id s.routes)

  unfoldable pub serve_frame : Session → Frame → Meanwhile → Turn
  unfolding serve_kind
  serve_frame s f w = serve_kind f.kind s f w

-- What follows the loop.
unfoldable pub cancel_routed : List (ℕ × ℕ) → Mux → Mux
cancel_routed [] m = m
cancel_routed ((stream_id, h) ∷ routes) m = cancel_routed routes (cancel_local m stream_id)

unfoldable pub tell_all : List (ℕ × ℕ) → Session → Session
tell_all [] s = s
tell_all ((stream_id, h) ∷ cancels) s =
    tell_all cancels (tell_at (record s { mux = cancel_local s.mux stream_id }) (some h))

unfoldable pub tear_down : Session → Session
tear_down s =
    let unrouted = record s { mux = cancel_routed s.routes s.mux; routes = [] } in
    let told = tell_all unrouted.cancels (record unrouted { cancels = [] }) in
    record told { mux = close_mux told.mux }
