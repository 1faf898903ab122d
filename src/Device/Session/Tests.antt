-- ===== src/Device/Session/Tests.antt =====
-- The theorems on the streams of a connection, applied to a host that pushes a file, runs a
-- command and cancels it.
use side_wire_kernel_su.Base.{ℕ, refl, false, true, Option, none, List, [], ◌∷◌, ok, arith}
use side_wire_kernel_su.Frame.Kind.{
  FrameKind, push_request, exec_request, file_chunk, stream_cancel, pty_input, pty_output,
}
use side_wire_kernel_su.Frame.Header.{Frame}
use side_wire_kernel_su.Device.Mux.{Mux, Meanwhile, new_mux}
use side_wire_kernel_su.Device.Session.{new_session, tear_down, serve_frame, cancel_frame}
use side_wire_kernel_su.Device.Session.Events.{
  Event, arrives, takes, unregisters, finishes, session_run,
}
use side_wire_kernel_su.Device.Session.Valid.{IsValid}
use side_wire_kernel_su.Device.Session.Frames.{Holds}
use side_wire_kernel_su.Device.Session.Tasks.{session_run-IsValid}
use side_wire_kernel_su.Device.Session.Shutdown.{IsOver, session-IsOver}
use side_wire_kernel_su.Device.Session.Late.{Revived, serve_frame-Revived}

abbrev no_window : ℕ → List ℕ
no_window bytes = []

abbrev no_update : List ℕ → Option ℕ
no_update payload = none

abbrev no_text : FrameKind → List ℕ
no_text kind = []

abbrev calm : Meanwhile
calm = record { answer = ok tt; cancels = false }

abbrev of_kind : FrameKind → ℕ → Frame
of_kind kind id = record { kind = kind; stream_id = id; payload = 7 ∷ [] }

abbrev fresh_mux : Mux
fresh_mux = new_mux true true

abbrev events : List Event
events =
    arrives (of_kind push_request 1) calm
    ∷ arrives (of_kind exec_request 2) calm
    ∷ arrives (of_kind file_chunk 1) calm
    ∷ takes 0
    ∷ arrives (of_kind stream_cancel 2) calm
    ∷ unregisters 1
    ∷ finishes 1
    ∷ []

fresh_session-IsValid : IsValid (new_session fresh_mux)
fresh_session-IsValid = record { routes_ok = tt; cancels_ok = tt; inboxes_ok = tt }

session_run-IsValid_example :
    Holds IsValid (session_run no_window no_update no_text (new_session fresh_mux) events)
session_run-IsValid_example =
    session_run-IsValid no_window no_update no_text (new_session fresh_mux) events
      fresh_session-IsValid

session-IsOver_example :
    IsOver (tear_down (session_run no_window no_update no_text (new_session fresh_mux) events).1)
session-IsOver_example =
    session-IsOver no_window no_update no_text fresh_mux events
      (omega arith, (omega arith, (tt, (tt, tt))))

serve_frame-Revived_example :
    Revived (cancel_frame (new_session fresh_mux) 4) pty_output 4 (1 ∷ []) calm (
      serve_frame no_update no_text
        (cancel_frame (new_session fresh_mux) 4)
        (of_kind pty_input 4)
        calm)
unfolding new_mux
serve_frame-Revived_example =
    serve_frame-Revived no_update no_text (new_session fresh_mux) (of_kind pty_input 4) calm calm
      pty_output (1 ∷ []) refl refl refl
