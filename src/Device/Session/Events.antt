-- ===== src/Device/Session/Events.antt =====
-- What happens on a connection of apps/sidewired/src/main.rs, one event at a time: frames of the
-- host, and the steps of the spawned tasks, in any order. The steps by which the queue of the writer
-- takes a frame (Mux/Trace) change nothing that is read here, and are left out.
use side_wire_kernel_su.Base.{ℕ, Bool, true, false, Option, none, some, List, [], ◌∷◌, Result, ok}
use side_wire_kernel_su.Base.Assoc.{remove, get_elem?}
use side_wire_kernel_su.Frame.Kind.{FrameKind}
use side_wire_kernel_su.Frame.Header.{Frame}
use side_wire_kernel_su.Device.Mux.{
  MuxError, Meanwhile, state_after, mux_send_raw, send_window_update, send_error, finish_stream,
  send_cancel,
}
use side_wire_kernel_su.Device.Session.{
  Session, Task, Phase, working, leaving, ended, Turn, set_task, has_inbox, has_cancel, serve_frame,
  ◌and_next◌,
}

-- The tasks are named by their position. `unregisters`, `reports` and `finishes` are the end of a
-- spawned task, `overflows` the task that is spawned when an inbox is full.
pub data Event : Type 0 where
  arrives : Frame → Meanwhile → Event
  takes : ℕ → Event
  sends : ℕ → FrameKind → List ℕ → Meanwhile → Event
  grants : ℕ → ℕ → Result MuxError (Unit {0}) → Event
  unregisters : ℕ → Event
  reports : ℕ → List ℕ → Meanwhile → Event
  finishes : ℕ → Event
  overflows : List ℕ → Result MuxError (Unit {0}) → Event

-- `inbox.recv()`
abbrev pub rest_of : List Frame → List Frame
rest_of [] = []
rest_of (f ∷ fs) = fs

-- `unregister_stream` and `unregister_cancel`, for the tasks that call them.
abbrev pub removed_if : {V : Type 0} → Bool → ℕ → List (ℕ × V) → List (ℕ × V)
removed_if true id m = remove id m
removed_if false id m = m

unfoldable pub unregister : Session → ℕ → Task → Session
unregister s h t =
    set_task
      (record s {
        routes = removed_if (has_inbox t.request) t.id s.routes;
        cancels = removed_if (has_cancel t.request) t.id s.cancels;
      })
      h (record t { phase = leaving })

unfoldable pub run_overflows : Session → List ℕ → List ℕ → Result MuxError (Unit {0}) → Session
run_overflows s [] message answer = s
run_overflows s (id ∷ ids) message answer = record s {
  mux = send_cancel s.mux id message answer;
  overflows = ids;
}

module _ (encode_window : ℕ → List ℕ) where
  -- A step of a task in its phase.
  unfoldable pub task_step : Event → Phase → Session → ℕ → Task → Session
  unfolding unregister
  task_step (takes _) working s h t = set_task s h (record t { inbox = rest_of t.inbox })
  task_step (sends _ kind payload w) working s h t = record s {
    mux = state_after s.mux (mux_send_raw s.mux kind t.id payload w);
  }
  task_step (grants _ bytes answer) working s h t = record s {
    mux = (send_window_update encode_window s.mux t.id bytes answer).1;
  }
  task_step (unregisters _) working s h t = unregister s h t
  task_step (reports _ message w) leaving s h t = record s { mux = send_error s.mux t.id message w }
  task_step (finishes _) leaving s h t =
      set_task (record s { mux = finish_stream s.mux t.id }) h (record t { phase = ended })
  task_step _ _ s h t = s

  abbrev pub task_at : Event → Session → ℕ → Option Task → Session
  task_at e s h none = s
  task_at e s h (some t) = task_step e t.phase s h t

  abbrev pub by_task : Event → Session → ℕ → Turn
  by_task e s h = (ok tt, task_at e s h (get_elem? s.tasks h))

  module _ (decode_window : List ℕ → Option ℕ) (unsupported : FrameKind → List ℕ) where
    unfoldable pub session_step : Session → Event → Turn
    session_step s (arrives f w) = serve_frame decode_window unsupported s f w
    session_step s (overflows message answer) = (ok tt, run_overflows s s.overflows message answer)
    session_step s (takes h) = by_task (takes h) s h
    session_step s (sends h kind payload w) = by_task (sends h kind payload w) s h
    session_step s (grants h bytes answer) = by_task (grants h bytes answer) s h
    session_step s (unregisters h) = by_task (unregisters h) s h
    session_step s (reports h message w) = by_task (reports h message w) s h
    session_step s (finishes h) = by_task (finishes h) s h

    -- The connection until an error ends the loop.
    unfoldable pub session_run : Session → List Event → Turn
    session_run s [] = (ok tt, s)
    session_run s (e ∷ es) = session_step s e and_next (λ s'. session_run s' es)
