-- ===== src/Device/Session/Late.antt =====
-- A frame of a stream that was canceled, which `serve` (apps/sidewired/src/main.rs) no longer
-- routes: the last arm of its `match`.
use side_wire_kernel_su.Base.{
  ℕ, ◌≡◌, refl, ap, ◌∙◌, Bool, true, false, not, Option, none, some, List, [], ◌∷◌, ◌++◌, ok, ready,
  if◌then◌else◌, ==_refl, length, arith,
}
use side_wire_kernel_su.Base.Assoc.{lookup, remove, get_elem?, lookup-remove}
use side_wire_kernel_su.Frame.Kind.{
  FrameKind, file_chunk, ping, push_request, pull_request, pty_open, exec_request, clipboard_get,
  clipboard_set, clipboard_clear, proxy_start_request, stream_cancel, stream_window_update,
}
use side_wire_kernel_su.Frame.Header.{Frame}
use side_wire_kernel_su.Device.Mux.{
  keep_frame, pick_frame, admit_frame, Mux, Meanwhile, contains, without, is_canceled, cancel_local,
  finish_stream, Acted, if_running, queue_frame, queue_now, report, state_after, mux_send,
  mux_send_raw, send_error,
}
use side_wire_kernel_su.Device.Session.{
  Session, Task, Turn, tell, tell_at, cancel_frame, request_arm, finished, serve_kind, serve_frame,
}
use side_wire_kernel_su.Device.Session.Steps.{is_request}

-- The kinds of the last arm.
abbrev pub is_stray : FrameKind → Bool
is_stray ping = false
is_stray stream_cancel = false
is_stray stream_window_update = false
is_stray kind = not (is_request kind)

abbrev pub is_chunk : FrameKind → Bool
is_chunk file_chunk = true
is_chunk _ = false

contains-without_self : (id : ℕ) (ids : List ℕ) → contains id (without id ids) ≡ false
contains-without_self id [] = refl
contains-without_self id (j ∷ ids) = ground (arith, contains-without_self id ids)

contains_self :
    (id : ℕ) (ids : List ℕ) → contains id (if contains id ids then ids else id ∷ ids) ≡ true
contains_self id ids = ground arith

tell-same :
    (s : Session) (h : ℕ) (o : Option Task)
    → ((tell s h o).routes ≡ s.routes) × ((tell s h o).mux ≡ s.mux)
tell-same s h none = (refl, refl)
tell-same s h (some t) = (refl, refl)

tell_at-same :
    (s : Session) (o : Option ℕ) → ((tell_at s o).routes ≡ s.routes) × ((tell_at s o).mux ≡ s.mux)
tell_at-same s none = (refl, refl)
tell_at-same s (some h) = tell-same s h (get_elem? s.tasks h)

cancel_frame-same :
    (s : Session) (id : ℕ)
    → ((cancel_frame s id).routes ≡ remove id s.routes)
      × ((cancel_frame s id).mux ≡ cancel_local s.mux id)
unfolding cancel_frame
cancel_frame-same s id = tell_at-same _ (lookup id s.cancels)

cancel_frame-canceled : (s : Session) (id : ℕ) → is_canceled (cancel_frame s id).mux id ≡ true
unfolding is_canceled cancel_local
cancel_frame-canceled s id = rw ((cancel_frame-same s id).1) (contains_self id s.mux.canceled_ids)

module _ (decode_window : List ℕ → Option ℕ) (unsupported : FrameKind → List ℕ) where
  finish_arm :
      (s : Session) (f : Frame) (w : Meanwhile) (message : List ℕ)
      → is_canceled s.mux f.stream_id ≡ true
      → finished f.stream_id (record s { mux = send_error s.mux f.stream_id message w })
        ≡ (ok tt, record s { mux = finish_stream s.mux f.stream_id })
  unfolding send_error
  finish_arm s f w message canceled = rw canceled refl

  stray_arm :
      (kind : FrameKind) (s : Session) (f : Frame) (w : Meanwhile)
      → is_stray kind ≡ true
      → is_canceled s.mux f.stream_id ≡ true
      → request_arm decode_window unsupported kind s f w
        ≡ (ok tt, record s { mux = finish_stream s.mux f.stream_id })
  unfolding request_arm
  stray_arm push_request s f w stray canceled = cc
  stray_arm pull_request s f w stray canceled = cc
  stray_arm pty_open s f w stray canceled = cc
  stray_arm exec_request s f w stray canceled = cc
  stray_arm clipboard_get s f w stray canceled = cc
  stray_arm clipboard_set s f w stray canceled = cc
  stray_arm clipboard_clear s f w stray canceled = cc
  stray_arm proxy_start_request s f w stray canceled = cc
  stray_arm ping s f w stray canceled = cc
  stray_arm kind s f w stray canceled = finish_arm s f w (unsupported kind) canceled

  unrouted_kind :
      (kind : FrameKind) (s : Session) (f : Frame) (w : Meanwhile)
      → is_stray kind ≡ true
      → lookup f.stream_id s.routes ≡ none
      → serve_kind decode_window unsupported kind s f w
        ≡ request_arm decode_window unsupported f.kind s f w
  unfolding serve_kind
  unrouted_kind stream_window_update s f w stray unrouted = cc
  unrouted_kind stream_cancel s f w stray unrouted = cc
  unrouted_kind _ s f w stray unrouted = rw unrouted refl

  -- What the daemon does with a late frame of a stream that was canceled.
  late_frame_lem :
      (s : Session) (f : Frame) (w : Meanwhile)
      → is_stray f.kind ≡ true
      → (let s' = cancel_frame s f.stream_id in
          serve_frame decode_window unsupported s' f w
          ≡ (ok tt, record s' { mux = finish_stream s'.mux f.stream_id }))
  unfolding serve_frame
  late_frame_lem s f w stray =
      let s' : Session = cancel_frame s f.stream_id in
      let gone : lookup f.stream_id s'.routes ≡ none =
        ap (lookup f.stream_id) (cancel_frame-same s f.stream_id).0
        ∙ lookup-remove f.stream_id f.stream_id s.routes
        ∙ rw (==_refl f.stream_id) refl in
      unrouted_kind f.kind s' f w stray gone
      ∙ stray_arm f.kind s' f w stray (cancel_frame-canceled s f.stream_id)

report-state : (id : ℕ) (b : Bool) (x : Acted (Unit {0})) → (report id b x).1 ≡ x.1
report-state id true x = refl
report-state id false x = refl

pick_frame-last :
    (f : Frame) (fs : List Frame) → pick_frame (length fs) (fs ++ (f ∷ [])) ≡ some (f, fs)
pick_frame-last f [] = refl
pick_frame-last f (g ∷ fs) = ap (keep_frame g) (pick_frame-last f fs)

queued_again :
    (m : Mux) (f : Frame) (w : Meanwhile)
    → is_canceled m f.stream_id ≡ false
    → m.failed ≡ false
    → (admit_frame
        (state_after m (if_running m f.stream_id (ready (queue_now m f w))))
        (length m.waiting)).wire
      ≡ m.wire ++ (f ∷ [])
unfolding queue_frame admit_frame
queued_again m f w running open_ =
    rw
      (
        running,
        report-state f.stream_id w.cancels (queue_frame m f w.answer),
        open_,
        pick_frame-last f m.waiting,
      )
      refl

sent_again :
    (kind : FrameKind) (m : Mux) (id : ℕ) (payload : List ℕ) (w : Meanwhile)
    → is_chunk kind ≡ false
    → is_canceled m id ≡ false
    → m.failed ≡ false
    → (admit_frame (state_after m (mux_send_raw m kind id payload w)) (length m.waiting)).wire
      ≡ m.wire ++ (record { kind = kind; stream_id = id; payload = payload } ∷ [])
unfolding mux_send_raw mux_send
sent_again file_chunk m id payload w small running open_ = cc
sent_again kind m id payload w small running open_ =
    queued_again m (record { kind = kind; stream_id = id; payload = payload }) w running open_

cancel_local-failed : (m : Mux) (id : ℕ) → (cancel_local m id).failed ≡ m.failed
unfolding cancel_local
cancel_local-failed m id = refl

finish_stream-running : (m : Mux) (id : ℕ) → is_canceled (finish_stream m id) id ≡ false
unfolding finish_stream is_canceled
finish_stream-running m id = contains-without_self id m.canceled_ids

finish_open : (m : Mux) (id : ℕ) → m.failed ≡ false → (finish_stream m id).failed ≡ false
unfolding finish_stream
finish_open m id h = h

-- The loop goes on, no task has changed since the cancellation, and what a task of the stream
-- sends then goes out once the queue of the writer has room for it.
abbrev pub Revived : Session → FrameKind → ℕ → List ℕ → Meanwhile → Turn → Type 0
Revived s kind id payload w (r, s') =
    (r ≡ ok tt)
    × (s'.tasks ≡ s.tasks)
    × ((admit_frame (state_after s'.mux (mux_send_raw s'.mux kind id payload w))
          (length s'.mux.waiting)).wire
        ≡ s'.mux.wire ++ (record { kind = kind; stream_id = id; payload = payload } ∷ []))

Revived-finished :
    (s : Session) (kind : FrameKind) (id : ℕ) (payload : List ℕ) (w : Meanwhile)
    → is_chunk kind ≡ false
    → s.mux.failed ≡ false
    → Revived s kind id payload w (ok tt, record s { mux = finish_stream s.mux id })
Revived-finished s kind id payload w small open_ = (
  refl,
  refl,
  sent_again kind (finish_stream s.mux id) id payload w small (finish_stream-running s.mux id)
      (finish_open s.mux id open_),
)

-- A cancellation does not hold: after a `StreamCancel` frame of any stream and while the writer
-- runs, one more frame of the stream that is neither a request, a ping, a window update nor a
-- cancellation (input that was under way) leaves the tasks as they were and lets them send again:
-- what they send for the stream, file chunks apart, goes out once the queue of the writer has room.
pub serve_frame-Revived :
    (decode_window : List ℕ → Option ℕ) (unsupported : FrameKind → List ℕ) (s : Session)
    (late : Frame) (w w' : Meanwhile) (kind : FrameKind) (payload : List ℕ)
    → is_stray late.kind ≡ true
    → is_chunk kind ≡ false
    → s.mux.failed ≡ false
    → Revived
        (cancel_frame s late.stream_id)
        kind
        late.stream_id
        payload
        w'
        (serve_frame decode_window unsupported (cancel_frame s late.stream_id) late w)
serve_frame-Revived decode_window unsupported s late w w' kind payload stray small open_ =
    rw (late_frame_lem decode_window unsupported s late w stray) (
      Revived-finished (cancel_frame s late.stream_id) kind late.stream_id payload w' small (
        ap (λ m. m.failed) (cancel_frame-same s late.stream_id).1
        ∙ cancel_local-failed s.mux late.stream_id
        ∙ open_))
