-- ===== src/Device/Mux/Trace.antt =====
-- Sequences of calls of a `MuxWriter`, from any of the tasks that share it. A send that waits for
-- credit is a call for each of its polls, and a frame that waits for room in the queue of the writer
-- is admitted or given up by a step of its own.
use side_wire_kernel_su.Base.{ℕ, List, [], ◌∷◌, Result}
use side_wire_kernel_su.Frame.Kind.{FrameKind}
use side_wire_kernel_su.Frame.Header.{Frame}
use side_wire_kernel_su.Device.Mux.{
  Mux, MuxError, Meanwhile, close_mux, admit_frame, give_up_frame, register_flow_stream,
  add_flow_credit, cancel_local, finish_stream, state_after, mux_send, mux_send_raw, send_cancel,
  send_error, send_window_update,
}

pub data MuxOp : Type 0 where
  register : ℕ → MuxOp
  credit : ℕ → ℕ → MuxOp
  send : Frame → Meanwhile → MuxOp
  send_raw : FrameKind → ℕ → List ℕ → Meanwhile → MuxOp
  window : ℕ → ℕ → Result MuxError (Unit {0}) → MuxOp
  cancel : ℕ → List ℕ → Result MuxError (Unit {0}) → MuxOp
  report_error : ℕ → List ℕ → Meanwhile → MuxOp
  cancel_here : ℕ → MuxOp
  finish : ℕ → MuxOp
  close : MuxOp
  admit give_up : ℕ → MuxOp

module _ (encode_window : ℕ → List ℕ) where
  unfoldable pub mux_step : Mux → MuxOp → Mux
  mux_step m (register id) = (register_flow_stream m id).1
  mux_step m (credit id bytes) = (add_flow_credit m id bytes).1
  mux_step m (send f w) = state_after m (mux_send m f w)
  mux_step m (send_raw kind id payload w) = state_after m (mux_send_raw m kind id payload w)
  mux_step m (window id bytes answer) = (send_window_update encode_window m id bytes answer).1
  mux_step m (cancel id message answer) = send_cancel m id message answer
  mux_step m (report_error id message w) = send_error m id message w
  mux_step m (cancel_here id) = cancel_local m id
  mux_step m (finish id) = finish_stream m id
  mux_step m close = close_mux m
  mux_step m (admit index) = admit_frame m index
  mux_step m (give_up index) = give_up_frame m index

  unfoldable pub mux_run : Mux → List MuxOp → Mux
  mux_run m [] = m
  mux_run m (op ∷ ops) = mux_run (mux_step m op) ops
