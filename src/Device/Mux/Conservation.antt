-- ===== src/Device/Mux/Conservation.antt =====
-- File chunks and grants of a `MuxWriter` over a history (apps/sidewired/src/transport.rs).
use side_wire_kernel_su.Base.{
  ℕ, zero, suc, ◌+◌, ◌^◌, ◌≤◌, ◌≡◌, refl, ◌∙◌, true, false, not, ◌||◌, Bool, Option, none, some,
  List, [], ◌∷◌, Result, ok, err, leb, ◌==◌, branch_intro, length, arith,
}
use side_wire_kernel_su.Base.Assoc.{lookup}
use side_wire_kernel_su.Frame.Header.{Frame}
use side_wire_kernel_su.Host.Flow.{FlowError, new_credit, add}
use side_wire_kernel_su.Device.Mux.{
  keep_frame, pick_frame, admit_picked, admit_frame, give_up_picked, give_up_frame, Mux, MuxError,
  Acted, new_mux, queue_frame, close_mux, replaced, register_flow_stream, add_to, add_found,
  add_flow_credit, is_canceled, cancel_local, finish_stream, cancel_kind, send_cancel,
  send_window_update,
}
use side_wire_kernel_su.Device.Mux.Trace.{
  MuxOp, register, credit, send, send_raw, window, cancel, report_error, cancel_here, finish, close,
  admit, give_up, mux_step, mux_run,
}
use side_wire_kernel_su.Device.Mux.Credit.{
  chunk_size, frame_bytes, file_bytes, grants, total_grants, Charged, Charged-none, Charged-trans,
  queue_frame-Charged, file_bytes-append,
}
use side_wire_kernel_su.Device.Mux.Payment.{
  price, amount-insert, amount-remove, lookup_same, mux_send-Charged, mux_send_raw-Charged,
  send_error-Charged,
}

-- A frame that is no file chunk is free.
queue_free :
    (id : ℕ) (m : Mux) (f : Frame) (answer : Result MuxError (Unit {0}))
    → chunk_size f.kind (length f.payload) ≡ 0
    → Charged id 0 m (queue_frame m f answer).1
queue_free id m f answer none_due =
    let c : Charged id (frame_bytes id f) m (queue_frame m f answer).1 =
      queue_frame-Charged id m f answer in
    record { bound = ground (arith, c.bound); mode = c.mode }

cancel_kind_free : (b : Bool) (n : ℕ) → chunk_size (cancel_kind b) n ≡ 0
cancel_kind_free true n = refl
cancel_kind_free false n = refl

send_cancel-Charged :
    (id j : ℕ) (m : Mux) (message : List ℕ) (answer : Result MuxError (Unit {0}))
    → Charged id 0 m (send_cancel m j message answer)
unfolding send_cancel cancel_local
send_cancel-Charged id j m message answer =
    let c =
      queue_free id (cancel_local m j)
        (record { kind = cancel_kind m.supports_stream_cancel; stream_id = j; payload = message })
        answer (cancel_kind_free m.supports_stream_cancel (length message)) in
    record { bound = c.bound; mode = c.mode }

finish_stream-Charged : (id j : ℕ) (m : Mux) → Charged id 0 m (finish_stream m j)
unfolding finish_stream
finish_stream-Charged id j m = record {
  bound = omega (arith, amount-remove id j m.flow_credits);
  mode = refl;
}

replaced-Charged :
    (id : ℕ) (o : Option ℕ) (j : ℕ) (m m' : Mux)
    → Charged id 0 m m'
    → Charged id 0 m (replaced o j m').1
replaced-Charged id none j m m' c = c
replaced-Charged id (some _) j m m' c = c

register-Charged : (id j : ℕ) (m : Mux) → Charged id 0 m (register_flow_stream m j).1
unfolding register_flow_stream new_credit
register-Charged id j m =
    branch_intro (λ (x : Acted (Unit {0})). Charged id 0 m x.1) (not m.supports_flow_control)
      (λ _. Charged-none id 0 m)
      (λ _.
        replaced-Charged id (lookup j m.flow_credits) j m _
          (record { bound = ground (arith, amount-insert id j 0 m.flow_credits); mode = refl }))

-- A grant that is accepted is worth its bytes; one that is refused is worth nothing.
add_to-Charged :
    (id j bytes available : ℕ) (m : Mux) (r : Result FlowError ℕ)
    → lookup j m.flow_credits ≡ some available
    → add available bytes ≡ r
    → Charged id (price id j bytes) m (add_to m j r).1
unfolding add
add_to-Charged id j bytes available m (err e) at sum = Charged-none id (price id j bytes) m
add_to-Charged id j bytes available m (ok updated) at sum =
    let total : updated ≡ available + bytes = ground arith in
    record {
      bound = ground (
        arith,
        amount-insert id j updated m.flow_credits,
        lookup_same id j m.flow_credits (some available) at,
      );
      mode = refl;
    }

add_found-Charged :
    (id j bytes : ℕ) (m : Mux) (o : Option ℕ)
    → lookup j m.flow_credits ≡ o
    → Charged id (price id j bytes) m (add_found m j bytes o).1
add_found-Charged id j bytes m none at = Charged-none id (price id j bytes) m
add_found-Charged id j bytes m (some available) at =
    add_to-Charged id j bytes available m (add available bytes) at refl

add_flow_credit-Charged :
    (id j bytes : ℕ) (m : Mux) → Charged id (price id j bytes) m (add_flow_credit m j bytes).1
unfolding add_flow_credit
add_flow_credit-Charged id j bytes m =
    branch_intro (λ (x : Acted Bool). Charged id (price id j bytes) m x.1)
      (not m.supports_flow_control) (λ _. Charged-none id (price id j bytes) m)
      (λ _. add_found-Charged id j bytes m (lookup j m.flow_credits) refl)

-- A frame is picked out of those that wait.
abbrev Weighed : ℕ → List Frame → Option (Frame × List Frame) → Type 0
Weighed id fs none = Unit
Weighed id fs (some (f, rest)) = frame_bytes id f + file_bytes id rest ≡ file_bytes id fs

Weighed-keep_frame :
    (id : ℕ) (f : Frame) (fs : List Frame) (o : Option (Frame × List Frame))
    → Weighed id fs o
    → Weighed id (f ∷ fs) (keep_frame f o)
Weighed-keep_frame id f fs none h = tt
Weighed-keep_frame id f fs (some (g, rest)) h = omega (arith, h)

pick_frame-Weighed : (id index : ℕ) (fs : List Frame) → Weighed id fs (pick_frame index fs)
pick_frame-Weighed id index [] = tt
pick_frame-Weighed id zero (f ∷ more) = refl
pick_frame-Weighed id (suc index) (f ∷ more) =
    Weighed-keep_frame id f more (pick_frame index more) (pick_frame-Weighed id index more)

admit_picked-Charged :
    (id : ℕ) (m : Mux) (o : Option (Frame × List Frame))
    → Weighed id m.waiting o
    → Charged id 0 m (admit_picked m o)
admit_picked-Charged id m none h = Charged-none id 0 m
admit_picked-Charged id m (some (f, rest)) h = record {
  bound = omega (arith, h, file_bytes-append id m.wire (f ∷ []));
  mode = refl;
}

give_up_picked-Charged :
    (id : ℕ) (m : Mux) (o : Option (Frame × List Frame))
    → Weighed id m.waiting o
    → Charged id 0 m (give_up_picked m o)
give_up_picked-Charged id m none h = Charged-none id 0 m
give_up_picked-Charged id m (some (f, rest)) h = record { bound = omega (arith, h); mode = refl }

module _ (encode_window : ℕ → List ℕ) where
  window-Charged :
      (id : ℕ) (m : Mux) (j bytes : ℕ) (answer : Result MuxError (Unit {0}))
      → Charged id 0 m (send_window_update encode_window m j bytes answer).1
  unfolding send_window_update
  window-Charged id m j bytes answer =
      let free : Charged id 0 m m = Charged-none id 0 m in
      branch_intro (λ (x : Acted (Unit {0})). Charged id 0 m x.1)
        (not m.supports_flow_control || bytes == 0) (λ _. free)
        (λ _.
          branch_intro (λ (x : Acted (Unit {0})). Charged id 0 m x.1) (is_canceled m j) (λ _. free)
            (λ _.
              branch_intro (λ (x : Acted (Unit {0})). Charged id 0 m x.1) (leb (2 ^ 32) bytes)
                (λ _. free) (λ _. queue_free id m _ answer refl)))

  mux_step-Charged :
      (id : ℕ) (m : Mux) (op : MuxOp)
      → m.supports_flow_control ≡ true
      → Charged id (grants id op) m (mux_step encode_window m op)
  unfolding mux_step close_mux cancel_local admit_frame give_up_frame
  mux_step-Charged id m (register j) on = register-Charged id j m
  mux_step-Charged id m (credit j bytes) on = add_flow_credit-Charged id j bytes m
  mux_step-Charged id m (send f w) on = mux_send-Charged id m f w on
  mux_step-Charged id m (send_raw kind j payload w) on =
      mux_send_raw-Charged id m kind j payload w on
  mux_step-Charged id m (window j bytes answer) on = window-Charged id m j bytes answer
  mux_step-Charged id m (cancel j message answer) on = send_cancel-Charged id j m message answer
  mux_step-Charged id m (report_error j message w) on = send_error-Charged id m j message w on
  mux_step-Charged id m (cancel_here j) on = record { bound = omega arith; mode = refl }
  mux_step-Charged id m (finish j) on = finish_stream-Charged id j m
  mux_step-Charged id m close on = record { bound = omega arith; mode = refl }
  mux_step-Charged id m (admit index) on =
      admit_picked-Charged id m (pick_frame index m.waiting) (pick_frame-Weighed id index m.waiting)
  mux_step-Charged id m (give_up index) on =
      give_up_picked-Charged id m (pick_frame index m.waiting)
        (pick_frame-Weighed id index m.waiting)

  mux_run-Charged :
      (id : ℕ) (m : Mux) (ops : List MuxOp)
      → m.supports_flow_control ≡ true
      → Charged id (total_grants id ops) m (mux_run encode_window m ops)
  unfolding mux_run
  mux_run-Charged id m [] on = Charged-none id 0 m
  mux_run-Charged id m (op ∷ ops) on =
      let m' : Mux = mux_step encode_window m op in
      let c : Charged id (grants id op) m m' = mux_step-Charged id m op on in
      Charged-trans id (grants id op) (total_grants id ops) m m' _ c
        (mux_run-Charged id m' ops (c.mode ∙ on))

  -- Where flow control was negotiated, and whatever the tasks of the daemon call, in any order:
  -- the bytes of file chunks that were sent on a stream are no more than its peer has granted it.
  pub file_bytes-mux_run :
      (id : ℕ) (cancel_known : Bool) (ops : List MuxOp)
      → file_bytes id (mux_run encode_window (new_mux cancel_known true) ops).wire
        ≤ total_grants id ops
  unfolding new_mux
  file_bytes-mux_run id cancel_known ops =
      let c = mux_run-Charged id (new_mux cancel_known true) ops refl in omega (arith, c.bound)
