-- ===== src/Device/Mux/Silence.antt =====
-- A `MuxWriter` after the cancellation of a stream (apps/sidewired/src/transport.rs).
use side_wire_kernel_su.Base.{
  ℕ, zero, suc, ◌+◌, sym, append-nil, ◌≡◌, ◌≢◌, refl, true, not, ◌||◌, Bool, Option, none, some,
  List, [], ◌∷◌, Result, ok, err, leb, ◌==◌, ◌^◌, branch_intro, All, arith,
}
use side_wire_kernel_su.Base.Assoc.{lookup}
use side_wire_kernel_su.Frame.Header.{Frame}
use side_wire_kernel_su.Host.Flow.{FlowError, add}
use side_wire_kernel_su.Device.Mux.{
  keep_frame, pick_frame, admit_picked, admit_frame, give_up_picked, give_up_frame, Mux, MuxError,
  Acted, close_mux, replaced, register_flow_stream, add_to, add_found, add_flow_credit, contains,
  without, is_canceled, cancel_local, finish_stream, send_cancel, send_window_update,
}
use side_wire_kernel_su.Device.Mux.Trace.{
  MuxOp, register, credit, send, send_raw, window, cancel, report_error, cancel_here, finish, close,
  admit, give_up, mux_step, mux_run,
}
use side_wire_kernel_su.Device.Mux.Quiet.{
  frames_of, Quiet, Quiet-none, Quiet-trans, queue_frame-Quiet, running_ne, Unsent, Quiet-of_Unsent,
  Unsent-refl, mux_send-Quiet, mux_send_raw-Quiet, send_error-Quiet,
}

cancel_local-canceled :
    (id j : ℕ) (m : Mux) → is_canceled m id ≡ true → is_canceled (cancel_local m j) id ≡ true
unfolding cancel_local is_canceled
cancel_local-canceled id j m c =
    branch_intro (λ ids. contains id ids ≡ true) (contains j m.canceled_ids) (λ _. c)
      (λ _. ground arith)

cancel_local-Quiet : (id j : ℕ) (m : Mux) → is_canceled m id ≡ true → Quiet id m (cancel_local m j)
unfolding cancel_local
cancel_local-Quiet id j m c =
    Quiet-none id m (cancel_local m j) (cancel_local-canceled id j m c) refl refl

send_cancel-Quiet :
    (id j : ℕ) (m : Mux) (message : List ℕ) (answer : Result MuxError (Unit {0}))
    → is_canceled m id ≡ true
    → j ≢ id
    → Quiet id m (send_cancel m j message answer)
unfolding send_cancel
send_cancel-Quiet id j m message answer c ne =
    Quiet-trans id m (cancel_local m j) _ (cancel_local-Quiet id j m c)
      (queue_frame-Quiet id (cancel_local m j) _ answer (cancel_local-canceled id j m c) ne)

contains-without :
    (id j : ℕ) (ids : List ℕ) → j ≢ id → contains id ids ≡ true → contains id (without j ids) ≡ true
contains-without id j [] ne h = h
contains-without id j (i ∷ ids) ne h = ground (arith, contains-without id j ids ne)

finish_stream-Quiet :
    (id j : ℕ) (m : Mux) → is_canceled m id ≡ true → j ≢ id → Quiet id m (finish_stream m j)
unfolding finish_stream is_canceled
finish_stream-Quiet id j m c ne =
    Quiet-none id m _ (contains-without id j m.canceled_ids ne c) refl refl

replaced-Unsent : (o : Option ℕ) (j : ℕ) (m m' : Mux) → Unsent m m' → Unsent m (replaced o j m').1
replaced-Unsent none j m m' u = u
replaced-Unsent (some _) j m m' u = u

register-Unsent : (m : Mux) (j : ℕ) → Unsent m (register_flow_stream m j).1
unfolding register_flow_stream
register-Unsent m j =
    branch_intro (λ (x : Acted (Unit {0})). Unsent m x.1) (not m.supports_flow_control)
      (λ _. Unsent-refl m)
      (λ _.
        replaced-Unsent (lookup j m.flow_credits) j m _
          (record { same_ids = refl; same_wire = refl; same_waiting = refl }))

add_to-Unsent : (m : Mux) (j : ℕ) (r : Result FlowError ℕ) → Unsent m (add_to m j r).1
add_to-Unsent m j (err e) = Unsent-refl m
add_to-Unsent m j (ok updated) = record { same_ids = refl; same_wire = refl; same_waiting = refl }

add_found-Unsent : (m : Mux) (j bytes : ℕ) (o : Option ℕ) → Unsent m (add_found m j bytes o).1
add_found-Unsent m j bytes none = Unsent-refl m
add_found-Unsent m j bytes (some available) = add_to-Unsent m j (add available bytes)

add_flow_credit-Unsent : (m : Mux) (j bytes : ℕ) → Unsent m (add_flow_credit m j bytes).1
unfolding add_flow_credit
add_flow_credit-Unsent m j bytes =
    branch_intro (λ (x : Acted Bool). Unsent m x.1) (not m.supports_flow_control)
      (λ _. Unsent-refl m) (λ _. add_found-Unsent m j bytes (lookup j m.flow_credits))

-- A frame is picked out of those that wait.
abbrev Picked : ℕ → List Frame → Option (Frame × List Frame) → Type 0
Picked id fs none = Unit
Picked id fs (some (f, rest)) = frames_of id (f ∷ []) + frames_of id rest ≡ frames_of id fs

Picked-keep_frame :
    (id : ℕ) (f : Frame) (fs : List Frame) (o : Option (Frame × List Frame))
    → Picked id fs o
    → Picked id (f ∷ fs) (keep_frame f o)
Picked-keep_frame id f fs none h = tt
Picked-keep_frame id f fs (some (g, rest)) h = omega (arith, h)

pick_frame-Picked : (id index : ℕ) (fs : List Frame) → Picked id fs (pick_frame index fs)
pick_frame-Picked id index [] = tt
pick_frame-Picked id zero (f ∷ more) = omega arith
pick_frame-Picked id (suc index) (f ∷ more) =
    Picked-keep_frame id f more (pick_frame index more) (pick_frame-Picked id index more)

admit_picked-Quiet :
    (id : ℕ) (m : Mux) (o : Option (Frame × List Frame))
    → is_canceled m id ≡ true
    → Picked id m.waiting o
    → Quiet id m (admit_picked m o)
unfolding is_canceled
admit_picked-Quiet id m none c h = Quiet-none id m m c refl refl
admit_picked-Quiet id m (some (f, rest)) c h = record {
  still = c;
  out = f ∷ [];
  wire_eq = refl;
  passed = omega (arith, h);
}

give_up_picked-Quiet :
    (id : ℕ) (m : Mux) (o : Option (Frame × List Frame))
    → is_canceled m id ≡ true
    → Picked id m.waiting o
    → Quiet id m (give_up_picked m o)
unfolding is_canceled
give_up_picked-Quiet id m none c h = Quiet-none id m m c refl refl
give_up_picked-Quiet id m (some (f, rest)) c h = record {
  still = c;
  out = [];
  wire_eq = sym (append-nil m.wire);
  passed = omega (arith, h);
}

admit_frame-Quiet :
    (id : ℕ) (m : Mux) (index : ℕ) → is_canceled m id ≡ true → Quiet id m (admit_frame m index)
unfolding admit_frame
admit_frame-Quiet id m index c =
    admit_picked-Quiet id m (pick_frame index m.waiting) c (pick_frame-Picked id index m.waiting)

give_up_frame-Quiet :
    (id : ℕ) (m : Mux) (index : ℕ) → is_canceled m id ≡ true → Quiet id m (give_up_frame m index)
unfolding give_up_frame
give_up_frame-Quiet id m index c =
    give_up_picked-Quiet id m (pick_frame index m.waiting) c (pick_frame-Picked id index m.waiting)

-- The calls that leave the stream `id` as it is: it is not finished and not canceled again.
abbrev pub Leaves : ℕ → MuxOp → Type 0
Leaves id (finish j) = j ≢ id
Leaves id (cancel j message answer) = j ≢ id
Leaves id _ = Unit

module _ (encode_window : ℕ → List ℕ) where
  window-Quiet :
      (id : ℕ) (m : Mux) (j bytes : ℕ) (answer : Result MuxError (Unit {0}))
      → is_canceled m id ≡ true
      → Quiet id m (send_window_update encode_window m j bytes answer).1
  unfolding send_window_update
  window-Quiet id m j bytes answer c =
      let quiet : Quiet id m m = Quiet-none id m m c refl refl in
      branch_intro (λ (x : Acted (Unit {0})). Quiet id m x.1)
        (not m.supports_flow_control || bytes == 0) (λ _. quiet)
        (λ _.
          branch_intro (λ (x : Acted (Unit {0})). Quiet id m x.1) (is_canceled m j) (λ _. quiet)
            (λ running.
              branch_intro (λ (x : Acted (Unit {0})). Quiet id m x.1) (leb (2 ^ 32) bytes)
                (λ _. quiet)
                (λ _. queue_frame-Quiet id m _ answer c (running_ne id j m c running))))

  mux_step-Quiet :
      (id : ℕ) (m : Mux) (op : MuxOp)
      → is_canceled m id ≡ true
      → Leaves id op
      → Quiet id m (mux_step encode_window m op)
  unfolding mux_step close_mux is_canceled
  mux_step-Quiet id m (register j) c l = Quiet-of_Unsent id m _ c (register-Unsent m j)
  mux_step-Quiet id m (credit j bytes) c l =
      Quiet-of_Unsent id m _ c (add_flow_credit-Unsent m j bytes)
  mux_step-Quiet id m (send f w) c l = mux_send-Quiet id m f w c
  mux_step-Quiet id m (send_raw kind j payload w) c l = mux_send_raw-Quiet id m kind j payload w c
  mux_step-Quiet id m (window j bytes answer) c l = window-Quiet id m j bytes answer c
  mux_step-Quiet id m (cancel j message answer) c l = send_cancel-Quiet id j m message answer c l
  mux_step-Quiet id m (report_error j message w) c l = send_error-Quiet id m j message w c
  mux_step-Quiet id m (cancel_here j) c l = cancel_local-Quiet id j m c
  mux_step-Quiet id m (finish j) c l = finish_stream-Quiet id j m c l
  mux_step-Quiet id m close c l = Quiet-none id m _ c refl refl
  mux_step-Quiet id m (admit index) c l = admit_frame-Quiet id m index c
  mux_step-Quiet id m (give_up index) c l = give_up_frame-Quiet id m index c

  -- From the cancellation of a stream until it is finished or canceled again, whatever the tasks of
  -- the daemon call, in any order: the stream stays canceled, and no new frame of it goes out. At
  -- most those frames of it do that a send had passed its tests with at the cancellation, and that
  -- waited for room in the queue of the writer; if none waited, none goes out.
  pub mux_run-Quiet :
      (id : ℕ) (m : Mux) (ops : List MuxOp)
      → is_canceled m id ≡ true
      → All (Leaves id) ops
      → Quiet id m (mux_run encode_window m ops)
  unfolding mux_run
  mux_run-Quiet id m [] c l = Quiet-none id m m c refl refl
  mux_run-Quiet id m (op ∷ ops) c (l, ls) =
      let q : Quiet id m (mux_step encode_window m op) = mux_step-Quiet id m op c l in
      Quiet-trans id m _ _ q (mux_run-Quiet id (mux_step encode_window m op) ops q.still ls)
