-- ===== src/Host/Offends.antt =====
-- Which frames may end the reader task (apps/sidewire/src/transport.rs).
use side_wire_kernel_su.Base.{
  ℕ, ◌+◌, ◌<◌, ◌≡◌, ◌⊎◌, refl, true, false, not, ◌==◌, Bool-cases, Option, none, some, List, Result,
  ok, err, ◌^◌, leb, ltb, if_intro, branch_intro, length, arith, inl, inr,
}
use side_wire_kernel_su.Frame.Kind.{FrameKind, stream_window_update, stream_cancel}
use side_wire_kernel_su.Frame.Header.{Frame}
use side_wire_kernel_su.Host.Flow.{FlowError, max_flow_credit, add}
use side_wire_kernel_su.Host.Transport.{Transport, Channel, route_capacity, find_route}
use side_wire_kernel_su.Host.Reader.{
  Round, grant_to, grant_flow, grant_route, grant, cancel_route, deliver_to, deliver, dispatch_kind,
}

-- A grant is refused if it is empty, or too large.
refused :
    (available bytes : ℕ) (e : FlowError)
    → add available bytes ≡ err e
    → (bytes ≡ 0) ⊎ (max_flow_credit < available + bytes)
unfolding add
refused available bytes e h = elim (Bool-cases (bytes == 0)) [
  | inl zero_bytes ↦ inl (ground arith)
  | inr some_bytes ↦ elim (Bool-cases (leb (available + bytes) max_flow_credit)) [
    | inl fits ↦
        let small : leb (2 ^ 64) (available + bytes) ≡ false = ground arith in
        let below : ltb max_flow_credit (available + bytes) ≡ false = ground arith in
        let h' : ok (available + bytes) ≡ err e = rw (some_bytes, small, below) at h in cc
    | inr over ↦ inr (ground arith)
  ]
]

module _ (decode_window : List ℕ → Option ℕ) where
  -- Why the task may stop at a frame: it is a window update that was not negotiated, that cannot be
  -- read, or that grants nothing or more than a stream may have.
  abbrev pub Offends : FrameKind → Transport → Frame → Type 0
  Offends stream_window_update t f =
      (t.supports_flow_control ≡ false)
      ⊎ (decode_window f.payload ≡ none)
      ⊎ ((bytes : ℕ) × (available : ℕ) × (decode_window f.payload ≡ some bytes)
          × ((bytes ≡ 0) ⊎ (max_flow_credit < available + bytes)))
  Offends _ t f = ⊥

  -- The loop goes on, but after a frame that offends.
  abbrev pub GoesOn : FrameKind → Transport → Frame → Round → Type 0
  GoesOn kind t f (t', again) = (again ≡ true) ⊎ Offends kind t f

  grant_to-GoesOn :
      (t : Transport) (f : Frame) (h available bytes : ℕ) (c : Channel) (r : Result FlowError ℕ)
      → decode_window f.payload ≡ some bytes
      → add available bytes ≡ r
      → GoesOn stream_window_update t f (grant_to t h c r)
  grant_to-GoesOn t f h available bytes c (ok updated) read at = inl refl
  grant_to-GoesOn t f h available bytes c (err e) read at =
      inr (inr (inr (bytes, available, read, refused available bytes e at)))

  grant_flow-GoesOn :
      (t : Transport) (f : Frame) (h bytes : ℕ) (c : Channel) (o : Option ℕ)
      → decode_window f.payload ≡ some bytes
      → GoesOn stream_window_update t f (grant_flow t h c o bytes)
  grant_flow-GoesOn t f h bytes c none read = inl refl
  grant_flow-GoesOn t f h bytes c (some available) read =
      grant_to-GoesOn t f h available bytes c (add available bytes) read refl

  grant_route-GoesOn :
      (t : Transport) (f : Frame) (bytes : ℕ) (o : Option (ℕ × Channel))
      → decode_window f.payload ≡ some bytes
      → GoesOn stream_window_update t f (grant_route t o bytes)
  grant_route-GoesOn t f bytes none read = inl refl
  grant_route-GoesOn t f bytes (some (h, c)) read = grant_flow-GoesOn t f h bytes c c.flow read

  grant-GoesOn :
      (t : Transport) (f : Frame) (o : Option ℕ)
      → decode_window f.payload ≡ o
      → GoesOn stream_window_update t f (grant t f.stream_id o)
  grant-GoesOn t f none read = inr (inr (inl read))
  grant-GoesOn t f (some bytes) read = grant_route-GoesOn t f bytes (find_route t f.stream_id) read

  deliver_to-goes_on :
      (t : Transport) (f : Frame) (h : ℕ) (c : Channel) → (deliver_to t f h c).1 ≡ true
  deliver_to-goes_on t f h c =
      if_intro (λ (x : Round). x.1 ≡ true) (not c.receiver) refl
        (if_intro (λ (x : Round). x.1 ≡ true) (leb route_capacity (length c.queue)) refl refl)

  deliver-goes_on :
      (t : Transport) (f : Frame) (o : Option (ℕ × Channel)) → (deliver t f o).1 ≡ true
  deliver-goes_on t f none = refl
  deliver-goes_on t f (some (h, c)) = deliver_to-goes_on t f h c

  cancel_route-goes_on :
      (t : Transport) (f : Frame) (o : Option (ℕ × Channel)) → (cancel_route t f o).1 ≡ true
  cancel_route-goes_on t f none = refl
  cancel_route-goes_on t f (some (h, c)) = refl

  pub dispatch_kind-GoesOn :
      (kind : FrameKind) (t : Transport) (f : Frame)
      → GoesOn kind t f (dispatch_kind decode_window kind t f)
  dispatch_kind-GoesOn stream_window_update t f =
      branch_intro (GoesOn stream_window_update t f) (not t.supports_flow_control)
        (λ old. inr (inl (ground arith))) (λ _. grant-GoesOn t f (decode_window f.payload) refl)
  dispatch_kind-GoesOn stream_cancel t f = inl (cancel_route-goes_on t f (find_route t f.stream_id))
  dispatch_kind-GoesOn _ t f = inl (deliver-goes_on t f (find_route t f.stream_id))
