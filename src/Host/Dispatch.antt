-- ===== src/Host/Dispatch.antt =====
-- What one frame from the peer does to the streams of a connection.
use side_wire_kernel_su.Base.{
  ℕ, ◌≡◌, ◌≢◌, refl, true, not, Bool-cases, Option, none, some, List, [], ◌∷◌, if_intro, inl, inr,
}
use side_wire_kernel_su.Base.Assoc.{lookup, get_elem?}
use side_wire_kernel_su.Frame.Kind.{FrameKind, stream_window_update, stream_cancel}
use side_wire_kernel_su.Frame.Header.{Frame}
use side_wire_kernel_su.Host.Transport.{Transport, close}
use side_wire_kernel_su.Host.Reader.{dispatch_kind, dispatch, reader_task}
use side_wire_kernel_su.Host.Invariant.{
  IsValid, grant-IsValid, cancel_route-IsValid, deliver-IsValid,
}
use side_wire_kernel_su.Host.Offends.{Offends}

-- The step from `t` to `t'` concerns the stream `id` alone: other ids keep their routes, other
-- channels their queues, credits and cancellations, and the connection stays as open as it was.
pub record Isolates (id : ℕ) (t t' : Transport) : Type 0 where
  pub other_routes : (j : ℕ) → j ≢ id → lookup j t'.routes ≡ lookup j t.routes
  pub other_channels :
      (g : ℕ) → lookup id t.routes ≢ some g → get_elem? t'.channels g ≡ get_elem? t.channels g
  pub same_closed : t'.closed ≡ t.closed

-- The end of the task: the bounds hold, the connection is closed and no stream is routed.
abbrev pub Ended : Transport → Type 0
Ended t = IsValid t × (t.closed ≡ true) × (t.routes ≡ [])

module _ (decode_window : List ℕ → Option ℕ) where
  dispatch_kind-IsValid :
      (kind : FrameKind) (t : Transport) (f : Frame)
      → IsValid t
      → IsValid (dispatch_kind decode_window kind t f).0
  dispatch_kind-IsValid stream_window_update t f v =
      elim (Bool-cases (not t.supports_flow_control)) [
        | inl old ↦ rw old v
        | inr new ↦ rw new (grant-IsValid t f.stream_id (decode_window f.payload) v)
      ]
  dispatch_kind-IsValid stream_cancel t f v = cancel_route-IsValid t f v
  dispatch_kind-IsValid _ t f v = deliver-IsValid t f v

  -- Every frame keeps the bounds on queues, credits and routes.
  pub dispatch-IsValid :
      (t : Transport) (f : Frame) → IsValid t → IsValid (dispatch decode_window t f).0
  unfolding dispatch
  dispatch-IsValid t f v = dispatch_kind-IsValid f.kind t f v

  close-IsValid : (t : Transport) → IsValid t → IsValid (close t)
  unfolding close
  close-IsValid t v = record { channels_ok = v.channels_ok; routes_ok = tt }

  close-Ended : (t : Transport) → IsValid t → Ended (close t)
  unfolding close
  close-Ended t v = (close-IsValid t v, refl, refl)

  -- From a state within the bounds, and whatever frames or errors the peer's end delivers: when
  -- the reader task ends, the bounds on queues, credits and routes hold, the connection is closed
  -- and no stream is routed.
  pub reader_task_lem :
      (t : Transport) (incoming : List (Option Frame))
      → IsValid t
      → Ended (reader_task decode_window t incoming)
  unfolding reader_task
  reader_task_lem t [] v = close-Ended t v
  reader_task_lem t (none ∷ more) v = close-Ended t v
  reader_task_lem t (some f ∷ more) v =
      let t' : Transport = (dispatch decode_window t f).0 in
      let v' : IsValid t' = dispatch-IsValid t f v in
      if_intro Ended t.closed (close-Ended t v) (
        if_intro Ended (dispatch decode_window t f).1 (reader_task_lem t' more v')
          (close-Ended t' v'))
