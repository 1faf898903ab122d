-- ===== src/Device/Session/Frames.antt =====
-- The table of streams under the frames of the host (apps/sidewired/src/main.rs, `serve`).
use side_wire_kernel_su.Base.{
  ℕ, ◌≡◌, refl, Bool, true, Option, none, some, List, [], ◌∷◌, ◌++◌, ok, err, Poll, ready, pending,
  leb, if◌then◌else◌, branch_intro, length, length-append, All-append, arith,
}
use side_wire_kernel_su.Base.Assoc.{
  lookup, remove, insert, get_elem?, All-remove, All-get_elem?, get_elem?-append_end,
}
use side_wire_kernel_su.Frame.Kind.{
  FrameKind, exec_request, push_request, pull_request, pty_open, clipboard_get, clipboard_set,
  clipboard_clear, proxy_start_request, ping, stream_cancel, stream_window_update, pong,
}
use side_wire_kernel_su.Frame.Header.{Frame}
use side_wire_kernel_su.Device.Mux.{
  Mux, Acted, Meanwhile, register_flow_stream, add_flow_credit, cancel_local, finish_stream,
  mux_send_raw,
}
use side_wire_kernel_su.Device.Session.{
  Session, Task, Phase, working, leaving, ended, Turn, ◌and_next◌, has_inbox, has_cancel,
  next_position, set_task, new_task, stream_route_capacity, tell, tell_at, send_inbox, send_route,
  cancel_frame, register_stream, register_cancel, register_flow, if_inactive, if_replaced, with_mux,
  spawn, awaited, finished, request_arm, routed_or, credited, update_arm, serve_kind, serve_frame,
}
use side_wire_kernel_su.Device.Session.Valid.{
  Serves, Bounded, IsValid, Kept-append, IsValid-Kept, IsValid-set_task, IsValid-remove,
  IsValid-mux, unroute-IsValid,
}

-- What holds of the state if the loop goes on.
abbrev pub Holds : (Session → Type 0) → Turn → Type 0
Holds P (ok _, s) = P s
Holds P (err _, s) = Unit

pub Holds-next :
    (P Q : Session → Type 0) (x : Turn) (next : Session → Turn)
    → Holds P x
    → ((s : Session) → P s → Holds Q (next s))
    → Holds Q (x and_next next)
Holds-next P Q (ok _, s) next h then_on = then_on s h
Holds-next P Q (err e, s) next h then_on = tt

-- The bounds on a cell that is there.
abbrev cell_bounded :
    (s : Session) (h : ℕ) (t : Task) → IsValid s → get_elem? s.tasks h ≡ some t → Bounded t
cell_bounded s h t v found = All-get_elem? Bounded s.tasks h t v.inboxes_ok found

tell-IsValid :
    (s : Session) (h : ℕ) (o : Option Task)
    → get_elem? s.tasks h ≡ o
    → IsValid s
    → IsValid (tell s h o)
tell-IsValid s h none found v = v
tell-IsValid s h (some t) found v =
    IsValid-set_task s h t (record t { cancel = true }) v found (refl, refl, refl)
      (cell_bounded s h t v found)

tell_at-IsValid : (s : Session) (o : Option ℕ) → IsValid s → IsValid (tell_at s o)
tell_at-IsValid s none v = v
tell_at-IsValid s (some h) v = tell-IsValid s h (get_elem? s.tasks h) refl v

cancel_frame-IsValid : (s : Session) (id : ℕ) → IsValid s → IsValid (cancel_frame s id)
unfolding cancel_frame
cancel_frame-IsValid s id v = tell_at-IsValid _ (lookup id s.cancels) (
    IsValid-mux (record s { routes = remove id s.routes; cancels = remove id s.cancels })
      (cancel_local s.mux id) (IsValid-remove s id v))

queue_inbox-IsValid :
    (s : Session) (f : Frame) (h : ℕ) (t : Task)
    → get_elem? s.tasks h ≡ some t
    → IsValid s
    → IsValid (
        if leb stream_route_capacity (length t.inbox)
        then record s {
          routes = remove f.stream_id s.routes;
          overflows = s.overflows ++ (f.stream_id ∷ []);
        }
        else set_task s h (record t { inbox = t.inbox ++ (f ∷ []) }))
queue_inbox-IsValid s f h t found v =
    branch_intro IsValid (leb stream_route_capacity (length t.inbox))
      (λ _. record {
        routes_ok = All-remove (Serves has_inbox s.tasks) f.stream_id s.routes v.routes_ok;
        cancels_ok = v.cancels_ok;
        inboxes_ok = v.inboxes_ok;
      })
      (λ room.
        IsValid-set_task s h t (record t { inbox = t.inbox ++ (f ∷ []) }) v found (refl, refl, refl)
          (ground (arith, length-append t.inbox (f ∷ []))))

send_inbox-IsValid :
    (s : Session) (f : Frame) (h : ℕ) (p : Phase) (t : Task)
    → get_elem? s.tasks h ≡ some t
    → IsValid s
    → IsValid (send_inbox s f h p t)
send_inbox-IsValid s f h working t found v = queue_inbox-IsValid s f h t found v
send_inbox-IsValid s f h leaving t found v = queue_inbox-IsValid s f h t found v
send_inbox-IsValid s f h ended t found v = unroute-IsValid s f.stream_id v

send_route-IsValid :
    (s : Session) (f : Frame) (h : ℕ) (o : Option Task)
    → get_elem? s.tasks h ≡ o
    → IsValid s
    → IsValid (send_route s f h o)
send_route-IsValid s f h none found v = unroute-IsValid s f.stream_id v
send_route-IsValid s f h (some t) found v = send_inbox-IsValid s f h t.phase t found v

-- The state between the registrations of a request and its spawn.
abbrev IsReady : Frame → Session → Type 0
IsReady f s = IsValid (record s { tasks = s.tasks ++ (new_task f ∷ []) })

IsReady-IsValid : (s : Session) (f : Frame) → IsValid s → IsReady f s
IsReady-IsValid s f v =
    IsValid-Kept s (s.tasks ++ (new_task f ∷ [])) v (Kept-append s.tasks _)
      (All-append Bounded s.tasks _ v.inboxes_ok (omega arith, tt))

new_entry :
    (owns : FrameKind → Bool) (s : Session) (f : Frame)
    → owns f.kind ≡ true
    → Serves owns (s.tasks ++ (new_task f ∷ [])) (f.stream_id, next_position s)
new_entry owns s f owner =
    (new_task f, get_elem?-append_end s.tasks (new_task f), refl, owner, refl)

register_stream-IsReady :
    (s : Session) (f : Frame)
    → has_inbox f.kind ≡ true
    → IsReady f s
    → Holds (IsReady f) (register_stream s f.stream_id)
unfolding register_stream
register_stream-IsReady s f owner v = go (lookup f.stream_id s.routes)
  where
    go : (o : Option ℕ) → Holds (IsReady f) (if_inactive s f.stream_id o)
    go (some _) = tt
    go none = record {
      routes_ok = (
        new_entry has_inbox s f owner,
        All-remove (Serves has_inbox (s.tasks ++ (new_task f ∷ []))) f.stream_id s.routes
            v.routes_ok,
      );
      cancels_ok = v.cancels_ok;
      inboxes_ok = v.inboxes_ok;
    }

register_cancel-IsReady :
    (s : Session) (f : Frame)
    → has_cancel f.kind ≡ true
    → IsReady f s
    → Holds (IsReady f) (register_cancel s f.stream_id)
unfolding register_cancel
register_cancel-IsReady s f owner v = go (lookup f.stream_id s.cancels)
  where
    go :
        (o : Option ℕ)
        → Holds (IsReady f) (
            if_replaced
              (record s { cancels = insert f.stream_id (next_position s) s.cancels })
              f.stream_id
              o)
    go (some _) = tt
    go none = record {
      routes_ok = v.routes_ok;
      cancels_ok = (
        new_entry has_cancel s f owner,
        All-remove (Serves has_cancel (s.tasks ++ (new_task f ∷ []))) f.stream_id s.cancels
            v.cancels_ok,
      );
      inboxes_ok = v.inboxes_ok;
    }

-- A call on the mux leaves the table alone.
module _ (P : Session → Type 0)
    (keeps : (s : Session) (m : Mux) → P s → P (record s { mux = m })) where
  with_mux-Holds : (s : Session) (x : Acted (Unit {0})) → P s → Holds P (with_mux s x)
  with_mux-Holds s (ok _, m) p = keeps s m p
  with_mux-Holds s (err e, m) p = tt

  awaited-Holds : (s : Session) (x : Poll (Acted (Unit {0}))) → P s → Holds P (awaited s x)
  awaited-Holds s pending p = p
  awaited-Holds s (ready x) p = with_mux-Holds s x p

  credited-Holds : (s : Session) (x : Acted Bool) → P s → Holds P (credited s x)
  credited-Holds s (ok _, m) p = keeps s m p
  credited-Holds s (err e, m) p = tt

  update_arm-Holds : (s : Session) (id : ℕ) (o : Option ℕ) → P s → Holds P (update_arm s id o)
  update_arm-Holds s id none p = tt
  update_arm-Holds s id (some bytes) p = credited-Holds s (add_flow_credit s.mux id bytes) p

IsReady-mux : (f : Frame) (s : Session) (m : Mux) → IsReady f s → IsReady f (record s { mux = m })
IsReady-mux f s m v = IsValid-mux (record s { tasks = s.tasks ++ (new_task f ∷ []) }) m v

-- A request that is canceled through `cancels` only.
cancelable-IsValid :
    (s : Session) (f : Frame)
    → has_cancel f.kind ≡ true
    → IsReady f s
    → Holds IsValid (register_cancel s f.stream_id and_next (λ s. spawn s f))
cancelable-IsValid s f owner v =
    Holds-next (IsReady f) IsValid (register_cancel s f.stream_id) (λ s. spawn s f)
      (register_cancel-IsReady s f owner v) (λ s' v'. v')

module _ (decode_window : List ℕ → Option ℕ) (unsupported : FrameKind → List ℕ) where
  finish_arm-IsValid :
      (s : Session) (m : Mux) (id : ℕ)
      → IsValid s
      → Holds IsValid (finished id (record s { mux = m }))
  finish_arm-IsValid s m id v = IsValid-mux s (finish_stream m id) v

  request_arm-IsValid :
      (kind : FrameKind) (s : Session) (f : Frame) (w : Meanwhile)
      → f.kind ≡ kind
      → IsValid s
      → Holds IsValid (request_arm decode_window unsupported kind s f w)
  unfolding request_arm
  request_arm-IsValid push_request s f w e v =
      Holds-next (IsReady f) IsValid
        (register_stream s f.stream_id and_next (λ s. register_cancel s f.stream_id))
        (λ s. spawn s f)
        (Holds-next (IsReady f) (IsReady f) (register_stream s f.stream_id)
          (λ s. register_cancel s f.stream_id)
          (register_stream-IsReady s f (rw e refl) (IsReady-IsValid s f v))
          (λ s' v'. register_cancel-IsReady s' f (rw e refl) v'))
        (λ s' v'. v')
  request_arm-IsValid pull_request s f w e v =
      Holds-next (IsReady f) IsValid
        (register_cancel s f.stream_id and_next (λ s. register_flow s f.stream_id)) (λ s. spawn s f)
        (Holds-next (IsReady f) (IsReady f) (register_cancel s f.stream_id)
          (λ s. register_flow s f.stream_id)
          (register_cancel-IsReady s f (rw e refl) (IsReady-IsValid s f v))
          (λ s' v'.
            with_mux-Holds (IsReady f) (IsReady-mux f) s' (register_flow_stream s'.mux f.stream_id)
              v'))
        (λ s' v'. v')
  request_arm-IsValid pty_open s f w e v =
      Holds-next (IsReady f) IsValid (register_stream s f.stream_id) (λ s. spawn s f)
        (register_stream-IsReady s f (rw e refl) (IsReady-IsValid s f v)) (λ s' v'. v')
  request_arm-IsValid exec_request s f w e v =
      cancelable-IsValid s f (rw e refl) (IsReady-IsValid s f v)
  request_arm-IsValid clipboard_get s f w e v =
      cancelable-IsValid s f (rw e refl) (IsReady-IsValid s f v)
  request_arm-IsValid clipboard_set s f w e v =
      cancelable-IsValid s f (rw e refl) (IsReady-IsValid s f v)
  request_arm-IsValid clipboard_clear s f w e v =
      cancelable-IsValid s f (rw e refl) (IsReady-IsValid s f v)
  request_arm-IsValid proxy_start_request s f w e v =
      cancelable-IsValid s f (rw e refl) (IsReady-IsValid s f v)
  request_arm-IsValid ping s f w e v =
      Holds-next IsValid IsValid (awaited s (mux_send_raw s.mux pong f.stream_id f.payload w))
        (finished f.stream_id)
        (awaited-Holds IsValid IsValid-mux s (mux_send_raw s.mux pong f.stream_id f.payload w) v)
        (λ s' v'. finish_arm-IsValid s' s'.mux f.stream_id v')
  request_arm-IsValid _ s f w e v = finish_arm-IsValid s _ f.stream_id v

  routed_or-IsValid :
      (s : Session) (f : Frame) (w : Meanwhile) (o : Option ℕ)
      → IsValid s
      → Holds IsValid (routed_or decode_window unsupported s f w o)
  routed_or-IsValid s f w (some h) v = send_route-IsValid s f h (get_elem? s.tasks h) refl v
  routed_or-IsValid s f w none v = request_arm-IsValid f.kind s f w refl v

  serve_kind-IsValid :
      (kind : FrameKind) (s : Session) (f : Frame) (w : Meanwhile)
      → IsValid s
      → Holds IsValid (serve_kind decode_window unsupported kind s f w)
  unfolding serve_kind
  serve_kind-IsValid stream_window_update s f w v =
      update_arm-Holds IsValid IsValid-mux s f.stream_id (decode_window f.payload) v
  serve_kind-IsValid stream_cancel s f w v = cancel_frame-IsValid s f.stream_id v
  serve_kind-IsValid _ s f w v = routed_or-IsValid s f w (lookup f.stream_id s.routes) v

  pub serve_frame-IsValid :
      (s : Session) (f : Frame) (w : Meanwhile)
      → IsValid s
      → Holds IsValid (serve_frame decode_window unsupported s f w)
  unfolding serve_frame
  serve_frame-IsValid s f w v = serve_kind-IsValid f.kind s f w v
