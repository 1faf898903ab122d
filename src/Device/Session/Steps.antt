-- ===== src/Device/Session/Steps.antt =====
-- Frames and steps of the tasks of apps/sidewired/src/main.rs, for a host that uses increasing
-- stream ids.
use side_wire_kernel_su.Base.{
  ℕ, suc, ◌≤◌, ◌≡◌, refl, Bool, true, false, ◌||◌, Option, none, some, List, [], ◌∷◌, ◌++◌, Result,
  ok, err, Poll, ready, pending, if◌then◌else◌, if_intro, arith,
}
use side_wire_kernel_su.Base.Assoc.{lookup, remove, get_elem?}
use side_wire_kernel_su.Frame.Kind.{
  FrameKind, exec_request, push_request, pull_request, pty_open, clipboard_get, clipboard_set,
  clipboard_clear, proxy_start_request, ping, pong, stream_cancel, stream_window_update,
}
use side_wire_kernel_su.Frame.Header.{Frame}
use side_wire_kernel_su.Device.Mux.{
  MuxError, Acted, Meanwhile, finish_stream, mux_send_raw, add_flow_credit,
}
use side_wire_kernel_su.Device.Session.{
  Session, Task, Phase, working, leaving, ended, Turn, ◌and_next◌, has_inbox, has_cancel, set_task,
  send_inbox, send_route, with_mux, awaited, finished, request_arm, routed_or, credited, update_arm,
  serve_kind, serve_frame,
}
use side_wire_kernel_su.Device.Session.Events.{
  Event, arrives, takes, sends, grants, unregisters, reports, finishes, overflows, rest_of,
  run_overflows, task_step, task_at, session_step, session_run,
}
use side_wire_kernel_su.Device.Session.Told.{
  IsTellable, IsTellable-mux, set_task-IsTellable, cancel_frame-IsTellable, unregister-IsTellable,
}
use side_wire_kernel_su.Device.Session.Spawns.{
  cancelable-Below, push-Below, pull-Below, pty-Below, IsTellable-weaken,
}

abbrev pub is_request : FrameKind → Bool
is_request kind = has_inbox kind || has_cancel kind

abbrev pub next_id : Bool → ℕ → ℕ → ℕ
next_id true n id = suc id
next_id false n id = n

abbrev pub IsNew : Bool → ℕ → ℕ → Type 0
IsNew true n id = n ≤ id
IsNew false n id = Unit

-- The ids of the requests are `n` or more, and each is above the ids of those before it.
abbrev pub Increasing : ℕ → List Event → Type 0
Increasing n [] = Unit
Increasing n (arrives f w ∷ es) =
    IsNew (is_request f.kind) n f.stream_id
    × Increasing (next_id (is_request f.kind) n f.stream_id) es
Increasing n (_ ∷ es) = Increasing n es

same_cells :
    (n : ℕ) (s : Session) (routes : List (ℕ × ℕ)) (ids : List ℕ)
    → IsTellable n s
    → IsTellable n (record s { routes = routes; overflows = ids })
same_cells n s routes ids old = record {
  below = old.below;
  distinct = old.distinct;
  can_tell = old.can_tell;
}

queue_inbox-IsTellable :
    (n : ℕ) (s : Session) (f : Frame) (h : ℕ) (t : Task) (full : Bool)
    → get_elem? s.tasks h ≡ some t
    → IsTellable n s
    → IsTellable n (
        if full
        then record s {
          routes = remove f.stream_id s.routes;
          overflows = s.overflows ++ (f.stream_id ∷ []);
        }
        else set_task s h (record t { inbox = t.inbox ++ (f ∷ []) }))
queue_inbox-IsTellable n s f h t full cell old =
    if_intro (IsTellable n) full (same_cells n s _ _ old) (
      set_task-IsTellable n s h t (record t { inbox = t.inbox ++ (f ∷ []) }) old cell refl
        (old.can_tell h t cell))

send_inbox-IsTellable :
    (n : ℕ) (s : Session) (f : Frame) (h : ℕ) (p : Phase) (t : Task)
    → get_elem? s.tasks h ≡ some t
    → IsTellable n s
    → IsTellable n (send_inbox s f h p t)
send_inbox-IsTellable n s f h working t cell old = queue_inbox-IsTellable n s f h t _ cell old
send_inbox-IsTellable n s f h leaving t cell old = queue_inbox-IsTellable n s f h t _ cell old
send_inbox-IsTellable n s f h ended t cell old = same_cells n s _ s.overflows old

send_route-IsTellable :
    (n : ℕ) (s : Session) (f : Frame) (h : ℕ) (o : Option Task)
    → get_elem? s.tasks h ≡ o
    → IsTellable n s
    → IsTellable n (send_route s f h o)
send_route-IsTellable n s f h none cell old = same_cells n s _ s.overflows old
send_route-IsTellable n s f h (some t) cell old = send_inbox-IsTellable n s f h t.phase t cell old

with_mux-IsTellable :
    (n : ℕ) (s : Session) (x : Acted (Unit {0})) → IsTellable n s → IsTellable n (with_mux s x).1
with_mux-IsTellable n s (ok _, m) old = IsTellable-mux n s m old
with_mux-IsTellable n s (err _, m) old = IsTellable-mux n s m old

ping_arm-IsTellable :
    (n : ℕ) (s : Session) (id : ℕ) (x : Poll (Acted (Unit {0})))
    → IsTellable n s
    → IsTellable n (awaited s x and_next (finished id)).1
ping_arm-IsTellable n s id pending old = IsTellable-mux n s _ old
ping_arm-IsTellable n s id (ready (ok _, m)) old = IsTellable-mux n s _ old
ping_arm-IsTellable n s id (ready (err _, m)) old = IsTellable-mux n s _ old

update_arm-IsTellable :
    (n : ℕ) (s : Session) (id : ℕ) (o : Option ℕ)
    → IsTellable n s
    → IsTellable n (update_arm s id o).1
update_arm-IsTellable n s id none old = old
update_arm-IsTellable n s id (some bytes) old = go (add_flow_credit s.mux id bytes)
  where
    go : (x : Acted Bool) → IsTellable n (credited s x).1
    go (ok _, m) = IsTellable-mux n s m old
    go (err _, m) = IsTellable-mux n s m old

module _ (decode_window : List ℕ → Option ℕ) (unsupported : FrameKind → List ℕ) where
  request_arm-IsTellable :
      (kind : FrameKind) (n : ℕ) (s : Session) (f : Frame) (w : Meanwhile)
      → f.kind ≡ kind
      → IsNew (is_request kind) n f.stream_id
      → IsTellable n s
      → IsTellable
          (next_id (is_request kind) n f.stream_id)
          (request_arm decode_window unsupported kind s f w).1
  unfolding request_arm
  request_arm-IsTellable push_request n s f w e new old = push-Below n f new s old
  request_arm-IsTellable pull_request n s f w e new old = pull-Below n f new s old
  request_arm-IsTellable pty_open n s f w e new old = pty-Below n f new s (rw e refl) old
  request_arm-IsTellable exec_request n s f w e new old = cancelable-Below n f new s old
  request_arm-IsTellable clipboard_get n s f w e new old = cancelable-Below n f new s old
  request_arm-IsTellable clipboard_set n s f w e new old = cancelable-Below n f new s old
  request_arm-IsTellable clipboard_clear n s f w e new old = cancelable-Below n f new s old
  request_arm-IsTellable proxy_start_request n s f w e new old = cancelable-Below n f new s old
  request_arm-IsTellable ping n s f w e new old =
      ping_arm-IsTellable n s f.stream_id (mux_send_raw s.mux pong f.stream_id f.payload w) old
  request_arm-IsTellable _ n s f w e new old = IsTellable-mux n s _ old

  raise_by :
      (b : Bool) (n id : ℕ) (s : Session)
      → IsNew b n id
      → IsTellable n s
      → IsTellable (next_id b n id) s
  raise_by true n id s new old = IsTellable-weaken n (suc id) s (omega arith) old
  raise_by false n id s new old = old

  serve_kind-IsTellable :
      (kind : FrameKind) (n : ℕ) (s : Session) (f : Frame) (w : Meanwhile)
      → IsNew (is_request f.kind) n f.stream_id
      → IsTellable n s
      → IsTellable
          (next_id (is_request f.kind) n f.stream_id)
          (serve_kind decode_window unsupported kind s f w).1
  unfolding serve_kind
  serve_kind-IsTellable stream_window_update n s f w new old =
      raise_by (is_request f.kind) n f.stream_id _ new
        (update_arm-IsTellable n s f.stream_id (decode_window f.payload) old)
  serve_kind-IsTellable stream_cancel n s f w new old =
      raise_by (is_request f.kind) n f.stream_id _ new (cancel_frame-IsTellable n s f.stream_id old)
  serve_kind-IsTellable _ n s f w new old = go (lookup f.stream_id s.routes)
    where
      go :
          (o : Option ℕ)
          → IsTellable
              (next_id (is_request f.kind) n f.stream_id)
              (routed_or decode_window unsupported s f w o).1
      go (some h) =
          raise_by (is_request f.kind) n f.stream_id _ new
            (send_route-IsTellable n s f h (get_elem? s.tasks h) refl old)
      go none = request_arm-IsTellable f.kind n s f w refl new old

module _ (encode_window : ℕ → List ℕ) where
  task_step-IsTellable :
      (e : Event) (p : Phase) (n : ℕ) (s : Session) (h : ℕ) (t : Task)
      → get_elem? s.tasks h ≡ some t
      → IsTellable n s
      → IsTellable n (task_step encode_window e p s h t)
  unfolding task_step
  task_step-IsTellable (takes _) working n s h t cell old =
      set_task-IsTellable n s h t (record t { inbox = rest_of t.inbox }) old cell refl
        (old.can_tell h t cell)
  task_step-IsTellable (sends _ kind payload w) working n s h t cell old = IsTellable-mux n s _ old
  task_step-IsTellable (grants _ bytes answer) working n s h t cell old = IsTellable-mux n s _ old
  task_step-IsTellable (unregisters _) working n s h t cell old =
      unregister-IsTellable n s h t cell old
  task_step-IsTellable (reports _ message w) leaving n s h t cell old = IsTellable-mux n s _ old
  task_step-IsTellable (finishes _) leaving n s h t cell old =
      set_task-IsTellable n (record s { mux = finish_stream s.mux t.id }) h t
        (record t { phase = ended }) (IsTellable-mux n s _ old) cell refl (λ works owner. cc)
  task_step-IsTellable _ _ n s h t cell old = old

  task_at-IsTellable :
      (e : Event) (n : ℕ) (s : Session) (h : ℕ) (o : Option Task)
      → get_elem? s.tasks h ≡ o
      → IsTellable n s
      → IsTellable n (task_at encode_window e s h o)
  task_at-IsTellable e n s h none cell old = old
  task_at-IsTellable e n s h (some t) cell old = task_step-IsTellable e t.phase n s h t cell old

  run_overflows-IsTellable :
      (n : ℕ) (s : Session) (ids message : List ℕ) (answer : Result MuxError (Unit {0}))
      → IsTellable n s
      → IsTellable n (run_overflows s ids message answer)
  unfolding run_overflows
  run_overflows-IsTellable n s [] message answer old = old
  run_overflows-IsTellable n s (id ∷ ids) message answer old = record {
    below = old.below;
    distinct = old.distinct;
    can_tell = old.can_tell;
  }

  module _ (decode_window : List ℕ → Option ℕ) (unsupported : FrameKind → List ℕ) where
    abbrev pub EndsTellable : Turn → Type 0
    EndsTellable x = (n : ℕ) × IsTellable n x.1

    go_on :
        (n : ℕ) (x : Turn) (next : Session → Turn)
        → IsTellable n x.1
        → ((s : Session) → IsTellable n s → EndsTellable (next s))
        → EndsTellable (x and_next next)
    go_on n (ok _, s) next h then_on = then_on s h
    go_on n (err _, s) next h then_on = (n, h)

    pub session_run-EndsTellable :
        (n : ℕ) (s : Session) (es : List Event)
        → Increasing n es
        → IsTellable n s
        → EndsTellable (session_run encode_window decode_window unsupported s es)
    unfolding session_run session_step serve_frame
    session_run-EndsTellable n s [] inc old = (n, old)
    session_run-EndsTellable n s (arrives f w ∷ es) (new, inc) old =
        go_on (next_id (is_request f.kind) n f.stream_id) _ _
          (serve_kind-IsTellable decode_window unsupported f.kind n s f w new old)
          (λ s' old'.
            session_run-EndsTellable (next_id (is_request f.kind) n f.stream_id) s' es inc old')
    session_run-EndsTellable n s (overflows message answer ∷ es) inc old =
        session_run-EndsTellable n _ es inc
          (run_overflows-IsTellable n s s.overflows message answer old)
    session_run-EndsTellable n s (takes h ∷ es) inc old =
        session_run-EndsTellable n _ es inc
          (task_at-IsTellable _ n s h (get_elem? s.tasks h) refl old)
    session_run-EndsTellable n s (sends h kind payload w ∷ es) inc old =
        session_run-EndsTellable n _ es inc
          (task_at-IsTellable _ n s h (get_elem? s.tasks h) refl old)
    session_run-EndsTellable n s (grants h bytes answer ∷ es) inc old =
        session_run-EndsTellable n _ es inc
          (task_at-IsTellable _ n s h (get_elem? s.tasks h) refl old)
    session_run-EndsTellable n s (unregisters h ∷ es) inc old =
        session_run-EndsTellable n _ es inc
          (task_at-IsTellable _ n s h (get_elem? s.tasks h) refl old)
    session_run-EndsTellable n s (reports h message w ∷ es) inc old =
        session_run-EndsTellable n _ es inc
          (task_at-IsTellable _ n s h (get_elem? s.tasks h) refl old)
    session_run-EndsTellable n s (finishes h ∷ es) inc old =
        session_run-EndsTellable n _ es inc
          (task_at-IsTellable _ n s h (get_elem? s.tasks h) refl old)
