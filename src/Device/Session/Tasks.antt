-- ===== src/Device/Session/Tasks.antt =====
-- The table of streams under the steps of the spawned tasks (apps/sidewired/src/main.rs).
use mathlib.Core.Option.{some-injective}
use side_wire_kernel_su.Base.{
  ℕ, ◌≤◌, ◌≡◌, ◌≢◌, refl, sym, ap, ◌∙◌, Bool, true, false, Option, none, some, List, [], ◌∷◌,
  Result, length, All, All-weaken, arith,
}
use side_wire_kernel_su.Base.Assoc.{
  get_elem?, set, All-remove_ne, get_elem?-set_ne, All-set, All-get_elem?,
}
use side_wire_kernel_su.Frame.Kind.{FrameKind}
use side_wire_kernel_su.Frame.Header.{Frame}
use side_wire_kernel_su.Device.Mux.{MuxError}
use side_wire_kernel_su.Device.Session.{
  Session, Task, Phase, working, leaving, ended, has_inbox, has_cancel, set_task,
}
use side_wire_kernel_su.Device.Session.Events.{
  Event, arrives, takes, sends, grants, unregisters, reports, finishes, overflows, rest_of,
  removed_if, unregister, run_overflows, task_step, task_at, session_step, session_run,
}
use side_wire_kernel_su.Device.Session.Valid.{
  Serves, Bounded, IsValid, IsValid-set_task, IsValid-mux,
}
use side_wire_kernel_su.Device.Session.Frames.{Holds, Holds-next, serve_frame-IsValid}

-- An entry that does not point to the cell that changes.
Serves-other :
    (owns : FrameKind → Bool) (tasks : List Task) (h : ℕ) (t t' : Task) (j k : ℕ)
    → get_elem? tasks h ≡ some t
    → (t.id ≡ j → owns t.request ≡ true → t.phase ≡ working → ⊥)
    → Serves owns tasks (j, k)
    → Serves owns (set tasks h t') (j, k)
Serves-other owns tasks h t t' j k cell apart (u, found, named, owner, works) =
    let ne : h ≢ k = λ at.
      (let same : u ≡ t = some-injective u t (sym found ∙ ap (get_elem? tasks) (sym at) ∙ cell) in
        apart (ap (λ w. w.id) (sym same) ∙ named) (ap (λ w. owns w.request) (sym same) ∙ owner)
          (ap (λ w. w.phase) (sym same) ∙ works)) in
    (u, get_elem?-set_ne tasks h k t' ne ∙ found, named, owner, works)

-- The entries of a task go with it.
entries_left :
    (owns : FrameKind → Bool) (tasks : List Task) (h : ℕ) (t t' : Task) (m : List (ℕ × ℕ))
    → get_elem? tasks h ≡ some t
    → All (Serves owns tasks) m
    → All (Serves owns (set tasks h t')) (removed_if (owns t.request) t.id m)
entries_left owns tasks h t t' m cell all = go (owns t.request) refl
  where
    go : (b : Bool) → owns t.request ≡ b → All (Serves owns (set tasks h t')) (removed_if b t.id m)
    go true e =
        All-remove_ne (Serves owns tasks) (Serves owns (set tasks h t')) t.id m
          (λ j k ne. Serves-other owns tasks h t t' j k cell (λ same _ _. ne (sym same))) all
    go false e =
        All-weaken (Serves owns tasks) (Serves owns (set tasks h t')) m
          (λ (j, k). Serves-other owns tasks h t t' j k cell (λ _ owner _. cc)) all

unregister-IsValid :
    (s : Session) (h : ℕ) (t : Task)
    → get_elem? s.tasks h ≡ some t
    → IsValid s
    → IsValid (unregister s h t)
unfolding unregister
unregister-IsValid s h t cell v = record {
  routes_ok =
      entries_left has_inbox s.tasks h t (record t { phase = leaving }) s.routes cell v.routes_ok;
  cancels_ok =
      entries_left has_cancel s.tasks h t (record t { phase = leaving }) s.cancels cell
        v.cancels_ok;
  inboxes_ok =
      All-set Bounded s.tasks h (record t { phase = leaving }) v.inboxes_ok
        (All-get_elem? Bounded s.tasks h t v.inboxes_ok cell);
}

-- No entry points to a task that has unregistered.
finish_task-IsValid :
    (s : Session) (h : ℕ) (t : Task)
    → get_elem? s.tasks h ≡ some t
    → t.phase ≡ leaving
    → IsValid s
    → IsValid (set_task s h (record t { phase = ended }))
finish_task-IsValid s h t cell left v =
    let t' : Task = record t { phase = ended } in
    let unmoved : (owns : FrameKind → Bool) (m : List (ℕ × ℕ))
        → All (Serves owns s.tasks) m
        → All (Serves owns (set s.tasks h t')) m =
      λ owns m.
        All-weaken (Serves owns s.tasks) (Serves owns (set s.tasks h t')) m
          (λ (j, k). Serves-other owns s.tasks h t t' j k cell (λ _ _ works. cc)) in
    record {
      routes_ok = unmoved has_inbox s.routes v.routes_ok;
      cancels_ok = unmoved has_cancel s.cancels v.cancels_ok;
      inboxes_ok =
          All-set Bounded s.tasks h t' v.inboxes_ok
            (All-get_elem? Bounded s.tasks h t v.inboxes_ok cell);
    }

rest_of_le : (q : List Frame) → length (rest_of q) ≤ length q
rest_of_le [] = omega arith
rest_of_le (f ∷ fs) = omega arith

module _ (encode_window : ℕ → List ℕ) where
  -- An event that a task in this phase does not take.
  task_step-IsValid :
      (e : Event) (p : Phase) (s : Session) (h : ℕ) (t : Task)
      → get_elem? s.tasks h ≡ some t
      → t.phase ≡ p
      → IsValid s
      → IsValid (task_step encode_window e p s h t)
  unfolding task_step
  task_step-IsValid (takes _) working s h t cell at v =
      IsValid-set_task s h t (record t { inbox = rest_of t.inbox }) v cell (refl, refl, refl)
        (omega (arith, rest_of_le t.inbox, All-get_elem? Bounded s.tasks h t v.inboxes_ok cell))
  task_step-IsValid (sends _ kind payload w) working s h t cell at v = IsValid-mux s _ v
  task_step-IsValid (grants _ bytes answer) working s h t cell at v = IsValid-mux s _ v
  task_step-IsValid (unregisters _) working s h t cell at v = unregister-IsValid s h t cell v
  task_step-IsValid (reports _ message w) leaving s h t cell at v = IsValid-mux s _ v
  task_step-IsValid (finishes _) leaving s h t cell at v =
      finish_task-IsValid (record s { mux = _ }) h t cell at (IsValid-mux s _ v)
  task_step-IsValid _ _ s h t cell at v = v

  task_at-IsValid :
      (e : Event) (s : Session) (h : ℕ) (o : Option Task)
      → get_elem? s.tasks h ≡ o
      → IsValid s
      → IsValid (task_at encode_window e s h o)
  task_at-IsValid e s h none cell v = v
  task_at-IsValid e s h (some t) cell v = task_step-IsValid e t.phase s h t cell refl v

  run_overflows-IsValid :
      (s : Session) (ids message : List ℕ) (answer : Result MuxError (Unit {0}))
      → IsValid s
      → IsValid (run_overflows s ids message answer)
  unfolding run_overflows
  run_overflows-IsValid s [] message answer v = v
  run_overflows-IsValid s (id ∷ ids) message answer v = record {
    routes_ok = v.routes_ok;
    cancels_ok = v.cancels_ok;
    inboxes_ok = v.inboxes_ok;
  }

  module _ (decode_window : List ℕ → Option ℕ) (unsupported : FrameKind → List ℕ) where
    session_step-IsValid :
        (s : Session) (e : Event)
        → IsValid s
        → Holds IsValid (session_step encode_window decode_window unsupported s e)
    unfolding session_step
    session_step-IsValid s (arrives f w) v = serve_frame-IsValid decode_window unsupported s f w v
    session_step-IsValid s (overflows message answer) v =
        run_overflows-IsValid s s.overflows message answer v
    session_step-IsValid s (takes h) v = task_at-IsValid _ s h (get_elem? s.tasks h) refl v
    session_step-IsValid s (sends h kind payload w) v =
        task_at-IsValid _ s h (get_elem? s.tasks h) refl v
    session_step-IsValid s (grants h bytes answer) v =
        task_at-IsValid _ s h (get_elem? s.tasks h) refl v
    session_step-IsValid s (unregisters h) v = task_at-IsValid _ s h (get_elem? s.tasks h) refl v
    session_step-IsValid s (reports h message w) v =
        task_at-IsValid _ s h (get_elem? s.tasks h) refl v
    session_step-IsValid s (finishes h) v = task_at-IsValid _ s h (get_elem? s.tasks h) refl v

    -- Over whatever frames the host sends and whatever steps the spawned tasks take, in any order,
    -- as long as no error ends the loop: every entry of the two tables of streams points to a task
    -- of that stream that still works and that owns the receiver of the entry, and no inbox holds
    -- more frames than its channel.
    pub session_run-IsValid :
        (s : Session) (es : List Event)
        → IsValid s
        → Holds IsValid (session_run encode_window decode_window unsupported s es)
    unfolding session_run
    session_run-IsValid s [] v = v
    session_run-IsValid s (e ∷ es) v =
        Holds-next IsValid IsValid (session_step encode_window decode_window unsupported s e) _
          (session_step-IsValid s e v) (λ s' v'. session_run-IsValid s' es v')
