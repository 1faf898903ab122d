-- ===== src/Device/Session/Spawns.antt =====
-- The request arms of `serve` (apps/sidewired/src/main.rs) on ids that the host has not used.
use side_wire_kernel_su.Base.{
  ℕ, suc, ◌≤◌, ◌≡◌, refl, sym, ap, ◌∙◌, true, false, Option, none, some, [], ◌∷◌, ◌++◌, ok, err,
  arith, inl, inr,
}
use side_wire_kernel_su.Base.Assoc.{
  lookup, insert, lookup-insert_ne, lookup-insert_self, get_elem?-append-cases,
}
use side_wire_kernel_su.Frame.Header.{Frame}
use side_wire_kernel_su.Device.Mux.{Acted, register_flow_stream}
use side_wire_kernel_su.Device.Session.{
  Session, Turn, ◌and_next◌, has_cancel, next_position, new_task, register_stream, register_cancel,
  register_flow, if_inactive, if_replaced, with_mux, spawn,
}
use side_wire_kernel_su.Device.Session.Told.{IsTellable, IsTellable-Descends, IsTellable-mux}

pub IsTellable-weaken : (n k : ℕ) (s : Session) → n ≤ k → IsTellable n s → IsTellable k s
IsTellable-weaken n k s le old = record {
  below = λ h t cell. omega (arith, old.below h t cell);
  distinct = old.distinct;
  can_tell = old.can_tell;
}

-- `cancels` leads to the task that is spawned next, if it is of a kind that needs it.
abbrev pub Leads : Frame → Session → Type 0
Leads f s = has_cancel f.kind ≡ true → lookup f.stream_id s.cancels ≡ some (next_position s)

spawn-IsTellable :
    (n : ℕ) (s : Session) (f : Frame)
    → n ≤ f.stream_id
    → IsTellable n s
    → Leads f s
    → IsTellable (suc f.stream_id) (record s { tasks = s.tasks ++ (new_task f ∷ []) })
spawn-IsTellable n s f above old leads = record {
  below = λ h t cell. elim (get_elem?-append-cases s.tasks h (new_task f) t cell) [
    | inl was ↦ omega (arith, old.below h t was)
    | inr (_, is) ↦ omega (arith, ap (λ w. w.id) is)
  ];
  distinct = λ h k t u cell_h cell_k e.
      elim (get_elem?-append-cases s.tasks h (new_task f) t cell_h) [
        | inl was ↦ elim (get_elem?-append-cases s.tasks k (new_task f) u cell_k) [
          | inl was' ↦ old.distinct h k t u was was' e
          | inr (_, is) ↦ absurd (omega (arith, old.below h t was, e, ap (λ w. w.id) is))
        ]
        | inr (at, is) ↦ elim (get_elem?-append-cases s.tasks k (new_task f) u cell_k) [
          | inl was' ↦ absurd (omega (arith, old.below k u was', e, ap (λ w. w.id) is))
          | inr (at', _) ↦ at ∙ sym at'
        ]
      ];
  can_tell = λ h t cell. elim (get_elem?-append-cases s.tasks h (new_task f) t cell) [
    | inl was ↦ old.can_tell h t was
    | inr (at, is) ↦ λ works owner. inr (
        ap (λ w. lookup w.id s.cancels) is
        ∙ leads (ap (λ w. has_cancel w.request) (sym is) ∙ owner)
        ∙ ap some (sym at))
  ];
}

-- A new id is entered: nothing else is affected.
insert-IsTellable :
    (n : ℕ) (s : Session) (id position : ℕ)
    → n ≤ id
    → IsTellable n s
    → IsTellable n (record s { cancels = insert id position s.cancels })
insert-IsTellable n s id position above old =
    IsTellable-Descends n s _ old (λ h t found. (t, found, refl))
      (λ k u found works owner. elim (old.can_tell k u found works owner) [
        | inl told ↦ inl told
        | inr leads ↦ inr (
            lookup-insert_ne id u.id position s.cancels
              (λ e. absurd (omega (arith, e, old.below k u found)))
            ∙ leads)
      ])

-- What holds of the state, whether or not the loop goes on.
abbrev pub Always : (Session → Type 0) → Turn → Type 0
Always P x = P x.1

module _ (P Q R : Session → Type 0) where
  -- `P` is left by an error, `R` by a success, which leads to `Q`.
  abbrev pub Leaving : Turn → Type 0
  Leaving (ok _, s) = R s
  Leaving (err _, s) = P s

  pub Leaving-next :
      (x : Turn) (next : Session → Turn)
      → Leaving x
      → ((s : Session) → P s → Q s)
      → ((s : Session) → R s → Always Q (next s))
      → Always Q (x and_next next)
  Leaving-next (ok _, s) next h on_err on_ok = on_ok s h
  Leaving-next (err e, s) next h on_err on_ok = on_err s h

module _ (n : ℕ) (f : Frame) where
  -- A task may be spawned that `cancels` leads to.
  abbrev pub CanSpawn : Session → Type 0
  CanSpawn s = IsTellable n s × (lookup f.stream_id s.cancels ≡ some (next_position s))

  abbrev pub Below : Session → Type 0
  Below s = IsTellable (suc f.stream_id) s

  module _ (above : n ≤ f.stream_id) where
    pub raise : (s : Session) → IsTellable n s → Below s
    raise s old = IsTellable-weaken n (suc f.stream_id) s (omega arith) old

    register_stream-IsTellable :
        (s : Session) → IsTellable n s → IsTellable n (register_stream s f.stream_id).1
    unfolding register_stream
    register_stream-IsTellable s old = go (lookup f.stream_id s.routes)
      where
        go : (o : Option ℕ) → IsTellable n (if_inactive s f.stream_id o).1
        go (some _) = old
        go none = IsTellable-Descends n s _ old (λ h t found. (t, found, refl)) old.can_tell

    register_cancel-CanSpawn :
        (s : Session)
        → IsTellable n s
        → Leaving (IsTellable n) Below CanSpawn (register_cancel s f.stream_id)
    unfolding register_cancel
    register_cancel-CanSpawn s old = go (lookup f.stream_id s.cancels)
      where
        entered : Session
        entered = record s { cancels = insert f.stream_id (next_position s) s.cancels }

        kept : IsTellable n entered
        kept = insert-IsTellable n s f.stream_id (next_position s) above old

        go :
            (o : Option ℕ)
            → Leaving (IsTellable n) Below CanSpawn (if_replaced entered f.stream_id o)
        go (some _) = kept
        go none = (kept, lookup-insert_self f.stream_id (next_position s) s.cancels)

    spawn-Below : (s : Session) → CanSpawn s → Always Below (spawn s f)
    spawn-Below s (old, leads) = spawn-IsTellable n s f above old (λ _. leads)

    pub cancelable-Below :
        (s : Session)
        → IsTellable n s
        → Always Below (register_cancel s f.stream_id and_next (λ s. spawn s f))
    cancelable-Below s old =
        Leaving-next (IsTellable n) Below CanSpawn (register_cancel s f.stream_id) (λ s. spawn s f)
          (register_cancel-CanSpawn s old) raise spawn-Below

    pub push-Below :
        (s : Session)
        → IsTellable n s
        → Always Below (
            register_stream s f.stream_id
            and_next (λ s. register_cancel s f.stream_id)
            and_next (λ s. spawn s f))
    push-Below s old = go (register_stream s f.stream_id) (register_stream-IsTellable s old)
      where
        go :
            (x : Turn)
            → IsTellable n x.1
            → Always Below
                (x and_next (λ s. register_cancel s f.stream_id) and_next (λ s. spawn s f))
        go (ok _, s') old' = cancelable-Below s' old'
        go (err _, s') old' = raise s' old'

    flow-CanSpawn :
        (s : Session) (x : Acted (Unit {0}))
        → CanSpawn s
        → Leaving (IsTellable n) Below CanSpawn (with_mux s x)
    flow-CanSpawn s (ok _, m) (old, leads) = (IsTellable-mux n s m old, leads)
    flow-CanSpawn s (err _, m) (old, leads) = IsTellable-mux n s m old

    pub pull-Below :
        (s : Session)
        → IsTellable n s
        → Always Below (
            register_cancel s f.stream_id
            and_next (λ s. register_flow s f.stream_id)
            and_next (λ s. spawn s f))
    pull-Below s old = go (register_cancel s f.stream_id) (register_cancel-CanSpawn s old)
      where
        go :
            (x : Turn)
            → Leaving (IsTellable n) Below CanSpawn x
            → Always Below (x and_next (λ s. register_flow s f.stream_id) and_next (λ s. spawn s f))
        go (ok _, s') can =
            Leaving-next (IsTellable n) Below CanSpawn (register_flow s' f.stream_id)
              (λ s. spawn s f) (flow-CanSpawn s' (register_flow_stream s'.mux f.stream_id) can)
              raise spawn-Below
        go (err _, s') old' = raise s' old'

    pub pty-Below :
        (s : Session)
        → has_cancel f.kind ≡ false
        → IsTellable n s
        → Always Below (register_stream s f.stream_id and_next (λ s. spawn s f))
    pty-Below s without old = go (register_stream s f.stream_id) (register_stream-IsTellable s old)
      where
        go : (x : Turn) → IsTellable n x.1 → Always Below (x and_next (λ s. spawn s f))
        go (ok _, s') old' = spawn-IsTellable n s' f above old' (λ owner. cc)
        go (err _, s') old' = raise s' old'
