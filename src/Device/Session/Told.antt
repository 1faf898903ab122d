-- ===== src/Device/Session/Told.antt =====
-- Which spawned tasks can still be told to stop (apps/sidewired/src/main.rs, `StreamCancels`).
use mathlib.Core.Option.{some-injective}
use side_wire_kernel_su.Base.{
  ℕ, ◌<◌, ◌≡◌, ◌≢◌, refl, sym, ap, ◌∙◌, subst, ◌⊎◌, Bool, true, false, Option, none, some, List,
  inl, inr,
}
use side_wire_kernel_su.Base.Assoc.{
  lookup, remove, get_elem?, set, lookup-remove_ne, get_elem?-set-cases,
}
use side_wire_kernel_su.Device.Mux.{Mux, cancel_local}
use side_wire_kernel_su.Device.Session.{
  Session, Task, working, leaving, has_cancel, set_task, tell, tell_at, cancel_frame,
}
use side_wire_kernel_su.Device.Session.Events.{removed_if, unregister}

-- A working task has been told, or `cancels` leads to it.
abbrev pub CanTell : List (ℕ × ℕ) → ℕ → Task → Type 0
CanTell cancels h t =
    t.phase ≡ working
    → has_cancel t.request ≡ true
    → (t.cancel ≡ true) ⊎ (lookup t.id cancels ≡ some h)

-- The ids of the tasks are different and below `n`.
pub record IsTellable (n : ℕ) (s : Session) : Type 0 where
  pub below : (h : ℕ) (t : Task) → get_elem? s.tasks h ≡ some t → t.id < n
  pub distinct :
      (h k : ℕ) (t u : Task)
      → get_elem? s.tasks h ≡ some t
      → get_elem? s.tasks k ≡ some u
      → t.id ≡ u.id
      → h ≡ k
  pub can_tell : (h : ℕ) (t : Task) → get_elem? s.tasks h ≡ some t → CanTell s.cancels h t

-- Every task of the new list was in the old list, at the same position and with the same id.
abbrev pub Descends : List Task → List Task → Type 0
Descends tasks tasks' =
    (h : ℕ) (t' : Task)
    → get_elem? tasks' h ≡ some t'
    → (t : Task) × (get_elem? tasks h ≡ some t) × (t.id ≡ t'.id)

pub IsTellable-Descends :
    (n : ℕ) (s s' : Session)
    → IsTellable n s
    → Descends s.tasks s'.tasks
    → ((h : ℕ) (t : Task) → get_elem? s'.tasks h ≡ some t → CanTell s'.cancels h t)
    → IsTellable n s'
IsTellable-Descends n s s' old descends can_tell = record {
  below = λ h t' cell.
      (let (t, was, same) = descends h t' cell in subst (λ i. i < n) same (old.below h t was));
  distinct = λ h k t' u' cell_h cell_k e.
      (let (t, was_t, same_t) = descends h t' cell_h in
        let (u, was_u, same_u) = descends k u' cell_k in
        old.distinct h k t u was_t was_u (same_t ∙ e ∙ sym same_u));
  can_tell = can_tell;
}

pub Descends-set :
    (tasks : List Task) (h : ℕ) (t t' : Task)
    → get_elem? tasks h ≡ some t
    → t.id ≡ t'.id
    → Descends tasks (set tasks h t')
Descends-set tasks h t t' cell same = λ k u found. elim (get_elem?-set-cases tasks h k t' u found) [
  | inl (at, is) ↦ (t, ap (get_elem? tasks) (sym at) ∙ cell, same ∙ ap (λ w. w.id) (sym is))
  | inr (ne, old) ↦ (u, old, refl)
]

-- A cell changes, and the table of cancellations does not.
pub set_task-IsTellable :
    (n : ℕ) (s : Session) (h : ℕ) (t t' : Task)
    → IsTellable n s
    → get_elem? s.tasks h ≡ some t
    → t.id ≡ t'.id
    → CanTell s.cancels h t'
    → IsTellable n (set_task s h t')
set_task-IsTellable n s h t t' old cell same can =
    IsTellable-Descends n s (set_task s h t') old (Descends-set s.tasks h t t' cell same)
      (λ k u found. elim (get_elem?-set-cases s.tasks h k t' u found) [
        | inl (at, is) ↦
            subst (λ i. CanTell s.cancels i u) at (subst (CanTell s.cancels h) (sym is) can)
        | inr (ne, was) ↦ old.can_tell k u was
      ])

pub IsTellable-mux :
    (n : ℕ) (s : Session) (m : Mux) → IsTellable n s → IsTellable n (record s { mux = m })
IsTellable-mux n s m old = record {
  below = old.below;
  distinct = old.distinct;
  can_tell = old.can_tell;
}

-- An id is removed from the table, and the task that it led to was told or is not this one.
pub remove-CanTell :
    (s : Session) (id k : ℕ) (u : Task)
    → (u.id ≡ id → lookup id s.cancels ≢ some k)
    → CanTell s.cancels k u
    → CanTell (remove id s.cancels) k u
remove-CanTell s id k u apart can = λ works owner. elim (can works owner) [
  | inl told ↦ inl told
  | inr leads ↦ inr (
      lookup-remove_ne id u.id s.cancels
        (λ e. apart (sym e) (ap (λ i. lookup i s.cancels) e ∙ leads))
      ∙ leads)
]

-- `StreamCancel` tells the task that `cancels` leads to.
tell-IsTellable :
    (n : ℕ) (s : Session) (routes : List (ℕ × ℕ)) (id : ℕ) (o : Option ℕ)
    → lookup id s.cancels ≡ o
    → IsTellable n s
    → IsTellable n (tell_at (record s { routes = routes; cancels = remove id s.cancels }) o)
tell-IsTellable n s routes id none e old =
    IsTellable-Descends n s _ old (λ h t found. (t, found, refl))
      (λ k u found. remove-CanTell s id k u (λ _ leads. cc) (old.can_tell k u found))
tell-IsTellable n s routes id (some h) e old = go (get_elem? s.tasks h) refl
  where
    go :
        (o : Option Task)
        → get_elem? s.tasks h ≡ o
        → IsTellable n (tell (record s { routes = routes; cancels = remove id s.cancels }) h o)
    go none cell =
        IsTellable-Descends n s _ old (λ h t found. (t, found, refl))
          (λ k u found.
            remove-CanTell s id k u
              (λ _ leads.
                (let at : h ≡ k = some-injective h k (sym e ∙ leads) in
                  let gone : get_elem? s.tasks k ≡ none = ap (get_elem? s.tasks) (sym at) ∙ cell in
                  cc))
              (old.can_tell k u found))
    go (some t) cell =
        IsTellable-Descends n s _ old
          (Descends-set s.tasks h t (record t { cancel = true }) cell refl)
          (λ k u found.
            elim (get_elem?-set-cases s.tasks h k (record t { cancel = true }) u found) [
              | inl (at, is) ↦ λ works owner. inl (ap (λ w. w.cancel) is)
              | inr (ne, was) ↦
                  remove-CanTell s id k u (λ _ leads. ne (some-injective h k (sym e ∙ leads)))
                    (old.can_tell k u was)
            ])

pub cancel_frame-IsTellable :
    (n : ℕ) (s : Session) (id : ℕ) → IsTellable n s → IsTellable n (cancel_frame s id)
unfolding cancel_frame
cancel_frame-IsTellable n s id old =
    tell-IsTellable n (record s { mux = cancel_local s.mux id }) (remove id s.routes) id
      (lookup id s.cancels) refl (IsTellable-mux n s _ old)

-- A task unregisters: no other task has its id.
pub unregister-IsTellable :
    (n : ℕ) (s : Session) (h : ℕ) (t : Task)
    → get_elem? s.tasks h ≡ some t
    → IsTellable n s
    → IsTellable n (unregister s h t)
unfolding unregister
unregister-IsTellable n s h t cell old =
    IsTellable-Descends n s _ old (Descends-set s.tasks h t t' cell refl) (λ k u found.
      elim (get_elem?-set-cases s.tasks h k t' u found) [
        | inl (at, is) ↦ λ works owner. absurd (gone (sym (ap (λ w. w.phase) is) ∙ works))
        | inr (ne, was) ↦ go (has_cancel t.request) k u ne was
      ])
  where
    t' : Task
    t' = record t { phase = leaving }

    gone : leaving ≢ working
    gone e = cc

    go :
        (b : Bool) (k : ℕ) (u : Task)
        → h ≢ k
        → get_elem? s.tasks k ≡ some u
        → CanTell (removed_if b t.id s.cancels) k u
    go true k u ne was =
        remove-CanTell s t.id k u (λ same _. ne (sym (old.distinct k h u t was cell same)))
          (old.can_tell k u was)
    go false k u ne was = old.can_tell k u was
