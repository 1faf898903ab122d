-- ===== src/Device/Session/Shutdown.antt =====
-- What is left of a connection after the loop of `serve` (apps/sidewired/src/main.rs).
use side_wire_kernel_su.Base.{
  ℕ, ◌≡◌, refl, sym, ap, ◌∙◌, true, Option, none, some, List, [], ◌∷◌, inl, inr,
}
use side_wire_kernel_su.Base.Assoc.{get_elem?, get_elem?-set-cases, lookup-cases}
use side_wire_kernel_su.Frame.Kind.{FrameKind}
use side_wire_kernel_su.Device.Mux.{Mux, cancel_local, close_mux}
use side_wire_kernel_su.Device.Session.{
  Session, Task, working, has_cancel, tell, tell_at, cancel_routed, tell_all, tear_down,
  new_session,
}
use side_wire_kernel_su.Device.Session.Events.{Event, session_run}
use side_wire_kernel_su.Device.Session.Told.{CanTell, IsTellable}
use side_wire_kernel_su.Device.Session.Steps.{Increasing, session_run-EndsTellable}

abbrev pub AllTellable : List (ℕ × ℕ) → Session → Type 0
AllTellable cancels s = (k : ℕ) (u : Task) → get_elem? s.tasks k ≡ some u → CanTell cancels k u

-- The first entry is told; the others are led to by the rest of the table.
tell_first :
    (id h : ℕ) (cancels : List (ℕ × ℕ)) (s : Session)
    → AllTellable ((id, h) ∷ cancels) s
    → AllTellable cancels (tell_at s (some h))
tell_first id h cancels s can = go (get_elem? s.tasks h) refl
  where
    -- A cell that the entry does not lead to.
    others : (k : ℕ) (u : Task) → get_elem? s.tasks k ≡ some u → (h ≡ k → ⊥) → CanTell cancels k u
    others k u cell ne = λ works owner. elim (can k u cell works owner) [
      | inl told ↦ inl told
      | inr leads ↦ elim (lookup-cases u.id id h k cancels leads) [
        | inl at ↦ absurd (ne at)
        | inr behind ↦ inr behind
      ]
    ]

    go : (o : Option Task) → get_elem? s.tasks h ≡ o → AllTellable cancels (tell s h o)
    go none cell = λ k u found. others k u found (λ at.
        (let gone : get_elem? s.tasks k ≡ none = ap (get_elem? s.tasks) (sym at) ∙ cell in cc))
    go (some t) cell = λ k u found.
        elim (get_elem?-set-cases s.tasks h k (record t { cancel = true }) u found) [
          | inl (at, is) ↦ λ works owner. inl (ap (λ w. w.cancel) is)
          | inr (ne, was) ↦ others k u was ne
        ]

tell_all-told :
    (cancels : List (ℕ × ℕ)) (s : Session)
    → AllTellable cancels s
    → AllTellable [] (tell_all cancels s)
unfolding tell_all
tell_all-told [] s can = can
tell_all-told ((id, h) ∷ cancels) s can =
    tell_all-told cancels _ (tell_first id h cancels (record s { mux = cancel_local s.mux id }) can)

tell-tables :
    (s : Session) (h : ℕ) (o : Option Task)
    → ((tell s h o).routes ≡ s.routes) × ((tell s h o).cancels ≡ s.cancels)
tell-tables s h none = (refl, refl)
tell-tables s h (some t) = (refl, refl)

tell_all-tables :
    (cancels : List (ℕ × ℕ)) (s : Session)
    → ((tell_all cancels s).routes ≡ s.routes) × ((tell_all cancels s).cancels ≡ s.cancels)
unfolding tell_all
tell_all-tables [] s = (refl, refl)
tell_all-tables ((id, h) ∷ cancels) s =
    let next : Session = record s { mux = cancel_local s.mux id } in
    let (routes, table) = tell_all-tables cancels (tell_at next (some h)) in
    let (routes', table') = tell-tables next h (get_elem? next.tasks h) in
    (routes ∙ routes', table ∙ table')

-- A connection that is over: nothing is routed, the writer is closed, and no task that listens for
-- its cancellation still works without having been told.
pub record IsOver (s : Session) : Type 0 where
  pub unrouted : s.routes ≡ []
  pub uncanceled : s.cancels ≡ []
  pub closed : s.mux.failed ≡ true
  pub all_told :
      (h : ℕ) (t : Task)
      → get_elem? s.tasks h ≡ some t
      → t.phase ≡ working
      → has_cancel t.request ≡ true
      → t.cancel ≡ true

told_at_end :
    (s : Session)
    → AllTellable [] s
    → (h : ℕ) (t : Task) → get_elem? s.tasks h ≡ some t
    → t.phase ≡ working
    → has_cancel t.request ≡ true
    → t.cancel ≡ true
told_at_end s can h t cell works owner = elim (can h t cell works owner) [
  | inl told ↦ told
  | inr leads ↦ cc
]

pub tear_down-IsOver : (n : ℕ) (s : Session) → IsTellable n s → IsOver (tear_down s)
unfolding tear_down close_mux
tear_down-IsOver n s old =
    let start : Session = record s {
      mux = cancel_routed s.routes s.mux;
      routes = [];
      cancels = [];
    } in
    let (routes, table) = tell_all-tables s.cancels start in
    let told : AllTellable [] (tell_all s.cancels start) =
      tell_all-told s.cancels start old.can_tell in
    record {
      unrouted = routes;
      uncanceled = table;
      closed = refl;
      all_told = told_at_end (tell_all s.cancels start) told;
    }

-- On a new connection, with a host that gives each request an id above those before it, whatever
-- other frames come and whatever the spawned tasks do, in any order: when the loop is over, by an
-- error or not, no stream is routed, the writer is closed, and every task that still works and
-- listens for its cancellation has been told of it.
pub session-IsOver :
    (encode_window : ℕ → List ℕ) (decode_window : List ℕ → Option ℕ)
    (unsupported : FrameKind → List ℕ) (m : Mux) (es : List Event)
    → Increasing 0 es
    → IsOver (tear_down (session_run encode_window decode_window unsupported (new_session m) es).1)
session-IsOver encode_window decode_window unsupported m es inc =
    let fresh : IsTellable 0 (new_session m) = record {
      below = λ h t cell. cc;
      distinct = λ h k t u cell _ _. cc;
      can_tell = λ h t cell works owner. cc;
    } in
    let (n, tellable) =
      session_run-EndsTellable encode_window decode_window unsupported 0 (new_session m) es inc
        fresh in
    tear_down-IsOver n _ tellable
