-- ===== src/Device/Session/Valid.antt =====
-- The table of streams in `serve` (apps/sidewired/src/main.rs): what its entries point to.
use mathlib.Core.Option.{some-injective}
use side_wire_kernel_su.Base.{
  ℕ, ◌≤◌, ◌≡◌, refl, sym, ap, ◌∙◌, subst, Bool, true, Bool-cases, some, List, ◌++◌, ◌==◌, length,
  All, All-weaken, ==_iff, arith, inl, inr,
}
use side_wire_kernel_su.Base.Assoc.{
  remove, get_elem?, set, All-remove, get_elem?-set_self, get_elem?-set_ne, All-set,
  get_elem?-append,
}
use side_wire_kernel_su.Frame.Kind.{FrameKind}
use side_wire_kernel_su.Device.Mux.{Mux}
use side_wire_kernel_su.Device.Session.{
  Session, Task, working, has_inbox, has_cancel, set_task, stream_route_capacity, unroute,
}

-- An entry points to a working task of its stream that owns the receiver.
abbrev pub Serves : (FrameKind → Bool) → List Task → (ℕ × ℕ) → Type 0
Serves owns tasks (id, h) =
    (t : Task) × (get_elem? tasks h ≡ some t)
    × (t.id ≡ id)
    × (owns t.request ≡ true)
    × (t.phase ≡ working)

abbrev pub Bounded : Task → Type 0
Bounded t = length t.inbox ≤ stream_route_capacity

pub record IsValid (s : Session) : Type 0 where
  pub routes_ok : All (Serves has_inbox s.tasks) s.routes
  pub cancels_ok : All (Serves has_cancel s.tasks) s.cancels
  pub inboxes_ok : All Bounded s.tasks

-- What a task may change of its cell while it works.
abbrev pub SameTask : Task → Task → Type 0
SameTask t t' = (t'.id ≡ t.id) × (t'.request ≡ t.request) × (t'.phase ≡ t.phase)

-- Every working task is still there.
abbrev pub Kept : List Task → List Task → Type 0
Kept tasks tasks' =
    (h : ℕ) (t : Task)
    → get_elem? tasks h ≡ some t
    → (t' : Task) × (get_elem? tasks' h ≡ some t') × SameTask t t'

Kept-at :
    (tasks : List Task) (h : ℕ) (t t' u : Task)
    → get_elem? tasks h ≡ some t
    → SameTask t t'
    → get_elem? tasks h ≡ some u
    → (u' : Task) × (get_elem? (set tasks h t') h ≡ some u') × SameTask u u'
Kept-at tasks h t t' u e same found = (
  t',
  get_elem?-set_self tasks h t' t e,
  subst (λ w. SameTask w t') (some-injective t u (sym e ∙ found)) same,
)

pub Kept-set :
    (tasks : List Task) (h : ℕ) (t t' : Task)
    → get_elem? tasks h ≡ some t
    → SameTask t t'
    → Kept tasks (set tasks h t')
Kept-set tasks h t t' e same = λ j u found. elim (Bool-cases (h == j)) [
  | inl at ↦
      let at' : h ≡ j = (==_iff h j).0 at in
      subst (λ k. (u' : Task) × (get_elem? (set tasks h t') k ≡ some u') × SameTask u u') at'
        (Kept-at tasks h t t' u e same (subst (λ k. get_elem? tasks k ≡ some u) (sym at') found))
  | inr ne ↦ (u, get_elem?-set_ne tasks h j t' (λ at. ground arith) ∙ found, (refl, refl, refl))
]

pub Kept-append : (tasks more : List Task) → Kept tasks (tasks ++ more)
Kept-append tasks more = λ h t found. (t, get_elem?-append tasks more h t found, (refl, refl, refl))

Serves-Kept :
    (owns : FrameKind → Bool) (tasks tasks' : List Task) (e : ℕ × ℕ)
    → Kept tasks tasks'
    → Serves owns tasks e
    → Serves owns tasks' e
Serves-Kept owns tasks tasks' (id, h) kept (t, found, named, owner, works) =
    let (t', found', (same_id, same_request, same_phase)) = kept h t found in
    (t', found', same_id ∙ named, ap owns same_request ∙ owner, same_phase ∙ works)

pub IsValid-Kept :
    (s : Session) (tasks : List Task)
    → IsValid s
    → Kept s.tasks tasks
    → All Bounded tasks
    → IsValid (record s { tasks = tasks })
IsValid-Kept s tasks v kept bounded = record {
  routes_ok = All-weaken _ _ s.routes (λ e. Serves-Kept has_inbox s.tasks tasks e kept) v.routes_ok;
  cancels_ok =
      All-weaken _ _ s.cancels (λ e. Serves-Kept has_cancel s.tasks tasks e kept) v.cancels_ok;
  inboxes_ok = bounded;
}

pub IsValid-set_task :
    (s : Session) (h : ℕ) (t t' : Task)
    → IsValid s
    → get_elem? s.tasks h ≡ some t
    → SameTask t t'
    → Bounded t'
    → IsValid (set_task s h t')
IsValid-set_task s h t t' v found same bounded =
    IsValid-Kept s (set s.tasks h t') v (Kept-set s.tasks h t t' found same)
      (All-set Bounded s.tasks h t' v.inboxes_ok bounded)

pub IsValid-remove :
    (s : Session) (id : ℕ)
    → IsValid s
    → IsValid (record s { routes = remove id s.routes; cancels = remove id s.cancels })
IsValid-remove s id v = record {
  routes_ok = All-remove (Serves has_inbox s.tasks) id s.routes v.routes_ok;
  cancels_ok = All-remove (Serves has_cancel s.tasks) id s.cancels v.cancels_ok;
  inboxes_ok = v.inboxes_ok;
}

pub unroute-IsValid : (s : Session) (id : ℕ) → IsValid s → IsValid (unroute s id)
unroute-IsValid s id v = record {
  routes_ok = All-remove (Serves has_inbox s.tasks) id s.routes v.routes_ok;
  cancels_ok = v.cancels_ok;
  inboxes_ok = v.inboxes_ok;
}

pub IsValid-mux : (s : Session) (m : Mux) → IsValid s → IsValid (record s { mux = m })
IsValid-mux s m v = record {
  routes_ok = v.routes_ok;
  cancels_ok = v.cancels_ok;
  inboxes_ok = v.inboxes_ok;
}
