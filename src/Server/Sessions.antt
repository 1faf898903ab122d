-- ===== src/Server/Sessions.antt =====
-- The sessions of the device map over a history of connections (apps/sidewire/src/server.rs).
use side_wire_kernel_su.Base.{
  ℕ, ◌≡◌, ◌⊎◌, inl, inr, refl, sym, ap, ◌∙◌, subst, true, ◌||◌, Bool-cases, Option, none, some,
  List, [], ◌∷◌, ◌==◌, ==_iff, ==_refl, if◌then◌else◌, bytes_eq, bytes_eq_refl, bytes_eq→eq,
  branch_intro, All, arith,
}
use side_wire_kernel_su.Server.Registry.{
  DeviceSession, DeviceMap, Registry, get_device, remove_device, insert_device, is_closed,
  same_connection, close_previous, register_device, remove_device_if_same,
}

-- A device connects, or the task that waits for the end of a connection finds it closed.
pub data RegistryOp : Type 0 where
  connect : DeviceSession → RegistryOp
  disconnect : DeviceSession → RegistryOp

unfoldable pub registry_step : Registry → RegistryOp → Registry
registry_step r (connect s) = register_device r s
registry_step r (disconnect s) =
    remove_device_if_same (record r { closed = s.connection ∷ r.closed }) s.id s

unfoldable pub registry_run : Registry → List RegistryOp → Registry
registry_run r [] = r
registry_run r (op ∷ ops) = registry_run (registry_step r op) ops

-- The connection of the session is the one that its id has in the map, or it is closed.
abbrev pub Kept : Registry → DeviceSession → Type 0
Kept r s =
    (same_connection (get_device s.id r.devices) s ≡ true)
    ⊎ (is_closed s.connection r.closed ≡ true)

-- Two ids that are equal to a third one are equal.
bytes_eq_trans : (a b c : List ℕ) → bytes_eq a b ≡ true → bytes_eq a c ≡ true → bytes_eq b c ≡ true
bytes_eq_trans a b c h k = subst (λ x. bytes_eq x c ≡ true) (bytes_eq→eq a b h) k

bytes_eq_symm : (a b : List ℕ) → bytes_eq a b ≡ true → bytes_eq b a ≡ true
bytes_eq_symm a b h = bytes_eq_trans a b a h (bytes_eq_refl a)

get_device-remove :
    (id j : List ℕ) (m : DeviceMap)
    → get_device j (remove_device id m) ≡ (if bytes_eq id j then none else get_device j m)
get_device-remove id j [] = ground arith
get_device-remove id j ((k, s) ∷ m) = ground (
  arith,
  get_device-remove id j m,
  bytes_eq_trans k id j,
  bytes_eq_trans id k j,
  bytes_eq_symm k id,
  bytes_eq_trans k j id,
  bytes_eq_trans j k id,
  bytes_eq_symm id j,
  bytes_eq_symm k j,
)

get_device-insert :
    (s : DeviceSession) (j : List ℕ) (m : DeviceMap)
    → get_device j (insert_device s m) ≡ (if bytes_eq s.id j then some s else get_device j m)
get_device-insert s j m = ground (arith, get_device-remove s.id j m)

-- What happens to the session that the new one replaces, or does not.
same_connection-eq :
    (o : Option DeviceSession) (a b : DeviceSession)
    → same_connection o a ≡ true
    → same_connection o b ≡ true
    → a.connection ≡ b.connection
same_connection-eq none a b h k = cc
same_connection-eq (some c) a b h k = ground arith

close_previous-closed :
    (o : Option DeviceSession) (s : DeviceSession) (c : ℕ) (closed : List ℕ)
    → is_closed c closed ≡ true
    → is_closed c (close_previous o s closed) ≡ true
close_previous-closed none s c closed h = h
close_previous-closed (some e) s c closed h = ground arith

close_previous-Kept :
    (o : Option DeviceSession) (old new : DeviceSession) (closed : List ℕ)
    → same_connection o old ≡ true
    → ((new.connection == old.connection) ≡ true)
      ⊎ (is_closed old.connection (close_previous o new closed) ≡ true)
close_previous-Kept none old new closed h = cc
close_previous-Kept (some e) old new closed h =
    let same : e.connection ≡ old.connection = (==_iff e.connection old.connection).0 h in
    elim (Bool-cases (e.connection == new.connection)) [
      | inl again ↦ inl (ground arith)
      | inr other ↦ inr (
          subst (λ c. is_closed c (close_previous (some e) new closed) ≡ true) same
            (branch_intro (λ cs. is_closed e.connection cs ≡ true)
              (e.connection == new.connection || is_closed e.connection closed)
              (λ gone. ground arith) (λ _. ground arith)))
    ]

register_device-Kept :
    (r : Registry) (old new : DeviceSession) → Kept r old → Kept (register_device r new) old
unfolding register_device
register_device-Kept r old new (inr gone) =
    inr (close_previous-closed (get_device new.id r.devices) new old.connection r.closed gone)
register_device-Kept r old new (inl here) = elim (Bool-cases (bytes_eq new.id old.id)) [
  | inr other ↦
      let found : get_device old.id (insert_device new r.devices) ≡ get_device old.id r.devices =
        get_device-insert new old.id r.devices ∙ rw other refl in
      inl (ap (λ o. same_connection o old) found ∙ here)
  | inl same ↦
      let found : get_device old.id (insert_device new r.devices) ≡ some new =
        get_device-insert new old.id r.devices ∙ rw same refl in
      let at_new : same_connection (get_device new.id r.devices) old ≡ true =
        ap (λ j. same_connection (get_device j r.devices) old) (bytes_eq→eq new.id old.id same)
        ∙ here in
      elim (close_previous-Kept (get_device new.id r.devices) old new r.closed at_new) [
        | inl again ↦ inl (ap (λ o. same_connection o old) found ∙ again)
        | inr gone ↦ inr gone
      ]
]

register_device-new : (r : Registry) (new : DeviceSession) → Kept (register_device r new) new
unfolding register_device
register_device-new r new =
    let found : get_device new.id (insert_device new r.devices) ≡ some new =
      get_device-insert new new.id r.devices ∙ rw (bytes_eq_refl new.id) refl in
    inl (ap (λ o. same_connection o new) found ∙ ==_refl new.connection)

disconnect-Kept :
    (r : Registry) (old gone : DeviceSession)
    → Kept r old
    → Kept (registry_step r (disconnect gone)) old
unfolding registry_step remove_device_if_same
disconnect-Kept r old gone (inr closed) =
    let later : is_closed old.connection (gone.connection ∷ r.closed) ≡ true = ground arith in
    branch_intro (λ (x : Registry). Kept x old)
      (same_connection (get_device gone.id r.devices) gone) (λ _. inr later) (λ _. inr later)
disconnect-Kept r old gone (inl here) =
    branch_intro (λ (x : Registry). Kept x old)
      (same_connection (get_device gone.id r.devices) gone)
      (λ removed. elim (Bool-cases (bytes_eq gone.id old.id)) [
        | inl same ↦
            let e : gone.id ≡ old.id = bytes_eq→eq gone.id old.id same in
            let at_old : same_connection (get_device old.id r.devices) gone ≡ true =
              ap (λ j. same_connection (get_device j r.devices) gone) (sym e) ∙ removed in
            let c : gone.connection ≡ old.connection =
              same_connection-eq (get_device old.id r.devices) gone old at_old here in
            inr (ground arith)
        | inr other ↦
            let found : get_device old.id (remove_device gone.id r.devices)
                ≡ get_device old.id r.devices =
              get_device-remove gone.id old.id r.devices ∙ rw other refl in
            inl (ap (λ o. same_connection o old) found ∙ here)
      ])
      (λ _. inl here)

registry_step-Kept :
    (r : Registry) (op : RegistryOp) (old : DeviceSession)
    → Kept r old
    → Kept (registry_step r op) old
unfolding registry_step
registry_step-Kept r (connect s) old k = register_device-Kept r old s k
registry_step-Kept r (disconnect s) old k = disconnect-Kept r old s k

registry_run-Kept :
    (r : Registry) (ops : List RegistryOp) (old : DeviceSession)
    → Kept r old
    → Kept (registry_run r ops) old
unfolding registry_run
registry_run-Kept r [] old k = k
registry_run-Kept r (op ∷ ops) old k =
    registry_run-Kept (registry_step r op) ops old (registry_step-Kept r op old k)

-- The sessions that connect.
abbrev pub connected : List RegistryOp → List DeviceSession
connected [] = []
connected (connect s ∷ ops) = s ∷ connected ops
connected (disconnect s ∷ ops) = connected ops

-- No device session is lost: whatever devices connect and disconnect, in any order and under the
-- same ids or others, each session that ever connected is served under its id by its connection,
-- or that connection is closed.
pub registry_run_lem :
    (r : Registry) (ops : List RegistryOp) → All (Kept (registry_run r ops)) (connected ops)
unfolding registry_run registry_step
registry_run_lem r [] = tt
registry_run_lem r (connect s ∷ ops) = (
  registry_run-Kept (register_device r s) ops s (register_device-new r s),
  registry_run_lem (register_device r s) ops,
)
registry_run_lem r (disconnect s ∷ ops) = registry_run_lem (registry_step r (disconnect s)) ops
