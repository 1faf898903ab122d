-- ===== src/Server/Tests.antt =====
-- The theorems on the server, applied to concrete devices.
use side_wire_kernel_su.Base.{ℕ, ◌≡◌, ◌⊎◌, refl, true, false, List, [], ◌∷◌, replicate, All}
use side_wire_kernel_su.Text.Hex.{to_hex}
use side_wire_kernel_su.Text.Lines.{strip_prefix}
use side_wire_kernel_su.Text.Ids.{id_to_hex}
use side_wire_kernel_su.Server.Registry.{DeviceSession, DeviceMap}
use side_wire_kernel_su.Server.Sessions.{
  RegistryOp, connect, disconnect, Kept, connected, registry_run, registry_run_lem,
}
use side_wire_kernel_su.Server.Heartbeat.{
  Round, answered, failed, timed_out, device_heartbeat, is_closes, three_misses,
}
use side_wire_kernel_su.Server.Heartbeat.Misses.{device_heartbeat-three_misses}
use side_wire_kernel_su.Server.Selector.{resolve_device, selector_matches_id, selector_is_id_prefix}
use side_wire_kernel_su.Server.Resolve.{IsFront, IsNameOf, TheOne, resolve_device-eq-ok}

abbrev phone : DeviceSession
phone = record { id = replicate 16 171; name = 112 ∷ []; connection = 1 }

-- The same device again, over another connection.
abbrev phone_again : DeviceSession
phone_again = record { id = replicate 16 171; name = 112 ∷ []; connection = 2 }

abbrev tablet : DeviceSession
tablet = record { id = replicate 16 18; name = 116 ∷ []; connection = 3 }

abbrev history : List RegistryOp
history = connect phone ∷ connect tablet ∷ connect phone_again ∷ disconnect phone ∷ []

registry_run_lem_example :
    All (Kept (registry_run (record { devices = []; closed = [] }) history)) (connected history)
registry_run_lem_example = registry_run_lem (record { devices = []; closed = [] }) history

abbrev missed : Round
missed = record { closed_before = false; ping = failed; closed_after = false }

abbrev late : Round
late = record { closed_before = false; ping = timed_out; closed_after = true }

abbrev in_time : Round
in_time = record { closed_before = false; ping = answered; closed_after = false }

device_heartbeat-three_misses_example :
    is_closes (device_heartbeat 0 (missed ∷ late ∷ in_time ∷ missed ∷ missed ∷ late ∷ []))
    ≡ three_misses (missed ∷ late ∷ in_time ∷ missed ∷ missed ∷ late ∷ [])
device_heartbeat-three_misses_example =
    device_heartbeat-three_misses (missed ∷ late ∷ in_time ∷ missed ∷ missed ∷ late ∷ []) refl

abbrev both : DeviceMap
both = (replicate 16 171, phone) ∷ (replicate 16 18, tablet) ∷ []

-- `AB-ab`: the phone's id begins with it.
abbrev selector : List ℕ
selector = 65 ∷ 66 ∷ 45 ∷ 97 ∷ 98 ∷ []

resolve_device-eq-ok_example :
    TheOne (IsFront selector) (replicate 16 171, phone) both
    ⊎ (All (λ e. IsFront selector e → ⊥) both
        × TheOne (IsNameOf selector) (replicate 16 171, phone) both)
unfolding resolve_device selector_matches_id selector_is_id_prefix strip_prefix id_to_hex to_hex
resolve_device-eq-ok_example = resolve_device-eq-ok both selector (replicate 16 171, phone) refl
