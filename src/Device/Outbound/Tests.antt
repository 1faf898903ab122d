-- ===== src/Device/Outbound/Tests.antt =====
-- The theorem on the waits, applied to a host that stays away after a pairing.
use side_wire_kernel_su.Base.{ℕ, ◌≡◌, refl, none, List, [], ◌∷◌}
use side_wire_kernel_su.Device.Outbound.{Outbound, run_outbound}
use side_wire_kernel_su.Device.Outbound.Backoff.{failures, waits_from, run_outbound-failures}

abbrev just_paired : Outbound
just_paired = record { delay = 1; pairing_grace = 2; log = record { last = none; suppressed = 0 } }

abbrev times : List ℕ
times = 10 ∷ 11 ∷ 12 ∷ 13 ∷ 15 ∷ []

run_outbound-failures_example : run_outbound just_paired (failures times) ≡ waits_from 2 0 times
run_outbound-failures_example = run_outbound-failures 2 just_paired times refl refl
