-- ===== src/Device/Pairing/Guard.antt =====
-- apps/sidewired/src/security.rs: `PairingGuard`. An `Instant` is a number of nanoseconds, an
-- address a number; a map entry is the attempts of its address, the oldest first.
use side_wire_kernel_su.Base.{
  ℕ, ◌-◌, ◌*◌, Bool, true, false, Option, none, some, List, [], ◌∷◌, ◌++◌, ltb, leb, if◌then◌else◌,
  length,
}
use side_wire_kernel_su.Base.Assoc.{lookup, insert}

abbrev pub max_pairing_attempts_per_ip : ℕ
max_pairing_attempts_per_ip = 5

abbrev pub pairing_rate_window : ℕ
pairing_rate_window = 60 * 1000000000

pub record PairingGuard : Type 0 where
  pub per_ip : List (ℕ × List ℕ)
  pub current_pin : Option (List ℕ)
  pub failures : ℕ

unfoldable pub empty_guard : PairingGuard
empty_guard = record { per_ip = []; current_pin = none; failures = 0 }

-- `pop_front` while the oldest attempt is older than the window.
unfoldable pub expire : ℕ → List ℕ → List ℕ
expire now [] = []
expire now (at ∷ attempts) =
    let rest = expire now attempts in
    if ltb pairing_rate_window (now - at) then rest else at ∷ attempts

-- `entry(ip).or_default()`
abbrev pub or_default : Option (List ℕ) → List ℕ
or_default none = []
or_default (some attempts) = attempts

unfoldable pub attempts_of : PairingGuard → ℕ → List ℕ
attempts_of g ip = or_default (lookup ip g.per_ip)

-- The decision on an address's attempts that are left, and the attempts after it.
unfoldable pub admit : ℕ → List ℕ → Bool × List ℕ
admit now attempts =
    if leb max_pairing_attempts_per_ip (length attempts)
    then (false, attempts)
    else (true, attempts ++ (now ∷ []))

unfoldable pub allow_ip : PairingGuard → ℕ → ℕ → Bool × PairingGuard
allow_ip g now ip =
    let (allowed, attempts) = admit now (expire now (attempts_of g ip)) in
    (allowed, record g { per_ip = insert ip attempts g.per_ip })

unfoldable pub clear_success : PairingGuard → PairingGuard
clear_success g = record g { current_pin = none; failures = 0 }
