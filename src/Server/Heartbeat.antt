-- ===== src/Server/Heartbeat.antt =====
-- apps/sidewire/src/server.rs: `device_heartbeat`.
pub mod Misses
use side_wire_kernel_su.Base.{
  ℕ, zero, suc, ◌+◌, ◌≡◌, ◌<◌, ◌≤◌, refl, Bool, true, false, not, ◌&&◌, ◌||◌, List, [], ◌∷◌, leb,
  if◌then◌else◌, arith, branch_intro,
}

abbrev pub heartbeat_max_misses : ℕ
heartbeat_max_misses = 3

-- A ping is answered, fails, or is not answered in time. `closed_before` and `closed_after` say
-- whether the connection is found closed before the ping and after it failed.
pub data Ping : Type 0 where
  answered failed timed_out : Ping

pub record Round : Type 0 where
  pub closed_before : Bool
  pub ping : Ping
  pub closed_after : Bool

-- The task goes on with some number of misses, has ended, or has closed the device.
pub data Heartbeat : Type 0 where
  waiting : ℕ → Heartbeat
  ended closes : Heartbeat

-- The misses after a round, when the connection is not found closed.
abbrev pub misses_after : Ping → ℕ → ℕ
misses_after answered misses = 0
misses_after failed misses = misses + 1
misses_after timed_out misses = misses + 1

abbrev pub returns : Ping → Bool → Bool
returns failed closed_after = closed_after
returns _ closed_after = false

unfoldable pub device_heartbeat : ℕ → List Round → Heartbeat
device_heartbeat misses [] = waiting misses
device_heartbeat misses (r ∷ rounds) =
    let misses' = misses_after r.ping misses in
    let rest = device_heartbeat misses' rounds in
    if r.closed_before || returns r.ping r.closed_after
    then ended
    else if leb heartbeat_max_misses misses'
    then closes
    else rest

abbrev pub is_miss : Ping → Bool
is_miss answered = false
is_miss failed = true
is_miss timed_out = true

-- The pings of the rounds begin with so many misses.
abbrev pub begins_with_misses : ℕ → List Round → Bool
begins_with_misses zero rounds = true
begins_with_misses (suc n) [] = false
begins_with_misses (suc n) (r ∷ rounds) =
    let rest = begins_with_misses n rounds in is_miss r.ping && rest

-- Somewhere three pings in a row are missed.
abbrev pub three_misses : List Round → Bool
three_misses [] = false
three_misses (r ∷ rounds) =
    let later = three_misses rounds in begins_with_misses 3 (r ∷ rounds) || later

-- The connection is not found closed in any of the rounds.
abbrev pub open_rounds : List Round → Bool
open_rounds [] = true
open_rounds (r ∷ rounds) =
    let rest = open_rounds rounds in not (r.closed_before || returns r.ping r.closed_after) && rest

abbrev pub is_closes : Heartbeat → Bool
is_closes closes = true
is_closes _ = false
