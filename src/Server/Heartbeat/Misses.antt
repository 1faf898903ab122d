-- ===== src/Server/Heartbeat/Misses.antt =====
-- The misses of `device_heartbeat` and the closing of a device (apps/sidewire/src/server.rs).
use side_wire_kernel_su.Base.{◌≡◌, ◌∙◌, refl, true, false, ◌||◌, List, [], ◌∷◌, arith}
use side_wire_kernel_su.Server.Heartbeat.{
  Ping, answered, failed, timed_out, Round, returns, device_heartbeat, begins_with_misses,
  three_misses, open_rounds, is_closes,
}

-- What the task does from 0, 1 and 2 misses on.
abbrev Counts : List Round → Type 0
Counts rounds =
    (is_closes (device_heartbeat 0 rounds) ≡ three_misses rounds)
    × (is_closes (device_heartbeat 1 rounds) ≡ begins_with_misses 2 rounds || three_misses rounds)
    × (is_closes (device_heartbeat 2 rounds) ≡ begins_with_misses 1 rounds || three_misses rounds)

begins-fewer :
    (rounds : List Round) → begins_with_misses 2 rounds ≡ true → begins_with_misses 1 rounds ≡ true
begins-fewer [] h = cc
begins-fewer (r ∷ rounds) h = ground arith

fewer-absorbs :
    (rounds : List Round)
    → (begins_with_misses 1 rounds || three_misses rounds)
      ≡ (begins_with_misses 1 rounds || (begins_with_misses 2 rounds || three_misses rounds))
fewer-absorbs rounds = ground (arith, begins-fewer rounds)

Counts-cons :
    (p : Ping) (r : Round) (rounds : List Round)
    → r.ping ≡ p
    → (r.closed_before || returns r.ping r.closed_after) ≡ false
    → Counts rounds
    → Counts (r ∷ rounds)
unfolding device_heartbeat
Counts-cons answered r rounds e live (c₀, c₁, c₂) = rw (live, e) (c₀, c₀, c₀)
Counts-cons failed r rounds e live (c₀, c₁, c₂) = rw (live, e) (c₁, c₂ ∙ fewer-absorbs rounds, refl)
Counts-cons timed_out r rounds e live (c₀, c₁, c₂) =
    rw (live, e) (c₁, c₂ ∙ fewer-absorbs rounds, refl)

live_round :
    (r : Round) (rounds : List Round)
    → open_rounds (r ∷ rounds) ≡ true
    → ((r.closed_before || returns r.ping r.closed_after) ≡ false) × (open_rounds rounds ≡ true)
live_round r rounds h = ground arith

counts : (rounds : List Round) → open_rounds rounds ≡ true → Counts rounds
unfolding device_heartbeat
counts [] h = (refl, refl, refl)
counts (r ∷ rounds) h =
    let (live, later) = live_round r rounds h in
    Counts-cons r.ping r rounds refl live (counts rounds later)

-- While the connection is not found closed, the heartbeat of a device closes it exactly if three
-- pings in a row are missed: an answer in between starts the count anew.
pub device_heartbeat-three_misses :
    (rounds : List Round)
    → open_rounds rounds ≡ true
    → is_closes (device_heartbeat 0 rounds) ≡ three_misses rounds
device_heartbeat-three_misses rounds h = (counts rounds h).0
