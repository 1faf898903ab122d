-- ===== src/Host/Flow.antt =====
-- apps/sidewire/src/transport.rs: `FlowCredit`, the bytes that the peer has granted a stream.
-- Both daemons hold it: apps/sidewired/src/transport.rs has the same `add` and `try_take`.
pub mod Conservation
use side_wire_kernel_su.Base.{
  ℕ, ◌+◌, ◌-◌, ◌*◌, ◌^◌, ◌≤◌, Bool, true, false, List, [], ◌∷◌, Result, ok, err, ◌>>=◌, ◌>>◌,
  bail_if, leb, ltb, ◌==◌, if◌then◌else◌,
}

abbrev pub max_flow_credit : ℕ
max_flow_credit = 16 * 1024 * 1024

pub data FlowError : Type 0 where
  zero_grant overflow exceeds_limit : FlowError

unfoldable pub new_credit : ℕ
new_credit = 0

-- `add`: the new credit. `checked_add` on a usize of 64 bits.
unfoldable pub add : ℕ → ℕ → Result FlowError ℕ
add available bytes = do
  bail_if (bytes == 0) zero_grant
  bail_if (leb (2 ^ 64) (available + bytes)) overflow
  let updated = available + bytes
  bail_if (ltb max_flow_credit updated) exceeds_limit
  ok updated

-- `try_take`: whether the bytes were there, and the new credit.
unfoldable pub try_take : ℕ → ℕ → Bool × ℕ
try_take available bytes =
    if ltb available bytes then (false, available) else (true, available - bytes)
