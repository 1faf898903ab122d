-- ===== src/Host/Flow/Conservation.antt =====
-- `FlowCredit` over a history of grants and takes.
use side_wire_kernel_su.Base.{
  ℕ, ◌+◌, ◌≤◌, ◌<◌, ◌^◌, ◌≡◌, Bool, true, false, List, [], ◌∷◌, Result, ok, err, arith, ◌⊎◌,
}
use side_wire_kernel_su.Host.Flow.{max_flow_credit, FlowError, new_credit, add, try_take}

pub data FlowOp : Type 0 where
  grant : ℕ → FlowOp
  take : ℕ → FlowOp

-- The credit, with the totals of what the peer granted and of what the sender took.
pub record Ledger : Type 0 where
  pub available : ℕ
  pub granted : ℕ
  pub taken : ℕ

after_grant : Ledger → ℕ → Result FlowError ℕ → Ledger
after_grant l bytes (ok updated) = record l { available = updated; granted = l.granted + bytes }
after_grant l bytes (err e) = l

after_take : Ledger → ℕ → Bool × ℕ → Ledger
after_take l bytes (true, left) = record l { available = left; taken = l.taken + bytes }
after_take l bytes (false, left) = record l { available = left }

pub flow_step : Ledger → FlowOp → Ledger
unfolding after_grant after_take
flow_step l (grant bytes) = after_grant l bytes (add l.available bytes)
flow_step l (take bytes) = after_take l bytes (try_take l.available bytes)

unfoldable pub flow_run : Ledger → List FlowOp → Ledger
flow_run l [] = l
flow_run l (op ∷ ops) = flow_run (flow_step l op) ops

unfoldable pub new_ledger : Ledger
new_ledger = record { available = new_credit; granted = 0; taken = 0 }

pub record IsBalanced (l : Ledger) : Type 0 where
  pub balance : l.available + l.taken ≡ l.granted
  pub limit : l.available ≤ max_flow_credit

flow_step-IsBalanced : (l : Ledger) (op : FlowOp) → IsBalanced l → IsBalanced (flow_step l op)
unfolding flow_step add try_take
flow_step-IsBalanced l (grant bytes) h = ground arith
flow_step-IsBalanced l (take bytes) h = ground arith

flow_run-IsBalanced : (l : Ledger) (ops : List FlowOp) → IsBalanced l → IsBalanced (flow_run l ops)
unfolding flow_run
flow_run-IsBalanced l [] h = h
flow_run-IsBalanced l (op ∷ ops) h =
    flow_run-IsBalanced (flow_step l op) ops (flow_step-IsBalanced l op h)

-- For every sequence of window updates and sends on a new stream: the credit is what was granted
-- less what was taken, so no more bytes are sent than the peer granted, and it stays in its limit.
pub flow_conserved : (ops : List FlowOp) → IsBalanced (flow_run new_ledger ops)
unfolding new_ledger new_credit
flow_conserved ops = flow_run-IsBalanced new_ledger ops (ground arith)

-- Within the limit, a grant of a u32 is added, or refused because it is empty, or refused because
-- it would pass the limit; the test on overflow never fires.
pub add_cases :
    (available bytes : ℕ)
    → available ≤ max_flow_credit
    → bytes < 2 ^ 32
    → ((1 ≤ bytes)
        × (available + bytes ≤ max_flow_credit)
        × (add available bytes ≡ ok (available + bytes)))
      ⊎ ((bytes ≡ 0) × (add available bytes ≡ err FlowError.zero_grant))
      ⊎ ((max_flow_credit < available + bytes)
          × (add available bytes ≡ err FlowError.exceeds_limit))
unfolding add
add_cases available bytes h u32 = ground arith
