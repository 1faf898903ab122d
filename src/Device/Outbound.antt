-- ===== src/Device/Outbound.antt =====
-- apps/sidewired/src/main.rs: `run_outbound`, by which a daemon connects to its host again and
-- again. An attempt is its outcome, times are seconds of the monotonic clock; `set_nodelay` is taken
-- to succeed.
pub mod Backoff
mod Tests
use side_wire_kernel_su.Base.{
  ℕ, suc, ◌+◌, ◌-◌, ◌*◌, ◌^◌, min, Bool, true, false, Option, none, some, List, [], ◌∷◌, ltb, leb,
  if◌then◌else◌,
}

abbrev pub outbound_backoff_max_secs : ℕ
outbound_backoff_max_secs = 30

abbrev pub outbound_failure_log_interval_secs : ℕ
outbound_failure_log_interval_secs = 30

-- The delay, and the grace that is left (a u8).
unfoldable pub next_outbound_delay : ℕ → ℕ → ℕ × ℕ
next_outbound_delay delay pairing_grace =
    if ltb 0 pairing_grace
    then (1, pairing_grace - 1)
    else (min (min (delay * 2) (2 ^ 64 - 1)) outbound_backoff_max_secs, pairing_grace)

-- The log of the failures: when the last one was written, and how many were not since.
pub record FailureLog : Type 0 where
  pub last : Option ℕ
  pub suppressed : ℕ  -- u32

abbrev pub is_due : Option ℕ → ℕ → Bool
is_due none now = true
is_due (some last) now = leb outbound_failure_log_interval_secs (now - last)

unfoldable pub log_outbound_failure : FailureLog → ℕ → FailureLog
log_outbound_failure log now =
    if is_due log.last now
    then record { last = some now; suppressed = 0 }
    else record log { suppressed = min (log.suppressed + 1) (2 ^ 32 - 1) }

pub record Outbound : Type 0 where
  pub delay : ℕ
  pub pairing_grace : ℕ
  pub log : FailureLog

abbrev pub first_outbound : Outbound
first_outbound = record {
  delay = 1;
  pairing_grace = 0;
  log = record { last = none; suppressed = 0 };
}

-- `established`: the handshake was completed, whatever became of the session. `failed_at`: the
-- attempt failed, at that time.
pub data Attempt : Type 0 where
  established : Attempt
  failed_at : ℕ → Attempt

-- What ends the wait.
pub data Wake : Type 0 where
  slept reconnect_notified : Wake

abbrev pub after_attempt : Outbound → Attempt → Outbound
after_attempt s established = record s { delay = 1; log = record { last = none; suppressed = 0 } }
after_attempt s (failed_at now) = record s { log = log_outbound_failure s.log now }

abbrev pub delayed : Outbound → ℕ × ℕ → Outbound
delayed s (delay, grace) = record s { delay = delay; pairing_grace = grace }

abbrev pub after_wake : Outbound → Wake → Outbound
after_wake s slept = delayed s (next_outbound_delay s.delay s.pairing_grace)
after_wake s reconnect_notified = record s { delay = 1; pairing_grace = 60 }

-- The seconds that the loop sets out to wait, turn by turn.
unfoldable pub run_outbound : Outbound → List (Attempt × Wake) → List ℕ
run_outbound s [] = []
run_outbound s ((attempt, wake) ∷ more) =
    let tried = after_attempt s attempt in tried.delay ∷ run_outbound (after_wake tried wake) more
