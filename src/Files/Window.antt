-- ===== src/Files/Window.antt =====
-- The window of a file transfer: `account_file_window` of apps/sidewired/src/main.rs, and what
-- `remote_pull` of apps/sidewire/src/server.rs does in its place.
use side_wire_kernel_su.Base.{ℕ, ◌+◌, ◌≤◌, ◌<◌, ◌≡◌, List, [], ◌∷◌, length}
use side_wire_kernel_su.Frame.Header.{max_payload}
use side_wire_kernel_su.Files.{
  Turn, again, finished, failed, Receiver, Pull, Received, received, recv_failed, file_flow_window,
  file_flow_update_threshold,
}

abbrev pub total : List ℕ → ℕ
total [] = 0
total (n ∷ ns) = n + total ns

-- What was granted is the first window and what was written since, except for less than the
-- threshold, which the next update will grant.
pub record Accounted (r : Receiver) : Type 0 where
  pub balance : total r.granted + r.window_consumed ≡ file_flow_window + length r.file
  pub below : r.window_consumed < file_flow_update_threshold

abbrev pub Keeps : {S : Type 0} → (S → Type 0) → Turn S → Type 0
Keeps P (again s) = P s
Keeps P (finished s) = P s
Keeps P (failed e) = Unit

abbrev pub AccountedPull : Pull → Type 0
AccountedPull p = Accounted p.receiver

-- The payload is one that the frame format allows.
abbrev pub Fits : Received → Type 0
Fits recv_failed = Unit
Fits (received f disk sent) = length f.payload ≤ max_payload
