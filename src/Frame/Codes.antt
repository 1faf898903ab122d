-- ===== src/Frame/Codes.antt =====
-- The discriminants of `FrameKind` and `TryFrom<u16>`.
use side_wire_kernel_su.Base.{ℕ, ◌<◌, ◌≡◌, refl, List, [], ◌∷◌, ok, All, arith}
use side_wire_kernel_su.Frame.Kind.{
  FrameKind, code, arms, match_arms, try_from, hello, hello_ack, exec_request, exec_stdout,
  exec_stderr, exec_exit, push_request, file_chunk, file_end, pull_request, file_meta,
  proxy_start_request, proxy_start_ack, pty_open, pty_open_ack, pty_input, pty_output, pty_resize,
  pty_exit, pty_close, pty_complete, pty_complete_result, clipboard_get, clipboard_set,
  clipboard_clear, clipboard_data, ping, pong, stream_cancel, stream_window_update, error,
}

pub try_from-code : (kind : FrameKind) → try_from (code kind) ≡ ok kind
unfolding try_from code
try_from-code hello = refl
try_from-code hello_ack = refl
try_from-code exec_request = refl
try_from-code exec_stdout = refl
try_from-code exec_stderr = refl
try_from-code exec_exit = refl
try_from-code push_request = refl
try_from-code file_chunk = refl
try_from-code file_end = refl
try_from-code pull_request = refl
try_from-code file_meta = refl
try_from-code proxy_start_request = refl
try_from-code proxy_start_ack = refl
try_from-code pty_open = refl
try_from-code pty_open_ack = refl
try_from-code pty_input = refl
try_from-code pty_output = refl
try_from-code pty_resize = refl
try_from-code pty_exit = refl
try_from-code pty_close = refl
try_from-code pty_complete = refl
try_from-code pty_complete_result = refl
try_from-code clipboard_get = refl
try_from-code clipboard_set = refl
try_from-code clipboard_clear = refl
try_from-code clipboard_data = refl
try_from-code ping = refl
try_from-code pong = refl
try_from-code stream_cancel = refl
try_from-code stream_window_update = refl
try_from-code error = refl

pub code-lt : (kind : FrameKind) → code kind < 256
unfolding code
code-lt kind = ground arith

code-match_arms :
    (rows : List (ℕ × FrameKind)) (value : ℕ) (kind : FrameKind)
    → All (λ row. code row.1 ≡ row.0) rows
    → match_arms rows value ≡ ok kind
    → code kind ≡ value
unfolding match_arms
code-match_arms [] value kind h e = cc
code-match_arms ((n, k) ∷ rest) value kind (hk, hs) e =
    ground (arith, code-match_arms rest value kind hs)

arms_codes : All (λ row. code row.1 ≡ row.0) arms
unfolding code
arms_codes = ground arith

-- A value that is accepted is the discriminant of the kind that it is read as.
pub code-try_from : (value : ℕ) (kind : FrameKind) → try_from value ≡ ok kind → code kind ≡ value
unfolding try_from
code-try_from value kind h = code-match_arms arms value kind arms_codes h
