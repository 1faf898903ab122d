-- ===== src/Frame/Kind.antt =====
-- crates/sidewire-protocol/src/frame.rs: `FrameKind`, its discriminants and `TryFrom<u16>`.
use side_wire_kernel_su.Base.{ℕ, List, [], ◌∷◌, Result, ok, err, ◌==◌, if◌then◌else◌}

pub data FrameKind : Type 0 where
  hello hello_ack exec_request exec_stdout exec_stderr exec_exit push_request file_chunk : FrameKind
  file_end pull_request file_meta proxy_start_request proxy_start_ack pty_open pty_open_ack :
      FrameKind
  pty_input pty_output pty_resize pty_exit pty_close pty_complete pty_complete_result : FrameKind
  clipboard_get clipboard_set clipboard_clear clipboard_data ping pong stream_cancel : FrameKind
  stream_window_update error : FrameKind

-- `bail!("unknown frame kind {other}")`
pub data UnknownKind : Type 0 where
  unknown_kind : ℕ → UnknownKind

-- `kind as u16`
unfoldable pub code : FrameKind → ℕ
code hello = 1
code hello_ack = 2
code exec_request = 10
code exec_stdout = 11
code exec_stderr = 12
code exec_exit = 13
code push_request = 30
code file_chunk = 31
code file_end = 32
code pull_request = 33
code file_meta = 34
code proxy_start_request = 40
code proxy_start_ack = 41
code pty_open = 50
code pty_open_ack = 51
code pty_input = 52
code pty_output = 53
code pty_resize = 54
code pty_exit = 55
code pty_close = 56
code pty_complete = 57
code pty_complete_result = 58
code clipboard_get = 60
code clipboard_set = 61
code clipboard_clear = 62
code clipboard_data = 63
code ping = 20
code pong = 21
code stream_cancel = 22
code stream_window_update = 23
code error = 255

-- The arms of the `match`, in the order of the source.
abbrev pub arms : List (ℕ × FrameKind)
arms =
    (1, hello)
    ∷ (2, hello_ack)
    ∷ (10, exec_request)
    ∷ (11, exec_stdout)
    ∷ (12, exec_stderr)
    ∷ (13, exec_exit)
    ∷ (30, push_request)
    ∷ (31, file_chunk)
    ∷ (32, file_end)
    ∷ (33, pull_request)
    ∷ (34, file_meta)
    ∷ (40, proxy_start_request)
    ∷ (41, proxy_start_ack)
    ∷ (50, pty_open)
    ∷ (51, pty_open_ack)
    ∷ (52, pty_input)
    ∷ (53, pty_output)
    ∷ (54, pty_resize)
    ∷ (55, pty_exit)
    ∷ (56, pty_close)
    ∷ (57, pty_complete)
    ∷ (58, pty_complete_result)
    ∷ (60, clipboard_get)
    ∷ (61, clipboard_set)
    ∷ (62, clipboard_clear)
    ∷ (63, clipboard_data)
    ∷ (20, ping)
    ∷ (21, pong)
    ∷ (22, stream_cancel)
    ∷ (23, stream_window_update)
    ∷ (255, error)
    ∷ []

unfoldable pub match_arms : List (ℕ × FrameKind) → ℕ → Result UnknownKind FrameKind
match_arms [] value = err (unknown_kind value)
match_arms ((n, kind) ∷ rest) value = if value == n then ok kind else match_arms rest value

unfoldable pub try_from : ℕ → Result UnknownKind FrameKind
unfolding match_arms
try_from value = match_arms arms value

pub FrameKind-discrete : Discrete FrameKind
FrameKind-discrete = hlevel
