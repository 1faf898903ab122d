-- ===== src/Frame/Stream.antt =====
-- crates/sidewire-protocol/src/frame.rs: frames on a byte stream, and the frame constructor.
use side_wire_kernel_su.Base.{ℕ, List, Result, ok, err, ◌>>=◌, length}
use side_wire_kernel_su.Io.{IoError, Writer, write_parts, read_exact}
use side_wire_kernel_su.Frame.Kind.{FrameKind}
use side_wire_kernel_su.Frame.Header.{
  Frame, FrameError, io, header_len, frame_header, decode_frame_header,
}

-- `?` on an I/O error
abbrev pub from_io {ℓ} : {A : Type ℓ} → Result IoError A → Result FrameError A
from_io (ok a) = ok a
from_io (err e) = err (io e)

-- The bytes go out by the loop of `write_parts`; a header that cannot be built sends nothing.
unfoldable pub send_parts :
    Writer → List ℕ → Result FrameError (List ℕ) → Result FrameError (Unit {0}) × Writer
send_parts w payload (err e) = (err e, w)
send_parts w payload (ok header) =
    let (result, w') = write_parts header payload 0 0 w.sent w.accepts in (from_io result, w')

unfoldable pub write_raw_frame :
    Writer → FrameKind → ℕ → List ℕ → Result FrameError (Unit {0}) × Writer
unfolding send_parts
write_raw_frame w kind stream_id payload =
    send_parts w payload (frame_header kind stream_id (length payload))

unfoldable pub write_frame : Writer → Frame → Result FrameError (Unit {0}) × Writer
unfolding write_raw_frame
write_frame w frame = write_raw_frame w frame.kind frame.stream_id frame.payload

-- The frame, and the bytes of the stream that follow it.
unfoldable pub read_frame : List ℕ → Result FrameError (Frame × List ℕ)
read_frame input = do
  (header, input₁) ← from_io (read_exact header_len input)
  (kind, stream_id, payload_len) ← decode_frame_header header
  (payload, input₂) ← from_io (read_exact payload_len input₁)
  ok (record { kind = kind; stream_id = stream_id; payload = payload }, input₂)

unfoldable pub raw_frame : FrameKind → ℕ → List ℕ → Frame
raw_frame kind stream_id payload = record { kind = kind; stream_id = stream_id; payload = payload }
