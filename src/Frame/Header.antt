-- ===== src/Frame/Header.antt =====
-- crates/sidewire-protocol/src/frame.rs: `Frame`, its header, and the codec over byte strings.
use side_wire_kernel_su.Base.{
  ℕ, ◌+◌, ◌*◌, ◌%◌, ◌^◌, ◌≤◌, ◌<◌, not, List, [], ◌∷◌, ◌++◌, Result, ok, err, ◌>>=◌, ◌>>◌, bail_if,
  ltb, ◌==◌, length, take, drop, slice, bytes_eq,
}
use side_wire_kernel_su.Base.Bytes.{be16, be32, from_be}
use side_wire_kernel_su.Io.{IoError}
use side_wire_kernel_su.Frame.Kind.{FrameKind, UnknownKind, unknown_kind, code, try_from}
use side_wire_kernel_su.Frame.Version.{version, protocol_compatible}

-- `*b"SIDE"`
abbrev pub magic : List ℕ
magic = b'S' ∷ b'I' ∷ b'D' ∷ b'E' ∷ []

abbrev pub header_len : ℕ
header_len = 16

abbrev pub max_payload : ℕ
max_payload = 16 * 1024 * 1024

pub record Frame : Type 0 where
  pub kind : FrameKind
  pub stream_id : ℕ  -- u32
  pub payload : List ℕ

-- One constructor for each `bail!` of the module, and the I/O errors that it passes on.
pub data FrameError : Type 0 where
  payload_too_large : ℕ → FrameError
  invalid_magic : FrameError
  unsupported_version : ℕ → FrameError
  unknown_frame_kind : ℕ → FrameError
  truncated_frame invalid_length : FrameError
  io : IoError → FrameError

-- `?` on the error of `FrameKind::try_from`
abbrev pub from_kind {ℓ} : {A : Type ℓ} → Result UnknownKind A → Result FrameError A
from_kind (ok a) = ok a
from_kind (err (unknown_kind n)) = err (unknown_frame_kind n)

unfoldable pub frame_header : FrameKind → ℕ → ℕ → Result FrameError (List ℕ)
frame_header kind stream_id payload_len = do
  bail_if (ltb max_payload payload_len) (payload_too_large payload_len)
  ok (
      magic
      ++ (be16 version ++ (be16 (code kind) ++ (be32 stream_id ++ be32 (payload_len % 2 ^ 32)))))

unfoldable pub decode_frame_header : List ℕ → Result FrameError (FrameKind × ℕ × ℕ)
decode_frame_header header = do
  bail_if (not (bytes_eq (take 4 header) magic)) invalid_magic
  let v = from_be (slice header 4 6)
  bail_if (not (protocol_compatible v)) (unsupported_version v)
  kind ← from_kind (try_from (from_be (slice header 6 8)))
  let stream_id = from_be (slice header 8 12)
  let payload_len = from_be (slice header 12 16)
  bail_if (ltb max_payload payload_len) (payload_too_large payload_len)
  ok (kind, stream_id, payload_len)

unfoldable pub encode_frame_bytes : Frame → Result FrameError (List ℕ)
encode_frame_bytes frame = do
  header ← frame_header frame.kind frame.stream_id (length frame.payload)
  ok (header ++ frame.payload)

unfoldable pub decode_frame_bytes : List ℕ → Result FrameError Frame
decode_frame_bytes bytes = do
  bail_if (ltb (length bytes) header_len) truncated_frame
  (kind, stream_id, payload_len) ← decode_frame_header (take header_len bytes)
  bail_if (not (length bytes == header_len + payload_len)) invalid_length
  ok (record { kind = kind; stream_id = stream_id; payload = drop header_len bytes })

-- A frame that fits the format: a u32 stream id and a payload within the limit.
pub record IsFrame (f : Frame) : Type 0 where
  pub id_fits : f.stream_id < 2 ^ 32
  pub payload_fits : length f.payload ≤ max_payload
