-- ===== src/Frame/RoundTrip.antt =====
-- The encoder and the decoder of crates/sidewire-protocol/src/frame.rs.
use side_wire_kernel_su.Base.{
  ℕ, ◌%◌, ◌^◌, ◌≤◌, ◌<◌, ◌≡◌, List, ◌++◌, ok, ◌>>=◌, le→ltb, length, arith,
}
use side_wire_kernel_su.Base.Bytes.{be16, be32, from_be}
use side_wire_kernel_su.Frame.Kind.{FrameKind, code}
use side_wire_kernel_su.Frame.Codes.{try_from-code, code-lt}
use side_wire_kernel_su.Frame.Version.{version, protocol_compatible}
use side_wire_kernel_su.Frame.Header.{
  Frame, magic, header_len, max_payload, frame_header, decode_frame_header, encode_frame_bytes,
  decode_frame_bytes, IsFrame,
}

-- The sixteen bytes of a header of this version.
abbrev pub header_bytes : FrameKind → ℕ → ℕ → List ℕ
header_bytes kind stream_id n =
    magic ++ (be16 version ++ (be16 (code kind) ++ (be32 stream_id ++ be32 n)))

pub from_be-be32 : (n : ℕ) → n < 2 ^ 32 → from_be (be32 n) ≡ n
from_be-be32 n h = omega arith

pub from_be-be16 : (n : ℕ) → n < 2 ^ 16 → from_be (be16 n) ≡ n
from_be-be16 n h = omega arith

pub frame_header_lem :
    (kind : FrameKind) (stream_id n : ℕ)
    → n ≤ max_payload
    → frame_header kind stream_id n ≡ ok (header_bytes kind stream_id n)
unfolding frame_header
frame_header_lem kind stream_id n h =
    let small : n % 2 ^ 32 ≡ n = omega arith in rw (le→ltb max_payload n h, small)

pub decode_frame_header-header_bytes :
    (kind : FrameKind) (stream_id n : ℕ)
    → stream_id < 2 ^ 32
    → n ≤ max_payload
    → decode_frame_header (header_bytes kind stream_id n) ≡ ok (kind, stream_id, n)
unfolding decode_frame_header protocol_compatible
decode_frame_header-header_bytes kind stream_id n hs hn =
    rw (from_be-be16 (code kind) (omega (arith, code-lt kind)), try_from-code kind)
      (rw (from_be-be32 n (omega arith), from_be-be32 stream_id hs, le→ltb max_payload n hn))

pub encode_frame_bytes_lem :
    (f : Frame)
    → IsFrame f
    → encode_frame_bytes f ≡ ok (header_bytes f.kind f.stream_id (length f.payload) ++ f.payload)
unfolding encode_frame_bytes
encode_frame_bytes_lem f h = rw (frame_header_lem f.kind f.stream_id _ h.payload_fits)

decode_frame_bytes-header_bytes :
    (f : Frame)
    → IsFrame f
    → decode_frame_bytes (header_bytes f.kind f.stream_id (length f.payload) ++ f.payload) ≡ ok f
unfolding decode_frame_bytes
decode_frame_bytes-header_bytes f h =
    rw
      (
        le→ltb (length (header_bytes f.kind f.stream_id (length f.payload) ++ f.payload)) header_len
            (omega arith),
        decode_frame_header-header_bytes f.kind f.stream_id _ h.id_fits h.payload_fits,
      )
      (ground arith)

-- A frame that fits the format is read back from its encoding.
pub decode_frame_bytes-encode_frame_bytes :
    (f : Frame) → IsFrame f → (encode_frame_bytes f >>= decode_frame_bytes) ≡ ok f
decode_frame_bytes-encode_frame_bytes f h =
    rw (encode_frame_bytes_lem f h) (decode_frame_bytes-header_bytes f h)
