-- ===== src/Frame/Tests.antt =====
-- The theorems on frames, applied to concrete frames and streams.
use side_wire_kernel_su.Base.{
  ℕ, ◌≡◌, ◌<◌, refl, some, List, [], ◌∷◌, ◌++◌, ok, ◌>>=◌, arith, replicate,
}
use side_wire_kernel_su.Io.{Writer}
use side_wire_kernel_su.Frame.Kind.{ping, exec_stdout, try_from, match_arms}
use side_wire_kernel_su.Frame.Version.{protocol_major, protocol_compatible}
use side_wire_kernel_su.Frame.Header.{
  Frame, encode_frame_bytes, decode_frame_bytes, decode_frame_header, IsFrame,
}
use side_wire_kernel_su.Frame.RoundTrip.{decode_frame_bytes-encode_frame_bytes}
use side_wire_kernel_su.Frame.Canonical.{header_of_minor, decode_frame_bytes_canonical}
use side_wire_kernel_su.Frame.Stream.{write_frame}
use side_wire_kernel_su.Frame.Delivery.{Seen, read_frame-write_frame, write_frame-ok}

abbrev output : Frame
output = record { kind = exec_stdout; stream_id = 7; payload = 104 ∷ 105 ∷ [] }

abbrev output-IsFrame : IsFrame output
output-IsFrame = record { id_fits = omega arith; payload_fits = omega arith }

-- A stream that takes the bytes in three pieces.
abbrev slow : Writer
slow = record { sent = 1 ∷ []; accepts = some 5 ∷ some 12 ∷ some 9 ∷ [] }

decode_frame_bytes-encode_frame_bytes_example :
    (encode_frame_bytes output >>= decode_frame_bytes) ≡ ok output
decode_frame_bytes-encode_frame_bytes_example =
    decode_frame_bytes-encode_frame_bytes output output-IsFrame

read_frame-write_frame_example : Seen output slow (write_frame slow output)
read_frame-write_frame_example = read_frame-write_frame slow output output-IsFrame

write_frame-ok_example :
    (write_frame (record { sent = []; accepts = replicate 18 (some 1) }) output).0 ≡ ok tt
write_frame-ok_example =
    write_frame-ok (record { sent = []; accepts = replicate 18 (some 1) }) output output-IsFrame
      (ground arith)

-- A ping of version 1.7, which is read like one of version 1.2.
abbrev newer_ping : List ℕ
newer_ping = 83 ∷ 73 ∷ 68 ∷ 69 ∷ 1 ∷ 7 ∷ 0 ∷ 20 ∷ 0 ∷ 0 ∷ 0 ∷ 9 ∷ 0 ∷ 0 ∷ 0 ∷ 1 ∷ 42 ∷ []

abbrev newer : Frame
newer = record { kind = ping; stream_id = 9; payload = 42 ∷ [] }

newer_ping-accepted : decode_frame_bytes newer_ping ≡ ok newer
unfolding decode_frame_bytes decode_frame_header protocol_compatible protocol_major try_from
    match_arms
newer_ping-accepted = refl

decode_frame_bytes_canonical_example :
    (minor : ℕ) × (minor < 256)
    × (newer_ping ≡ header_of_minor minor ping 9 1 ++ (42 ∷ []))
    × IsFrame newer
decode_frame_bytes_canonical_example =
    decode_frame_bytes_canonical newer_ping newer (ground arith) newer_ping-accepted
