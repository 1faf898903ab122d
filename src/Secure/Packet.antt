-- ===== src/Secure/Packet.antt =====
-- crates/sidewire-protocol/src/security.rs: length-prefixed packets, the carrier of the handshake
-- messages and of the Noise records.
use side_wire_kernel_su.Base.{
  ℕ, ◌*◌, ◌%◌, ◌^◌, List, Result, ok, err, ◌>>=◌, ◌>>◌, bail_if, ltb, if◌then◌else◌, length,
}
use side_wire_kernel_su.Base.Bytes.{be32, from_be}
use side_wire_kernel_su.Io.{IoError, Writer, Written, write_parts, read_exact}
use side_wire_kernel_su.Frame.Header.{FrameError}

abbrev pub max_packet : ℕ
max_packet = 128 * 1024

abbrev pub noise_chunk : ℕ
noise_chunk = 60 * 1024

-- One constructor for each `bail!` and `context` of the packet and record code. `noise` is an error
-- of the cipher, `frame` one of the frame header, `io` one of the stream.
pub data SecureError : Type 0 where
  packet_too_large record_too_large : ℕ → SecureError
  invalid_flag : ℕ → SecureError
  empty_record exceeded_length missing_final truncated_header invalid_length noise : SecureError
  frame : FrameError → SecureError
  io : IoError → SecureError

abbrev pub from_io {ℓ} : {A : Type ℓ} → Result IoError A → Result SecureError A
from_io (ok a) = ok a
from_io (err e) = err (io e)

abbrev pub from_frame {ℓ} : {A : Type ℓ} → Result FrameError A → Result SecureError A
from_frame (ok a) = ok a
from_frame (err e) = err (frame e)

abbrev pub Sent : Type 0
Sent = Result SecureError (Unit {0}) × Writer

abbrev pub io_sent : Written → Sent
io_sent (r, w) = (from_io r, w)

-- The final `flush` has no effect on the bytes that are sent.
unfoldable pub write_raw_packet : Writer → List ℕ → Sent
write_raw_packet w bytes =
    if ltb max_packet (length bytes)
    then (err (packet_too_large (length bytes)), w)
    else io_sent (write_parts (be32 (length bytes % 2 ^ 32)) bytes 0 0 w.sent w.accepts)

-- `read_raw_packet_into` and `read_raw_packet`: the packet, and the bytes that follow it.
unfoldable pub read_raw_packet : List ℕ → Result SecureError (List ℕ × List ℕ)
read_raw_packet input = do
  (header, input₁) ← from_io (read_exact 4 input)
  let len = from_be header
  bail_if (ltb max_packet len) (packet_too_large len)
  from_io (read_exact len input₁)
