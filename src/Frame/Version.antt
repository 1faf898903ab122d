-- ===== src/Frame/Version.antt =====
-- crates/sidewire-protocol/src/frame.rs: the protocol version, and how two peers agree on one.
use Prim.Native.Nat.{bit_or}
use side_wire_kernel_su.Base.{ℕ, ◌*◌, ◌/◌, ◌%◌, Bool, Option, none, some, ltb, ◌==◌, if◌then◌else◌}

abbrev pub protocol_major_number : ℕ
protocol_major_number = 1

abbrev pub protocol_minor_number : ℕ
protocol_minor_number = 2

-- `VERSION`, a u16
abbrev pub version : ℕ
version = bit_or (protocol_major_number * 256) protocol_minor_number

-- `(version >> 8) as u8`
unfoldable pub protocol_major : ℕ → ℕ
protocol_major v = v / 256 % 256

-- `version as u8`
unfoldable pub protocol_minor : ℕ → ℕ
protocol_minor v = v % 256

unfoldable pub protocol_compatible : ℕ → Bool
unfolding protocol_major
protocol_compatible v = protocol_major v == protocol_major_number

unfoldable pub negotiated_version : ℕ → Option ℕ
unfolding protocol_compatible protocol_minor
negotiated_version peer =
    if protocol_compatible peer
    then some (
        bit_or (protocol_major_number * 256) (
          if ltb protocol_minor_number (protocol_minor peer)
          then protocol_minor_number
          else protocol_minor peer))
    else none
