-- ===== src/Frame/Negotiation.antt =====
-- What two peers agree on by `negotiated_version`.
use side_wire_kernel_su.Base.{ℕ, ◌+◌, ◌%◌, ◌≤◌, ◌<◌, ◌≡◌, ◌≢◌, ◌⊎◌, none, some, min, arith}
use side_wire_kernel_su.Base.Bytes.{bit_or_256}
use side_wire_kernel_su.Frame.Version.{version, protocol_major, negotiated_version}

-- The version that is agreed on with a compatible peer has major 1 and the lesser minor of the two
-- sides, so it is no newer than either side; with another peer there is none.
pub negotiated_version_lem :
    (peer : ℕ)
    → peer < 65536
    → ((protocol_major peer ≡ 1)
        × (negotiated_version peer ≡ some (256 + min 2 (peer % 256)))
        × (256 + min 2 (peer % 256) ≤ version)
        × (256 + min 2 (peer % 256) ≤ peer))
      ⊎ ((protocol_major peer ≢ 1) × (negotiated_version peer ≡ none))
unfolding negotiated_version
negotiated_version_lem peer h = ground (arith, bit_or_256 (peer % 256), bit_or_256 2)
