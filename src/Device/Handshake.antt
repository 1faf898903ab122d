-- ===== src/Device/Handshake.antt =====
-- apps/sidewired/src/security.rs: `accept_connection` and `connect_connection`, the security
-- handshake of a connection. The packets that are read are arguments; what is written is the
-- decision that the peer gets.
pub mod NoDowngrade
use side_wire_kernel_su.Base.{
  ℕ, zero, suc, ◌+◌, ◌/◌, ◌%◌, ◌≡◌, refl, Bool, true, false, not, Bool-cases, Option, none, some,
  List, [], ◌∷◌, ◌++◌, Result, ok, err, ltb, if◌then◌else◌, inl, inr, branch_intro, arith,
}
use side_wire_kernel_su.Frame.Version.{protocol_compatible, negotiated_version}
use side_wire_kernel_su.Text.Ids.{id_to_hex}
use side_wire_kernel_su.Device.Pairing.Hosts.{Files, KeyError, paired_host_secret}

pub data SecurityMode : Type 0 where
  secure insecure : SecurityMode

abbrev pub same_mode : SecurityMode → SecurityMode → Bool
same_mode secure secure = true
same_mode secure insecure = false
same_mode insecure secure = false
same_mode insecure insecure = true

-- The banner of the one side and the hello of the other have the same fields.
pub record PeerHello : Type 0 where
  pub node_id : List ℕ
  pub security : SecurityMode
  pub protocol_version : ℕ

pub data Refusal : Type 0 where
  protocol_mismatch mode_mismatch not_paired bad_key no_version noise_failed rejected : Refusal

-- A number in decimal digits, of which a u16 has five at most.
unfoldable pub decimal : ℕ → ℕ → List ℕ
decimal zero n = []
decimal (suc fuel) n =
    let front = decimal fuel (n / 10) in
    if ltb n 10 then (48 + n) ∷ [] else front ++ ((48 + n % 10) ∷ [])

abbrev pub prologue_front : List ℕ
prologue_front = b'S' ∷ b'i' ∷ b'd' ∷ b'e' ∷ b'W' ∷ b'i' ∷ b'r' ∷ b'e' ∷ b'/' ∷ b'v' ∷ []

-- `SideWire/v{}/{}->{}`
unfoldable pub security_prologue : ℕ → List ℕ → List ℕ → List ℕ
security_prologue version initiator responder =
    prologue_front
    ++ (decimal 5 version
        ++ ((b'/' ∷ []) ++ (id_to_hex initiator ++ ((b'-' ∷ b'>' ∷ []) ++ id_to_hex responder))))

-- The Noise handshake of the `snow` crate with the peer, for a key and a prologue.
module _ {Session : Type 0} (handshake : List ℕ → List ℕ → Option Session) where
  pub record ConnectionSecurity : Type 0 where
    pub peer_id : List ℕ
    pub noise : Option Session
    pub shared_secret : Option (List ℕ)

  -- What was written to the peer as a decision, if anything, and the outcome.
  abbrev pub Accepted : Type 0
  Accepted = Option Bool × Result Refusal ConnectionSecurity

  abbrev pub with_session : List ℕ → List ℕ → Option Session → Result Refusal ConnectionSecurity
  with_session peer_id secret none = err noise_failed
  with_session peer_id secret (some session) =
      ok (record { peer_id = peer_id; noise = some session; shared_secret = some secret })

  abbrev pub with_version :
      (ℕ → List ℕ) → List ℕ → List ℕ → Option ℕ → Result Refusal ConnectionSecurity
  with_version prologue peer_id secret none = err no_version
  with_version prologue peer_id secret (some version) =
      with_session peer_id secret (handshake secret (prologue version))

  -- `secret` to `noise`: the handshake, or a plain connection.
  abbrev pub establish :
      (ℕ → List ℕ) → PeerHello → Option (List ℕ) → Result Refusal ConnectionSecurity
  establish prologue peer none =
      ok (record { peer_id = peer.node_id; noise = none; shared_secret = none })
  establish prologue peer (some secret) =
      with_version prologue peer.node_id secret (negotiated_version peer.protocol_version)

  abbrev pub accept_secret : (ℕ → List ℕ) → PeerHello → Result KeyError (Option (List ℕ)) → Accepted
  accept_secret prologue hello (err e) = (none, err bad_key)
  accept_secret prologue hello (ok none) = (some false, err not_paired)
  accept_secret prologue hello (ok (some secret)) =
      (some true, establish prologue hello (some secret))

  abbrev pub accept_mode : SecurityMode → (ℕ → List ℕ) → Option Files → PeerHello → Accepted
  accept_mode secure prologue pairs hello =
      accept_secret prologue hello (paired_host_secret pairs hello.node_id)
  accept_mode insecure prologue pairs hello = (some true, establish prologue hello none)

  unfoldable pub accept_connection : List ℕ → SecurityMode → Option Files → PeerHello → Accepted
  unfolding security_prologue
  accept_connection device_id mode pairs hello =
      if not (protocol_compatible hello.protocol_version)
      then (some false, err protocol_mismatch)
      else if not (same_mode hello.security mode)
      then (some false, err mode_mismatch)
      else accept_mode mode (λ version. security_prologue version hello.node_id device_id) pairs
          hello

  abbrev pub connect_secret :
      (ℕ → List ℕ)
      → PeerHello
      → Result KeyError (Option (List ℕ))
      → Result Refusal ConnectionSecurity
  connect_secret prologue banner (err e) = err bad_key
  connect_secret prologue banner (ok none) = err not_paired
  connect_secret prologue banner (ok (some secret)) = establish prologue banner (some secret)

  abbrev pub connect_mode :
      SecurityMode → (ℕ → List ℕ) → Option Files → PeerHello → Result Refusal ConnectionSecurity
  connect_mode secure prologue pairs banner =
      connect_secret prologue banner (paired_host_secret pairs banner.node_id)
  connect_mode insecure prologue pairs banner = establish prologue banner none

  -- `accepted` is the peer's decision on the hello.
  unfoldable pub connect_connection :
      List ℕ → SecurityMode → Option Files → PeerHello → Bool → Result Refusal ConnectionSecurity
  unfolding security_prologue
  connect_connection device_id mode pairs banner accepted =
      if not (protocol_compatible banner.protocol_version)
      then err protocol_mismatch
      else if not (same_mode banner.security mode)
      then err mode_mismatch
      else if not accepted
      then err rejected
      else connect_mode mode (λ version. security_prologue version device_id banner.node_id) pairs
          banner
