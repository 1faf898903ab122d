-- ===== src/Server/Handshake.antt =====
-- apps/sidewire/src/server.rs: `accept_security` and `connect_security`, the host's side of the
-- security handshake, and `accept_device` and `connect_device`, which settle on it who the device is.
-- What is read from the peer are arguments; reads and writes are taken to succeed.
pub mod Checked
pub mod Trusted
mod Tests
use Prim.Native.Nat.{bit_and, bit_or}
use side_wire_kernel_su.Base.{
  ℕ, ◌^◌, Bool, true, false, not, Option, none, some, List, [], Result, ok, err, ◌>>=◌, ◌>>◌,
  bail_if, context, ◌==◌, if◌then◌else◌, bytes_eq,
}
use side_wire_kernel_su.Frame.Kind.{FrameKind, hello, hello_ack}
use side_wire_kernel_su.Frame.Version.{protocol_compatible, negotiated_version}
use side_wire_kernel_su.Text.Lines.{trim}
use side_wire_kernel_su.Device.Pairing.Hosts.{KeyError}
use side_wire_kernel_su.Device.Handshake.{
  SecurityMode, secure, insecure, same_mode, PeerHello, Refusal, protocol_mismatch, mode_mismatch,
  not_paired, bad_key, rejected, security_prologue, ConnectionSecurity, establish,
}
use side_wire_kernel_su.Server.Trust.{Store, device_secret}

-- crates/sidewire-protocol/src/capabilities.rs
abbrev pub core : ℕ
core = 1

abbrev pub all_capabilities : ℕ
all_capabilities =
    bit_or (bit_or (bit_or (bit_or (bit_or (bit_or core (2 ^ 1)) (2 ^ 2)) (2 ^ 3)) (2 ^ 4)) (2 ^ 5))
      (2 ^ 6)

-- What the two functions use of a `Hello` and of a `HelloAck`.
pub record Introduction : Type 0 where
  pub device_id : Option (List ℕ)
  pub name : List ℕ
  pub protocol_version : ℕ
  pub capabilities : ℕ

pub data DeviceError : Type 0 where
  security : Refusal → DeviceError
  unexpected_frame invalid_message no_protocol no_core no_device_id identity_changed : DeviceError
  version_changed empty_name : DeviceError

abbrev pub is_hello : FrameKind → Bool
is_hello hello = true
is_hello _ = false

abbrev pub is_hello_ack : FrameKind → Bool
is_hello_ack hello_ack = true
is_hello_ack _ = false

abbrev pub version_of : Option Introduction → ℕ
version_of none = 0
version_of (some intro) = intro.protocol_version

abbrev pub is_empty : List ℕ → Bool
is_empty [] = true
is_empty _ = false

module _ {Session : Type 0} (handshake : List ℕ → List ℕ → Option Session) (store : Store) where
  -- The decision that is written to the peer, if any, and the outcome.
  abbrev pub Accepted : Type 0
  Accepted = Option Bool × Result Refusal (ConnectionSecurity handshake)

  abbrev pub accept_secret : (ℕ → List ℕ) → PeerHello → Result KeyError (Option (List ℕ)) → Accepted
  accept_secret prologue peer (err e) = (none, err bad_key)
  accept_secret prologue peer (ok none) = (some false, err not_paired)
  accept_secret prologue peer (ok (some secret)) =
      (some true, establish handshake prologue peer (some secret))

  abbrev pub accept_mode : SecurityMode → (ℕ → List ℕ) → PeerHello → Accepted
  accept_mode secure prologue peer = accept_secret prologue peer (device_secret store peer.node_id)
  accept_mode insecure prologue peer = (some true, establish handshake prologue peer none)

  unfoldable pub accept_security : List ℕ → SecurityMode → PeerHello → Accepted
  accept_security host_id mode peer =
      if not (protocol_compatible peer.protocol_version)
      then (some false, err protocol_mismatch)
      else if not (same_mode peer.security mode)
      then (some false, err mode_mismatch)
      else accept_mode mode (λ version. security_prologue version peer.node_id host_id) peer

  abbrev pub with_decision :
      (ℕ → List ℕ)
      → PeerHello
      → Option (List ℕ)
      → Bool
      → Result Refusal (ConnectionSecurity handshake)
  with_decision prologue peer secret accepted =
      if not accepted then err rejected else establish handshake prologue peer secret

  abbrev pub connect_secret :
      (ℕ → List ℕ)
      → PeerHello
      → Bool
      → Result KeyError (Option (List ℕ))
      → Result Refusal (ConnectionSecurity handshake)
  connect_secret prologue peer accepted (err e) = err bad_key
  connect_secret prologue peer accepted (ok none) = err not_paired
  connect_secret prologue peer accepted (ok (some secret)) =
      with_decision prologue peer (some secret) accepted

  abbrev pub connect_mode :
      SecurityMode → (ℕ → List ℕ) → PeerHello → Bool → Result Refusal (ConnectionSecurity handshake)
  connect_mode secure prologue peer accepted =
      connect_secret prologue peer accepted (device_secret store peer.node_id)
  connect_mode insecure prologue peer accepted = with_decision prologue peer none accepted

  -- `accepted` is the device's decision on the hello, which is read only if it was sent.
  unfoldable pub connect_security :
      List ℕ → SecurityMode → PeerHello → Bool → Result Refusal (ConnectionSecurity handshake)
  connect_security host_id mode peer accepted =
      if not (protocol_compatible peer.protocol_version)
      then err protocol_mismatch
      else if not (same_mode peer.security mode)
      then err mode_mismatch
      else connect_mode mode (λ version. security_prologue version host_id peer.node_id) peer
          accepted

  pub record DeviceIdentity : Type 0 where
    pub id : List ℕ
    pub name : List ℕ
    pub mode : SecurityMode
    pub noise : Option Session
    pub shared_secret : Option (List ℕ)
    pub capabilities : ℕ
    pub protocol : ℕ

  abbrev pub from_security : {A : Type 0} → Result Refusal A → Result DeviceError A
  from_security (ok a) = ok a
  from_security (err e) = err (security e)

  -- What follows the first frame of the device, in both functions.
  unfoldable pub identify :
      SecurityMode
      → ConnectionSecurity handshake
      → Bool
      → Option Introduction
      → Result DeviceError DeviceIdentity
  identify mode secured expected message = do
    bail_if (not expected) unexpected_frame
    intro ← context message invalid_message
    protocol ← context (negotiated_version intro.protocol_version) no_protocol
    let capabilities = bit_and intro.capabilities all_capabilities
    bail_if (bit_and capabilities core == 0) no_core
    id ← context intro.device_id no_device_id
    bail_if (not (bytes_eq id secured.peer_id)) identity_changed
    ok (record {
      id = id;
      name = intro.name;
      mode = mode;
      noise = secured.noise;
      shared_secret = secured.shared_secret;
      capabilities = capabilities;
      protocol = protocol;
    })

  unfoldable pub accept_device :
      List ℕ
      → SecurityMode
      → PeerHello
      → FrameKind
      → Option Introduction
      → Result DeviceError DeviceIdentity
  accept_device host_id mode peer kind message = do
    secured ← from_security (accept_security host_id mode peer).1
    identify mode secured (is_hello kind) message

  unfoldable pub connect_device :
      List ℕ
      → SecurityMode
      → PeerHello
      → Bool
      → FrameKind
      → Option Introduction
      → Result DeviceError DeviceIdentity
  connect_device host_id mode peer accepted kind message = do
    secured ← from_security (connect_security host_id mode peer accepted)
    identity ← identify mode secured (is_hello_ack kind) message
    bail_if (not (protocol_compatible (version_of message))) version_changed
    bail_if (is_empty (trim identity.name)) empty_name
    ok identity
