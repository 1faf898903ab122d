-- ===== src/Server/Handshake/Trusted.antt =====
-- Which devices the host's handshake lets in (apps/sidewire/src/server.rs).
use Prim.Native.Nat.{bit_and}
use side_wire_kernel_su.Base.{
  ℕ, ◌≡◌, refl, sym, ◌∙◌, subst, Bool, true, false, not, Option, some, List, Result, ok, err, ◌>>◌,
  bail_if, context, Yields, Yields-bind, Yields-bail_if, Yields-weaken, ◌==◌, bytes_eq, bytes_eq→eq,
}
use side_wire_kernel_su.Frame.Kind.{FrameKind}
use side_wire_kernel_su.Frame.Version.{version, protocol_compatible, negotiated_version}
use side_wire_kernel_su.Text.Lines.{trim}
use side_wire_kernel_su.Device.Pairing.Hosts.{Files, paired_host_secret}
use side_wire_kernel_su.Device.Handshake.{
  SecurityMode, secure, PeerHello, Refusal, security_prologue, ConnectionSecurity, with_session,
  accept_connection, connect_connection,
}
use side_wire_kernel_su.Device.Handshake.NoDowngrade.{not-false}
use side_wire_kernel_su.Server.Trust.{Store, device_secret}
use side_wire_kernel_su.Server.Handshake.{
  Introduction, DeviceIdentity, accept_security, connect_security, from_security, identify,
  accept_device, connect_device, core, is_hello, is_hello_ack, version_of, is_empty, no_core,
  version_changed, empty_name, identity_changed, all_capabilities,
}
use side_wire_kernel_su.Server.Handshake.Checked.{
  ProtectedBy, Checked, accept_security-Checked, connect_security-Checked,
}

-- What a side of this program sends.
abbrev pub secure_peer : List ℕ → PeerHello
secure_peer id = record { node_id = id; security = secure; protocol_version = version }

module _ {Session : Type 0} (handshake : List ℕ → List ℕ → Option Session) (store : Store) where
  -- What `identify` has checked of the identity that it returns.
  abbrev Identified :
      SecurityMode → ConnectionSecurity handshake → DeviceIdentity handshake store → Type 0
  Identified mode c i =
      (i.id ≡ c.peer_id)
      × (i.noise ≡ c.noise)
      × (i.shared_secret ≡ c.shared_secret)
      × (i.mode ≡ mode)
      × ((bit_and i.capabilities core == 0) ≡ false)

  identify-Identified :
      (mode : SecurityMode) (c : ConnectionSecurity handshake) (expected : Bool)
      (message : Option Introduction)
      → Yields (Identified mode c) (identify handshake store mode c expected message)
  unfolding identify
  identify-Identified mode c expected message =
      Yields-bail_if (Identified mode c) (not expected) _ _ (λ _.
        Yields-bind (Identified mode c) (context message _) _ (λ intro _.
          Yields-bind (Identified mode c) (context (negotiated_version intro.protocol_version) _) _
            (λ protocol _.
              Yields-bail_if (Identified mode c)
                (bit_and (bit_and intro.capabilities all_capabilities) core == 0) no_core _
                (λ has_core. Yields-bind (Identified mode c) (context intro.device_id _) _ (λ id _.
                  Yields-bail_if (Identified mode c) (not (bytes_eq id c.peer_id)) identity_changed
                    (ok (record {
                      id = id;
                      name = intro.name;
                      mode = mode;
                      noise = c.noise;
                      shared_secret = c.shared_secret;
                      capabilities = bit_and intro.capabilities all_capabilities;
                      protocol = protocol;
                    }))
                    (λ same. (
                      bytes_eq→eq id c.peer_id (not-false _ same),
                      refl,
                      refl,
                      refl,
                      has_core,
                    )))))))

  -- A device that is let in: it has the host's own mode and a compatible version, it names itself
  -- as the security handshake did, and it offers the core capability. In secure mode its session was
  -- made with the key that was stored when this very device was paired.
  abbrev pub Trusted : SecurityMode → PeerHello → DeviceIdentity handshake store → Type 0
  Trusted mode peer i =
      (protocol_compatible peer.protocol_version ≡ true)
      × (peer.security ≡ mode)
      × (i.id ≡ peer.node_id)
      × ProtectedBy handshake store mode peer.node_id i.noise i.shared_secret
      × ((bit_and i.capabilities core == 0) ≡ false)

  Trusted-of_Identified :
      (mode : SecurityMode) (peer : PeerHello) (c : ConnectionSecurity handshake)
      (i : DeviceIdentity handshake store)
      → Checked handshake store mode peer (ok c)
      → Identified mode c i
      → Trusted mode peer i
  Trusted-of_Identified mode peer c i (v, m, same, protected) (id, noise, key, _, has_core) = (
    v,
    m,
    id ∙ same,
    subst (λ o. ProtectedBy handshake store mode peer.node_id o i.shared_secret) (sym noise)
        (subst (ProtectedBy handshake store mode peer.node_id c.noise) (sym key) protected),
    has_core,
  )

  from_security-ok :
      (r : Result Refusal (ConnectionSecurity handshake)) (c : ConnectionSecurity handshake)
      → from_security handshake store r ≡ ok c
      → r ≡ ok c
  from_security-ok (ok c') c e = cc
  from_security-ok (err _) c e = cc

  accept_device-Trusted :
      (host_id : List ℕ) (mode : SecurityMode) (peer : PeerHello) (kind : FrameKind)
      (message : Option Introduction)
      → Yields (Trusted mode peer) (accept_device handshake store host_id mode peer kind message)
  unfolding accept_device
  accept_device-Trusted host_id mode peer kind message =
      Yields-bind (Trusted mode peer)
        (from_security handshake store (accept_security handshake store host_id mode peer).1) _
        (λ c e.
          Yields-weaken (Identified mode c) (Trusted mode peer) _
            (λ i. Trusted-of_Identified mode peer c i (
              subst (Checked handshake store mode peer) (from_security-ok _ c e)
                (accept_security-Checked handshake store host_id mode peer)))
            (identify-Identified mode c (is_hello kind) message))

  connect_device-Trusted :
      (host_id : List ℕ) (mode : SecurityMode) (peer : PeerHello) (accepted : Bool)
      (kind : FrameKind) (message : Option Introduction)
      → Yields
          (Trusted mode peer)
          (connect_device handshake store host_id mode peer accepted kind message)
  unfolding connect_device
  connect_device-Trusted host_id mode peer accepted kind message =
      Yields-bind (Trusted mode peer)
        (from_security handshake store
          (connect_security handshake store host_id mode peer accepted))
        _
        (λ c e.
          Yields-bind (Trusted mode peer)
            (identify handshake store mode c (is_hello_ack kind) message) _
            (λ i identified.
              Yields-bail_if (Trusted mode peer) (not (protocol_compatible (version_of message)))
                version_changed (bail_if (is_empty (trim i.name)) empty_name >> ok i)
                (λ _.
                  Yields-bail_if (Trusted mode peer) (is_empty (trim i.name)) empty_name (ok i)
                    (λ _.
                      Trusted-of_Identified mode peer c i
                        (subst (Checked handshake store mode peer) (from_security-ok _ c e)
                          (connect_security-Checked handshake store host_id mode peer accepted))
                        (subst (Yields (Identified mode c)) identified
                          (identify-Identified mode c (is_hello_ack kind) message))))))

  -- Whatever a peer sends, whether it connects or is connected to: if the host lets it in as a
  -- device, it is trusted; a secure host takes no device in without a session made with its key.
  pub devices-Trusted :
      (host_id : List ℕ) (mode : SecurityMode) (peer : PeerHello) (kind : FrameKind)
      (message : Option Introduction)
      → Yields (Trusted mode peer) (accept_device handshake store host_id mode peer kind message)
        × ((accepted : Bool)
            → Yields
                (Trusted mode peer)
                (connect_device handshake store host_id mode peer accepted kind message))
  devices-Trusted host_id mode peer kind message = (
    accept_device-Trusted host_id mode peer kind message,
    λ accepted. connect_device-Trusted host_id mode peer accepted kind message,
  )

  -- The outcome with a peer, for a key and a prologue.
  abbrev pub made_with : List ℕ → List ℕ → List ℕ → Result Refusal (ConnectionSecurity handshake)
  made_with peer_id secret prologue =
      with_session handshake peer_id secret (handshake secret prologue)

  -- Host and device of the same version, each with the key `secret` stored for the other: whichever
  -- of them connects, the device is accepted or the host is, and both make their Noise session with
  -- that key and with the same prologue.
  pub same_session :
      (host_id device_id secret : List ℕ) (pairs : Option Files)
      → device_secret store device_id ≡ ok (some secret)
      → paired_host_secret pairs host_id ≡ ok (some secret)
      → (connect_security handshake store host_id secure (secure_peer device_id) true
          ≡ made_with device_id secret (security_prologue version host_id device_id))
        × (accept_connection handshake device_id secure pairs (secure_peer host_id)
            ≡ (some true, made_with host_id secret (security_prologue version host_id device_id)))
        × (accept_security handshake store host_id secure (secure_peer device_id)
            ≡ (some true, made_with device_id secret (security_prologue version device_id host_id)))
        × (connect_connection handshake device_id secure pairs (secure_peer host_id) true
            ≡ made_with host_id secret (security_prologue version device_id host_id))
  unfolding connect_security accept_connection accept_security connect_connection
      protocol_compatible negotiated_version
  same_session host_id device_id secret pairs known paired =
      (rw known refl, rw paired refl, rw known refl, rw paired refl)
