-- ===== src/Server/Handshake/Checked.antt =====
-- What `accept_security` and `connect_security` have checked (apps/sidewire/src/server.rs).
use side_wire_kernel_su.Base.{
  ℕ, ◌≡◌, refl, Bool, true, not, Option, none, some, List, Result, ok, err, branch_intro,
}
use side_wire_kernel_su.Frame.Version.{protocol_compatible, negotiated_version}
use side_wire_kernel_su.Device.Pairing.Hosts.{KeyError}
use side_wire_kernel_su.Device.Handshake.{
  SecurityMode, secure, insecure, same_mode, PeerHello, Refusal, ConnectionSecurity, with_session,
  with_version,
}
use side_wire_kernel_su.Device.Handshake.NoDowngrade.{not-false, same_mode→eq}
use side_wire_kernel_su.Server.Trust.{Store, device_secret}
use side_wire_kernel_su.Server.Handshake.{
  Accepted, accept_secret, accept_mode, accept_security, connect_secret, connect_mode,
  connect_security,
}

module _ {Session : Type 0} (handshake : List ℕ → List ℕ → Option Session) (store : Store) where
  -- What a connection in this mode is protected by.
  abbrev pub ProtectedBy : SecurityMode → List ℕ → Option Session → Option (List ℕ) → Type 0
  ProtectedBy secure id noise key =
      (secret : List ℕ) × (session : Session) × (prologue : List ℕ) × (device_secret store id
        ≡ ok (some secret))
      × (handshake secret prologue ≡ some session)
      × (noise ≡ some session)
      × (key ≡ some secret)
  ProtectedBy insecure id noise key = (noise ≡ none) × (key ≡ none)

  abbrev pub Secured :
      SecurityMode → PeerHello → Result Refusal (ConnectionSecurity handshake) → Type 0
  Secured mode peer (err e) = Unit
  Secured mode peer (ok c) =
      (c.peer_id ≡ peer.node_id) × ProtectedBy mode peer.node_id c.noise c.shared_secret

  with_session-Secured :
      (peer : PeerHello) (secret prologue : List ℕ) (o : Option Session)
      → device_secret store peer.node_id ≡ ok (some secret)
      → handshake secret prologue ≡ o
      → Secured secure peer (with_session handshake peer.node_id secret o)
  with_session-Secured peer secret prologue none at shaken = tt
  with_session-Secured peer secret prologue (some session) at shaken =
      (refl, (secret, session, prologue, at, shaken, refl, refl))

  with_version-Secured :
      (peer : PeerHello) (secret : List ℕ) (prologue : ℕ → List ℕ) (o : Option ℕ)
      → device_secret store peer.node_id ≡ ok (some secret)
      → Secured secure peer (with_version handshake prologue peer.node_id secret o)
  with_version-Secured peer secret prologue none at = tt
  with_version-Secured peer secret prologue (some v) at =
      with_session-Secured peer secret (prologue v) (handshake secret (prologue v)) at refl

  accept_secret-Secured :
      (peer : PeerHello) (prologue : ℕ → List ℕ) (r : Result KeyError (Option (List ℕ)))
      → device_secret store peer.node_id ≡ r
      → Secured secure peer (accept_secret handshake store prologue peer r).1
  accept_secret-Secured peer prologue (err e) at = tt
  accept_secret-Secured peer prologue (ok none) at = tt
  accept_secret-Secured peer prologue (ok (some secret)) at =
      with_version-Secured peer secret prologue (negotiated_version peer.protocol_version) at

  accept_mode-Secured :
      (mode : SecurityMode) (peer : PeerHello) (prologue : ℕ → List ℕ)
      → Secured mode peer (accept_mode handshake store mode prologue peer).1
  accept_mode-Secured secure peer prologue =
      accept_secret-Secured peer prologue (device_secret store peer.node_id) refl
  accept_mode-Secured insecure peer prologue = (refl, (refl, refl))

  connect_secret-Secured :
      (peer : PeerHello) (prologue : ℕ → List ℕ) (accepted : Bool)
      (r : Result KeyError (Option (List ℕ)))
      → device_secret store peer.node_id ≡ r
      → Secured secure peer (connect_secret handshake store prologue peer accepted r)
  connect_secret-Secured peer prologue accepted (err e) at = tt
  connect_secret-Secured peer prologue accepted (ok none) at = tt
  connect_secret-Secured peer prologue accepted (ok (some secret)) at =
      branch_intro (Secured secure peer) (not accepted) (λ _. tt)
        (λ _.
          with_version-Secured peer secret prologue (negotiated_version peer.protocol_version) at)

  connect_mode-Secured :
      (mode : SecurityMode) (peer : PeerHello) (prologue : ℕ → List ℕ) (accepted : Bool)
      → Secured mode peer (connect_mode handshake store mode prologue peer accepted)
  connect_mode-Secured secure peer prologue accepted =
      connect_secret-Secured peer prologue accepted (device_secret store peer.node_id) refl
  connect_mode-Secured insecure peer prologue accepted =
      branch_intro (Secured insecure peer) (not accepted) (λ _. tt) (λ _. (refl, (refl, refl)))

  -- A connection in the host's own mode, with a compatible peer.
  abbrev pub Checked :
      SecurityMode → PeerHello → Result Refusal (ConnectionSecurity handshake) → Type 0
  Checked mode peer (err e) = Unit
  Checked mode peer (ok c) =
      (protocol_compatible peer.protocol_version ≡ true)
      × (peer.security ≡ mode)
      × (c.peer_id ≡ peer.node_id)
      × ProtectedBy mode peer.node_id c.noise c.shared_secret

  Checked-of_Secured :
      (mode : SecurityMode) (peer : PeerHello) (r : Result Refusal (ConnectionSecurity handshake))
      → protocol_compatible peer.protocol_version ≡ true
      → same_mode peer.security mode ≡ true
      → Secured mode peer r
      → Checked mode peer r
  Checked-of_Secured mode peer (err e) v m s = tt
  Checked-of_Secured mode peer (ok c) v m (same, s) =
      (v, same_mode→eq peer.security mode m, same, s)

  pub accept_security-Checked :
      (host_id : List ℕ) (mode : SecurityMode) (peer : PeerHello)
      → Checked mode peer (accept_security handshake store host_id mode peer).1
  unfolding accept_security
  accept_security-Checked host_id mode peer =
      branch_intro (λ (x : Accepted handshake store). Checked mode peer x.1)
        (not (protocol_compatible peer.protocol_version)) (λ _. tt)
        (λ v.
          branch_intro (λ (x : Accepted handshake store). Checked mode peer x.1)
            (not (same_mode peer.security mode)) (λ _. tt)
            (λ m.
              Checked-of_Secured mode peer _ (not-false _ v) (not-false _ m)
                (accept_mode-Secured mode peer _)))

  pub connect_security-Checked :
      (host_id : List ℕ) (mode : SecurityMode) (peer : PeerHello) (accepted : Bool)
      → Checked mode peer (connect_security handshake store host_id mode peer accepted)
  unfolding connect_security
  connect_security-Checked host_id mode peer accepted =
      branch_intro (Checked mode peer) (not (protocol_compatible peer.protocol_version)) (λ _. tt)
        (λ v.
          branch_intro (Checked mode peer) (not (same_mode peer.security mode)) (λ _. tt)
            (λ m.
              Checked-of_Secured mode peer _ (not-false _ v) (not-false _ m)
                (connect_mode-Secured mode peer _ accepted)))
