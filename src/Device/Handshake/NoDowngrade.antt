-- ===== src/Device/Handshake/NoDowngrade.antt =====
-- The mode of the connections that the handshake comes to (apps/sidewired/src/security.rs).
use side_wire_kernel_su.Base.{
  ℕ, ◌≡◌, refl, sym, subst, Bool, true, false, not, Option, none, some, List, Result, ok, err,
  branch_intro,
}
use side_wire_kernel_su.Frame.Version.{protocol_compatible, negotiated_version}
use side_wire_kernel_su.Device.Pairing.Hosts.{Files, KeyError, paired_host_secret}
use side_wire_kernel_su.Device.Handshake.{
  SecurityMode, secure, insecure, same_mode, PeerHello, Refusal, security_prologue,
  ConnectionSecurity, Accepted, with_session, with_version, connect_secret, connect_mode,
  connect_connection, accept_secret, accept_mode, accept_connection,
}

pub not-false : (b : Bool) → not b ≡ false → b ≡ true
not-false true h = refl
not-false false h = cc

pub same_mode→eq : (a b : SecurityMode) → same_mode a b ≡ true → a ≡ b
same_mode→eq secure secure h = refl
same_mode→eq secure insecure h = cc
same_mode→eq insecure secure h = cc
same_mode→eq insecure insecure h = refl

module _ {Session : Type 0} (handshake : List ℕ → List ℕ → Option Session) where
  -- The connection is protected as its mode says: a secure one has a Noise session, made with the
  -- key that was stored for this very peer when it was paired; an insecure one has none.
  abbrev pub Protected :
      SecurityMode → Option Files → PeerHello → ConnectionSecurity handshake → Type 0
  Protected secure pairs peer c =
      (secret : List ℕ) × (session : Session) × (prologue : List ℕ) × (paired_host_secret pairs
          peer.node_id
        ≡ ok (some secret))
      × (handshake secret prologue ≡ some session)
      × (c ≡ record { peer_id = peer.node_id; noise = some session; shared_secret = some secret })
  Protected insecure pairs peer c =
      c ≡ record { peer_id = peer.node_id; noise = none; shared_secret = none }

  -- An outcome of the handshake with a peer.
  abbrev pub Agreed :
      SecurityMode
      → Option Files
      → PeerHello
      → Result Refusal (ConnectionSecurity handshake)
      → Type 0
  Agreed mode pairs peer (err e) = Unit
  Agreed mode pairs peer (ok c) =
      (protocol_compatible peer.protocol_version ≡ true)
      × (peer.security ≡ mode)
      × Protected mode pairs peer c

  abbrev ProtectedResult :
      SecurityMode
      → Option Files
      → PeerHello
      → Result Refusal (ConnectionSecurity handshake)
      → Type 0
  ProtectedResult mode pairs peer (err e) = Unit
  ProtectedResult mode pairs peer (ok c) = Protected mode pairs peer c

  with_session-Protected :
      (pairs : Option Files) (peer : PeerHello) (secret prologue : List ℕ) (o : Option Session)
      → paired_host_secret pairs peer.node_id ≡ ok (some secret)
      → handshake secret prologue ≡ o
      → ProtectedResult secure pairs peer (with_session handshake peer.node_id secret o)
  with_session-Protected pairs peer secret prologue none at shaken = tt
  with_session-Protected pairs peer secret prologue (some session) at shaken =
      (secret, session, prologue, at, shaken, refl)

  with_version-Protected :
      (pairs : Option Files) (peer : PeerHello) (secret : List ℕ) (prologue : ℕ → List ℕ)
      (o : Option ℕ)
      → paired_host_secret pairs peer.node_id ≡ ok (some secret)
      → ProtectedResult secure pairs peer (with_version handshake prologue peer.node_id secret o)
  with_version-Protected pairs peer secret prologue none at = tt
  with_version-Protected pairs peer secret prologue (some version) at =
      with_session-Protected pairs peer secret (prologue version)
        (handshake secret (prologue version)) at refl

  connect_secret-Protected :
      (pairs : Option Files) (peer : PeerHello) (prologue : ℕ → List ℕ)
      (r : Result KeyError (Option (List ℕ)))
      → paired_host_secret pairs peer.node_id ≡ r
      → ProtectedResult secure pairs peer (connect_secret handshake prologue peer r)
  connect_secret-Protected pairs peer prologue (err e) at = tt
  connect_secret-Protected pairs peer prologue (ok none) at = tt
  connect_secret-Protected pairs peer prologue (ok (some secret)) at =
      with_version-Protected pairs peer secret prologue (negotiated_version peer.protocol_version)
        at

  connect_mode-Protected :
      (mode : SecurityMode) (pairs : Option Files) (peer : PeerHello) (prologue : ℕ → List ℕ)
      → ProtectedResult mode pairs peer (connect_mode handshake mode prologue pairs peer)
  connect_mode-Protected secure pairs peer prologue =
      connect_secret-Protected pairs peer prologue (paired_host_secret pairs peer.node_id) refl
  connect_mode-Protected insecure pairs peer prologue = refl

  Agreed-of_Protected :
      (mode : SecurityMode) (pairs : Option Files) (peer : PeerHello)
      (r : Result Refusal (ConnectionSecurity handshake))
      → protocol_compatible peer.protocol_version ≡ true
      → same_mode peer.security mode ≡ true
      → ProtectedResult mode pairs peer r
      → Agreed mode pairs peer r
  Agreed-of_Protected mode pairs peer (err e) v m p = tt
  Agreed-of_Protected mode pairs peer (ok c) v m p = (v, same_mode→eq peer.security mode m, p)

  -- The device that connects: it comes to a connection only if the peer has a compatible version
  -- and the same mode, and then the connection is protected as the mode says; whatever the peer
  -- sends, a secure device does not fall back to a plain connection.
  pub connect_connection-Agreed :
      (device_id : List ℕ) (mode : SecurityMode) (pairs : Option Files) (banner : PeerHello)
      (accepted : Bool)
      → Agreed mode pairs banner (connect_connection handshake device_id mode pairs banner accepted)
  unfolding connect_connection
  connect_connection-Agreed device_id mode pairs banner accepted =
      branch_intro (Agreed mode pairs banner) (not (protocol_compatible banner.protocol_version))
        (λ _. tt)
        (λ compatible.
          branch_intro (Agreed mode pairs banner) (not (same_mode banner.security mode)) (λ _. tt)
            (λ same.
              branch_intro (Agreed mode pairs banner) (not accepted) (λ _. tt)
                (λ _.
                  Agreed-of_Protected mode pairs banner _ (not-false _ compatible)
                    (not-false _ same)
                    (connect_mode-Protected mode pairs banner
                      (λ version. security_prologue version device_id banner.node_id)))))

  accept_secret-eq :
      (prologue : ℕ → List ℕ) (hello : PeerHello) (r : Result KeyError (Option (List ℕ)))
      → (accept_secret handshake prologue hello r).1 ≡ connect_secret handshake prologue hello r
  accept_secret-eq prologue hello (err e) = refl
  accept_secret-eq prologue hello (ok none) = refl
  accept_secret-eq prologue hello (ok (some secret)) = refl

  -- What the device that accepts makes of a mode is what one that connects makes of it.
  accept_mode-eq :
      (mode : SecurityMode) (pairs : Option Files) (hello : PeerHello) (prologue : ℕ → List ℕ)
      → (accept_mode handshake mode prologue pairs hello).1
        ≡ connect_mode handshake mode prologue pairs hello
  accept_mode-eq secure pairs hello prologue =
      accept_secret-eq prologue hello (paired_host_secret pairs hello.node_id)
  accept_mode-eq insecure pairs hello prologue = refl

  -- The device that accepts a connection: it comes to one only if the peer has a compatible version
  -- and the same mode, and then the connection is protected as the mode says; whatever the peer
  -- sends, a secure device does not fall back to a plain connection.
  pub accept_connection-Agreed :
      (device_id : List ℕ) (mode : SecurityMode) (pairs : Option Files) (hello : PeerHello)
      → Agreed mode pairs hello (accept_connection handshake device_id mode pairs hello).1
  unfolding accept_connection
  accept_connection-Agreed device_id mode pairs hello =
      let prologue : ℕ → List ℕ = λ version. security_prologue version hello.node_id device_id in
      branch_intro (λ (x : Accepted handshake). Agreed mode pairs hello x.1)
        (not (protocol_compatible hello.protocol_version)) (λ _. tt)
        (λ compatible.
          branch_intro (λ (x : Accepted handshake). Agreed mode pairs hello x.1)
            (not (same_mode hello.security mode)) (λ _. tt)
            (λ same.
              subst (Agreed mode pairs hello) (sym (accept_mode-eq mode pairs hello prologue)) (
                Agreed-of_Protected mode pairs hello _ (not-false _ compatible) (not-false _ same)
                  (connect_mode-Protected mode pairs hello prologue))))
