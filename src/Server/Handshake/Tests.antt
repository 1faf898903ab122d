-- ===== src/Server/Handshake/Tests.antt =====
-- The theorems on the host's handshake and on its store, applied to a paired device.
use side_wire_kernel_su.Base.{
  ℕ, ◌≡◌, refl, true, Bool, Option, some, List, [], ◌∷◌, Yields, replicate, arith,
}
use side_wire_kernel_su.Frame.Kind.{hello}
use side_wire_kernel_su.Frame.Version.{version}
use side_wire_kernel_su.Device.Pairing.Hosts.{
  Files, store_paired_host, paired_host_secret-store_paired_host,
}
use side_wire_kernel_su.Device.Handshake.{
  secure, security_prologue, accept_connection, connect_connection,
}
use side_wire_kernel_su.Server.Trust.{Store, save_device, Saved, save_device-Saved}
use side_wire_kernel_su.Server.Handshake.{
  Introduction, accept_security, connect_security, accept_device, connect_device,
}
use side_wire_kernel_su.Server.Handshake.Trusted.{
  Trusted, devices-Trusted, secure_peer, made_with, same_session,
}

abbrev phone : List ℕ
phone = replicate 16 171

abbrev this_host : List ℕ
this_host = replicate 16 7

abbrev key : List ℕ
key = replicate 32 200

abbrev key_handshake : List ℕ → List ℕ → Option (List ℕ)
key_handshake secret prologue = some secret

abbrev store : Store
store = save_device [] phone (112 ∷ []) key

abbrev pairs : Option Files
pairs = some (store_paired_host [] this_host [] key)

save_device-Saved_example : Saved [] phone (112 ∷ []) key
save_device-Saved_example =
    save_device-Saved [] phone (112 ∷ []) key refl (ground arith) refl (ground arith)

abbrev greeting : Introduction
greeting = record {
  device_id = some phone;
  name = 112 ∷ [];
  protocol_version = version;
  capabilities = 33;
}

devices-Trusted_example :
    Yields
      (Trusted key_handshake store secure (secure_peer phone))
      (accept_device key_handshake store this_host secure (secure_peer phone) hello (some greeting))
    × ((accepted : Bool)
        → Yields (Trusted key_handshake store secure (secure_peer phone)) (
            connect_device key_handshake store this_host secure
              (secure_peer phone)
              accepted
              hello
              (some greeting)))
devices-Trusted_example =
    devices-Trusted key_handshake store this_host secure (secure_peer phone) hello (some greeting)

same_session_example :
    (connect_security key_handshake store this_host secure (secure_peer phone) true
      ≡ made_with key_handshake store phone key (security_prologue version this_host phone))
    × (accept_connection key_handshake phone secure pairs (secure_peer this_host) ≡ (
      some true,
      made_with key_handshake store this_host key (security_prologue version this_host phone),
    ))
    × (accept_security key_handshake store this_host secure (secure_peer phone) ≡ (
      some true,
      made_with key_handshake store phone key (security_prologue version phone this_host),
    ))
    × (connect_connection key_handshake phone secure pairs (secure_peer this_host) true
        ≡ made_with key_handshake store this_host key (security_prologue version phone this_host))
same_session_example =
    same_session key_handshake store this_host phone key pairs
      ((save_device-Saved [] phone (112 ∷ []) key refl (ground arith) refl (ground arith)).found)
      (paired_host_secret-store_paired_host [] this_host [] key refl (ground arith))
