-- ===== src/Secure/Tests.antt =====
-- The theorems on the secure transport, applied to a concrete cipher and concrete frames.
use side_wire_kernel_su.Base.{
  ℕ, ◌+◌, ◌≡◌, refl, ap, some, List, [], ◌∷◌, ◌++◌, arith, replicate, drop,
}
use side_wire_kernel_su.Io.{Writer}
use side_wire_kernel_su.Frame.Kind.{exec_stdout}
use side_wire_kernel_su.Frame.Header.{Frame, IsFrame}
use side_wire_kernel_su.Secure.Noise.{Noise, NoiseLaws}
use side_wire_kernel_su.Secure.Transport
use side_wire_kernel_su.Secure.Tunnel.{upload}
use side_wire_kernel_su.Secure.Relay.{joined, pass_on}
use side_wire_kernel_su.Secure.HalfClose.{Passed, Tunneled, download-upload}
use side_wire_kernel_su.Secure.RoundTrip.{FrameSeen, write_frame-FrameSeen}

-- A cipher with a counter and a tag of zeros.
abbrev pub toy : Noise
toy = record {
  State = ℕ;
  write_message = λ s plain. some (s + 1, replicate 16 0 ++ plain);
  read_message = λ r cipher. some (r + 1, drop 16 cipher);
}

abbrev pub toy_laws : NoiseLaws toy
toy_laws = record {
  IsSynced = λ s r. s ≡ r;
  delivers = λ s r plain synced small.
      (s + 1, replicate 16 0 ++ plain, r + 1, refl, refl, omega arith, ap (λ k. k + 1) synced);
}

abbrev pub output : Frame
output = record { kind = exec_stdout; stream_id = 7; payload = 104 ∷ 105 ∷ [] }

abbrev pub output-IsFrame : IsFrame output
output-IsFrame = record { id_fits = omega arith; payload_fits = omega arith }

abbrev slow : Writer
slow = record { sent = []; accepts = some 3 ∷ some 30 ∷ some 40 ∷ [] }

write_frame-FrameSeen_example :
    FrameSeen toy toy_laws output 5 slow
      (Transport.write_frame toy (record { inner = slow; noise = some 5 }) output)
write_frame-FrameSeen_example =
    write_frame-FrameSeen toy toy_laws output 5 5 slow output-IsFrame refl

abbrev request : List (List ℕ)
request = (1 ∷ 2 ∷ []) ∷ (3 ∷ []) ∷ []

download-upload_example :
    Tunneled toy toy_laws request 5 slow (upload toy (request ++ ([] ∷ [])) 5 slow)
    × ((to : Writer) → Passed to.sent (joined request) (pass_on request to))
download-upload_example =
    download-upload toy toy_laws request 5 5 slow
      ((omega arith, omega arith), ((omega arith, omega arith), tt)) refl
