-- ===== src/Secure/Tunnel.antt =====
-- crates/sidewire-protocol/src/security.rs: `copy_noise_tunnel`, the two directions of an encrypted
-- proxy connection. They share the cipher, but each steps only its own half of it: each has a state
-- of its own here.
use side_wire_kernel_su.Base.{
  ℕ, zero, suc, Bool, false, List, [], ◌∷◌, Result, ok, err, ◌==◌, if◌then◌else◌, length,
}
use side_wire_kernel_su.Io.{IoError, Writer, write_all}
use side_wire_kernel_su.Secure.Noise.{Noise}
use side_wire_kernel_su.Secure.Packet.{SecureError, io}
use side_wire_kernel_su.Secure.Transport

pub data TunnelError : Type 0 where
  secure : SecureError → TunnelError
  plain : IoError → TunnelError
  empty_proxy_record invalid_proxy_record : TunnelError

-- What the download has written to the plain side, which is shut down only if the result is `ok`.
abbrev pub Downloaded : Type 0
Downloaded = Result TunnelError (Unit {0}) × Writer

-- `write_all` and `?`
abbrev pub after_plain : Result IoError (Unit {0}) × Writer → (Writer → Downloaded) → Downloaded
after_plain (ok _, w) next = next w
after_plain (err e, w) next = (err (plain e), w)

abbrev pub is_end : ℕ → List ℕ → Bool
is_end kind [] = kind == 1
is_end kind (b ∷ bytes) = false

-- One record of the download; `next` goes on with the loop.
unfoldable pub download_record : List ℕ → Writer → (Writer → Downloaded) → Downloaded
download_record [] w next = (err empty_proxy_record, w)
download_record (kind ∷ bytes) w next =
    if kind == 0
    then after_plain (write_all bytes w.sent w.accepts) next
    else if is_end kind bytes
    then (ok tt, w)
    else (err invalid_proxy_record, w)

module _ (n : Noise) where
  open n use {State}

  -- The reads of the plain side, an empty one at its end; after the last one a read fails.
  unfoldable pub upload : List (List ℕ) → State → Writer → Transport.Written n
  upload [] st w = (err (io IoError.failed), st, w)
  upload ([] ∷ more) st w = Transport.write_noise_record n w st (1 ∷ [])
  upload ((b ∷ bytes) ∷ more) st w =
      Transport.and_then n (Transport.write_noise_record n w st (0 ∷ b ∷ bytes))
        (λ st' w'. upload more st' w')

  abbrev pub Read : Type 0
  Read = Result SecureError (List ℕ × State × List ℕ)

  abbrev pub after_record : Read → Writer → (List ℕ → State → Writer → Downloaded) → Downloaded
  after_record (err e) w next = (err (secure e), w)
  after_record (ok (record_, st, input)) w next = download_record record_ w (λ w'. next input st w')

  -- Each record takes four bytes or more of the stream, so as many rounds as it has bytes are
  -- enough; where the fuel is used up nothing is left of the stream.
  unfoldable pub download_loop : ℕ → List ℕ → State → Writer → Downloaded
  download_loop zero input st w = (err (secure (io IoError.unexpected_eof)), w)
  download_loop (suc fuel) input st w =
      after_record (Transport.read_noise_record n input st) w
        (λ input' st' w'. download_loop fuel input' st' w')

  unfoldable pub download : List ℕ → State → Writer → Downloaded
  download input st w = download_loop (suc (length input)) input st w
