-- ===== src/Secure/HalfClose.antt =====
-- Both ends of a tunnel: what one side reads is written on the other
-- (crates/sidewire-protocol/src/security.rs).
use side_wire_kernel_su.Base.{
  ℕ, suc, ◌≡◌, sym, ap, ◌∙◌, List, [], ◌∷◌, ◌++◌, append-nil, append_assoc, Result, ok, err, length,
  length-append, All, arith,
}
use side_wire_kernel_su.Io.{IoError, Writer, write_all}
use side_wire_kernel_su.Io.Delivery.{Delivers, write_all-Delivers}
use side_wire_kernel_su.Secure.Noise.{Noise, NoiseLaws}
use side_wire_kernel_su.Secure.Transport
use side_wire_kernel_su.Secure.Tunnel.{TunnelError, Downloaded, after_plain, upload, download}
use side_wire_kernel_su.Secure.Relay.{IsRead, joined, pass_on, Relayed, upload-Relayed}

-- Something of the bytes is written, and all of them if the result is `ok`.
abbrev pub Passed : List ℕ → List ℕ → Downloaded → Type 0
Passed before bytes (ok _, w) = w.sent ≡ before ++ bytes
Passed before bytes (err _, w) =
    (front back : List ℕ) × (bytes ≡ front ++ back) × (w.sent ≡ before ++ front)

Passed-extend :
    (before chunk rest at : List ℕ) (x : Downloaded)
    → at ≡ before ++ chunk
    → Passed at rest x
    → Passed before (chunk ++ rest) x
Passed-extend before chunk rest at (ok _, w) e sent =
    sent ∙ ap (λ t. t ++ rest) e ∙ append_assoc before chunk rest
Passed-extend before chunk rest at (err _, w) e (front, back, whole, sent) = (
  chunk ++ front,
  back,
  ap (λ t. chunk ++ t) whole ∙ sym (append_assoc chunk front back),
  sent ∙ ap (λ t. t ++ front) e ∙ append_assoc before chunk front,
)

Passed-behind :
    (more : List (List ℕ)) (before chunk : List ℕ) (x : Result IoError (Unit {0}) × Writer)
    → Delivers before chunk x
    → ((w : Writer) → Passed w.sent (joined more) (pass_on more w))
    → Passed before (chunk ++ joined more) (after_plain x (λ w. pass_on more w))
Passed-behind more before chunk (err e, w) (front, back, whole, sent, short) ih = (
  front,
  back ++ joined more,
  ap (λ t. t ++ joined more) whole ∙ append_assoc front back (joined more),
  sent,
)
Passed-behind more before chunk (ok _, w) sent ih =
    Passed-extend before chunk (joined more) w.sent (pass_on more w) sent (ih w)

pass_on-Passed :
    (chunks : List (List ℕ)) (w : Writer) → Passed w.sent (joined chunks) (pass_on chunks w)
pass_on-Passed [] w = sym (append-nil w.sent)
pass_on-Passed (chunk ∷ more) w =
    Passed-behind more w.sent chunk (write_all chunk w.sent w.accepts)
      (write_all-Delivers chunk w.sent w.accepts) (pass_on-Passed more)

module _ (n : Noise) (laws : NoiseLaws n) where
  open n use {State}
  open laws use {IsSynced}

  -- `Relayed` for the whole download.
  abbrev pub Tunneled : List (List ℕ) → State → Writer → Transport.Written n → Type 0
  Tunneled chunks r w (ok _, st', w') =
      (out : List ℕ) × (r' : State) × (w'.sent ≡ w.sent ++ out)
      × IsSynced st' r'
      × ((rest : List ℕ) (to : Writer) → download n (out ++ rest) r to ≡ pass_on chunks to)
  Tunneled chunks r w (err _, st', w') =
      (out : List ℕ) × (w'.sent ≡ w.sent ++ out)
      × ((to : Writer) → (e : TunnelError) × ((download n out r to).0 ≡ err e))

  Tunneled-of_Relayed :
      (chunks : List (List ℕ)) (r : State) (w : Writer) (x : Transport.Written n)
      → Relayed n laws chunks r w x
      → Tunneled chunks r w x
  unfolding download
  Tunneled-of_Relayed chunks r w (ok _, st', w') (out, r', sent, synced, passes) = (
    out,
    r',
    sent,
    synced,
    λ rest to. passes (suc (length (out ++ rest))) rest to (omega (arith, length-append out rest)),
  )
  Tunneled-of_Relayed chunks r w (err e, st', w') (out, sent, fails) =
      (out, sent, λ to. fails (suc (length out)) to)

  -- With a Noise session in step, for all reads of 1 to 48 KiB before the end of the plain side, and
  -- whatever the stream takes at each write: if the upload succeeds, the other side writes the chunks
  -- to its plain side in their order, is shut down if all were written, and does not read past the
  -- last record; the plain side has the bytes, or a front of them if a write failed. If the upload
  -- fails, what it has sent ends with an error on the other side, never with a shutdown.
  pub download-upload :
      (chunks : List (List ℕ)) (st r : State) (w : Writer)
      → All IsRead chunks
      → IsSynced st r
      → Tunneled chunks r w (upload n (chunks ++ ([] ∷ [])) st w)
        × ((to : Writer) → Passed to.sent (joined chunks) (pass_on chunks to))
  download-upload chunks st r w reads synced = (
    Tunneled-of_Relayed chunks r w _ (upload-Relayed n laws chunks st r w reads synced),
    pass_on-Passed chunks,
  )
