-- ===== src/Secure/Relay.antt =====
-- What one side of `copy_noise_tunnel` sends, and the other side passes on
-- (crates/sidewire-protocol/src/security.rs).
use side_wire_kernel_su.Base.{
  ℕ, zero, suc, ◌*◌, ◌≤◌, ◌<◌, ◌≡◌, refl, ap, ◌∙◌, List, [], ◌∷◌, ◌++◌, append_assoc, Result, ok,
  err, length, length-append, All, arith,
}
use side_wire_kernel_su.Io.{IoError, Writer, write_all}
use side_wire_kernel_su.Secure.Noise.{Noise, NoiseLaws}
use side_wire_kernel_su.Secure.Packet.{SecureError, io, Sent, write_raw_packet, read_raw_packet}
use side_wire_kernel_su.Secure.PacketDelivery.{packet, PacketSeen}
use side_wire_kernel_su.Secure.Transport
use side_wire_kernel_su.Secure.Delivery.{record_sent}
use side_wire_kernel_su.Secure.Tunnel.{
  TunnelError, plain, secure, Downloaded, after_plain, download_record, upload, download_loop,
}

-- What `read` gives while the plain side is open.
abbrev pub IsRead : List ℕ → Type 0
IsRead chunk = (0 < length chunk) × (length chunk ≤ 48 * 1024)

abbrev pub joined : List (List ℕ) → List ℕ
joined [] = []
joined (chunk ∷ more) = chunk ++ joined more

-- The chunks, written to the plain side of the peer one after another.
abbrev pub pass_on : List (List ℕ) → Writer → Downloaded
pass_on [] w = (ok tt, w)
pass_on (chunk ∷ more) w = after_plain (write_all chunk w.sent w.accepts) (λ w'. pass_on more w')

module _ (n : Noise) (laws : NoiseLaws n) where
  open n use {State}
  open laws use {IsSynced}

  -- What a peer with the cipher `r` does with the bytes that an upload of these chunks sent.
  abbrev pub Relayed : List (List ℕ) → State → Writer → Transport.Written n → Type 0
  Relayed chunks r w (ok _, st', w') =
      (out : List ℕ) × (r' : State) × (w'.sent ≡ w.sent ++ out)
      × IsSynced st' r'
      × ((fuel : ℕ) (rest : List ℕ) (to : Writer)
          → length out ≤ fuel
          → download_loop n fuel (out ++ rest) r to ≡ pass_on chunks to)
  Relayed chunks r w (err _, st', w') =
      (out : List ℕ) × (w'.sent ≡ w.sent ++ out)
      × ((fuel : ℕ) (to : Writer) → (e : TunnelError) × ((download_loop n fuel out r to).0 ≡ err e))

  arrived :
      (fuel : ℕ) (bytes cipher rest : List ℕ) (r r' : State) (to : Writer)
      → Transport.read_noise_record n (packet cipher ++ rest) r ≡ ok (bytes, r', rest)
      → download_loop n (suc fuel) (packet cipher ++ rest) r to
        ≡ download_record bytes to (λ to'. download_loop n fuel rest r' to')
  unfolding download_loop
  arrived fuel bytes cipher rest r r' to arrives = rw arrives refl

  -- A record that is cut off.
  Relayed-cut :
      (chunks : List (List ℕ)) (r st' : State) (w w' : Writer) (out : List ℕ) (e : SecureError)
      → w'.sent ≡ w.sent ++ out
      → read_raw_packet out ≡ err (io IoError.unexpected_eof)
      → Relayed chunks r w (err e, st', w')
  unfolding download_loop Transport.read_noise_record
  Relayed-cut chunks r st' w w' out e sent cut = (
    out,
    sent,
    elim [
      | zero ↦ λ to. (secure (io IoError.unexpected_eof), refl)
      | suc fuel ↦ λ to. (secure (io IoError.unexpected_eof), rw cut refl)
    ],
  )

  -- The last record, by what became of its packet.
  end-Relayed :
      (st' r r' : State) (w : Writer) (cipher : List ℕ) (x : Sent)
      → PacketSeen cipher w x
      → ((rest : List ℕ)
          → Transport.read_noise_record n (packet cipher ++ rest) r ≡ ok (1 ∷ [], r', rest))
      → IsSynced st' r'
      → Relayed [] r w (x.0, st', x.1)
  unfolding download_record
  end-Relayed st' r r' w cipher (ok _, w') sent arrives synced = (
    packet cipher,
    r',
    sent,
    synced,
    elim [
      | zero ↦ λ rest to h. absurd (omega arith)
      | suc fuel ↦ λ rest to h. arrived fuel (1 ∷ []) cipher rest r r' to (arrives rest)
    ],
  )
  end-Relayed st' r r' w cipher (err e, w') (out, sent, cut) arrives synced =
      Relayed-cut [] r st' w w' out e sent cut

  after_plain-fails :
      (x : Result IoError (Unit {0}) × Writer) (next : Writer → Downloaded)
      → ((to : Writer) → (e : TunnelError) × ((next to).0 ≡ err e))
      → (e : TunnelError) × ((after_plain x next).0 ≡ err e)
  after_plain-fails (ok _, to) next h = h to
  after_plain-fails (err e, to) next h = (plain e, refl)

  after_plain-agrees :
      (x : Result IoError (Unit {0}) × Writer) (next next' : Writer → Downloaded)
      → ((to : Writer) → next to ≡ next' to)
      → after_plain x next ≡ after_plain x next'
  after_plain-agrees (ok _, to) next next' h = h to
  after_plain-agrees (err e, to) next next' h = refl

  -- One complete record of a chunk in front of what is relayed.
  Relayed-behind :
      (b : ℕ) (bytes : List ℕ) (more : List (List ℕ)) (r r' : State) (w w₁ : Writer)
      (cipher : List ℕ) (x : Transport.Written n)
      → w₁.sent ≡ w.sent ++ packet cipher
      → ((rest : List ℕ)
          → Transport.read_noise_record n (packet cipher ++ rest) r ≡ ok (0 ∷ b ∷ bytes, r', rest))
      → Relayed more r' w₁ x
      → Relayed ((b ∷ bytes) ∷ more) r w x
  unfolding download_record download_loop
  Relayed-behind b bytes more r r' w w₁ cipher (ok _, st', w') sent arrives
        (out, r'', sent', synced, passes) =
      (
        packet cipher ++ out,
        r'',
        sent' ∙ ap (λ t. t ++ out) sent ∙ append_assoc w.sent (packet cipher) out,
        synced,
        elim [
          | zero ↦ λ rest to h. absurd (omega arith)
          | suc fuel ↦ λ rest to h. rw (append_assoc (packet cipher) out rest) (
              arrived fuel (0 ∷ b ∷ bytes) cipher (out ++ rest) r r' to (arrives (out ++ rest))
              ∙ after_plain-agrees (write_all (b ∷ bytes) to.sent to.accepts) _ _
                  (λ to'. passes fuel rest to' (omega (arith, length-append (packet cipher) out))))
        ],
      )
  Relayed-behind b bytes more r r' w w₁ cipher (err _, st', w') sent arrives (out, sent', fails) = (
    packet cipher ++ out,
    sent' ∙ ap (λ t. t ++ out) sent ∙ append_assoc w.sent (packet cipher) out,
    elim [
      | zero ↦ λ to. (secure (io IoError.unexpected_eof), refl)
      | suc fuel ↦ λ to.
          (let (e, failed) =
              after_plain-fails (write_all (b ∷ bytes) to.sent to.accepts)
                (λ to'. download_loop n fuel out r' to') (fails fuel) in
            (
              e,
              ap (λ t. t.0) (arrived fuel (0 ∷ b ∷ bytes) cipher out r r' to (arrives out))
                  ∙ failed,
            ))
    ],
  )

  -- A chunk, by what became of its packet.
  chunk-Relayed :
      (b : ℕ) (bytes : List ℕ) (more : List (List ℕ)) (st' r r' : State) (w : Writer)
      (cipher : List ℕ) (x : Sent)
      → PacketSeen cipher w x
      → ((rest : List ℕ)
          → Transport.read_noise_record n (packet cipher ++ rest) r ≡ ok (0 ∷ b ∷ bytes, r', rest))
      → IsSynced st' r'
      → ((w₁ : Writer) → Relayed more r' w₁ (upload n (more ++ ([] ∷ [])) st' w₁))
      → Relayed
          ((b ∷ bytes) ∷ more)
          r
          w
          (Transport.and_then n (x.0, st', x.1) (λ st₁ w₁. upload n (more ++ ([] ∷ [])) st₁ w₁))
  chunk-Relayed b bytes more st' r r' w cipher (ok _, w₁) sent arrives synced ih =
      Relayed-behind b bytes more r r' w w₁ cipher _ sent arrives (ih w₁)
  chunk-Relayed b bytes more st' r r' w cipher (err e, w₁) (out, sent, cut) arrives synced ih =
      Relayed-cut ((b ∷ bytes) ∷ more) r st' w w₁ out e sent cut

  pub upload-Relayed :
      (chunks : List (List ℕ)) (st r : State) (w : Writer)
      → All IsRead chunks
      → IsSynced st r
      → Relayed chunks r w (upload n (chunks ++ ([] ∷ [])) st w)
  unfolding upload
  upload-Relayed [] st r w tt synced =
      let (st', cipher, r', written, seen, arrives, synced') =
        record_sent n laws w st r (1 ∷ []) (omega arith) synced in
      rw written (end-Relayed st' r r' w cipher (write_raw_packet w cipher) seen arrives synced')
  upload-Relayed ([] ∷ more) st r w ((some_read, _), _) synced = absurd (omega arith)
  upload-Relayed ((b ∷ bytes) ∷ more) st r w ((_, small), reads) synced =
      let (st', cipher, r', written, seen, arrives, synced') =
        record_sent n laws w st r (0 ∷ b ∷ bytes) (omega arith) synced in
      rw written (
        chunk-Relayed b bytes more st' r r' w cipher (write_raw_packet w cipher) seen arrives
          synced' (λ w₁. upload-Relayed more st' r' w₁ reads synced'))
