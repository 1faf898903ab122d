-- ===== src/Secure/Delivery.antt =====
-- The loops of the encrypted writer and reader over one stream.
use side_wire_kernel_su.Base.{
  ℕ, zero, suc, ◌+◌, ◌≤◌, ◌<◌, ◌≡◌, refl, ap, ◌∙◌, List, ◌++◌, append_assoc, ok, err, le→ltb,
  lt→ltb, length, length-append, arith, inl, inr,
}
use side_wire_kernel_su.Io.{IoError, Writer}
use side_wire_kernel_su.Frame.Kind.{FrameKind}
use side_wire_kernel_su.Frame.Header.{Frame, header_len, decode_frame_header}
use side_wire_kernel_su.Secure.Noise.{Noise, NoiseLaws}
use side_wire_kernel_su.Secure.Packet.{
  SecureError, io, noise_chunk, max_packet, Sent, write_raw_packet, read_raw_packet,
}
use side_wire_kernel_su.Secure.PacketDelivery.{
  packet, PacketSeen, read_raw_packet_front, read_raw_packet-write_raw_packet,
}
use side_wire_kernel_su.Secure.Record.{
  chunk_len, plain_record, ReadState, Progress, more, done, absorb,
}
use side_wire_kernel_su.Secure.Reassembly.{
  ReaderAt, absorb-plain_record, length-plain_record, chunk_len-pos,
}
use side_wire_kernel_su.Secure.Transport

module _ (n : Noise) (laws : NoiseLaws n) where
  open n use {State}
  open laws use {IsSynced, delivers}

  abbrev pub Written : Type 0
  Written = Transport.Written n

  -- A record that is sent whole is decrypted to its plaintext.
  abbrev pub RecordSent : Writer → State → State → List ℕ → Type 0
  RecordSent w st r plain =
      (st' : State) × (cipher : List ℕ) × (r' : State) × (Transport.write_noise_record n w st plain
        ≡ ((write_raw_packet w cipher).0, st', (write_raw_packet w cipher).1))
      × PacketSeen cipher w (write_raw_packet w cipher)
      × ((rest : List ℕ)
          → Transport.read_noise_record n (packet cipher ++ rest) r ≡ ok (plain, r', rest))
      × IsSynced st' r'

  pub record_sent :
      (w : Writer) (st r : State) (plain : List ℕ)
      → length plain ≤ noise_chunk + 1
      → IsSynced st r
      → RecordSent w st r plain
  unfolding Transport.write_noise_record Transport.read_noise_record
  record_sent w st r plain h synced =
      let (st', cipher, r', encrypted, decrypted, size, synced') =
        delivers st r plain synced (omega arith) in
      let fits : length cipher ≤ max_packet = omega arith in
      (
        st',
        cipher,
        r',
        rw (le→ltb (noise_chunk + 1) (length plain) h, encrypted),
        read_raw_packet-write_raw_packet w cipher fits,
        λ rest. rw (read_raw_packet_front cipher rest fits, decrypted),
        synced',
      )

  -- What a peer in the state `s` with the cipher `r` sees of the bytes that a write sent.
  module _ (f : Frame) where
    abbrev pub Seen : ReadState → State → Writer → Written → Type 0
    Seen s r w (ok _, st', w') =
        (out : List ℕ) × (r' : State) × (w'.sent ≡ w.sent ++ out)
        × IsSynced st' r'
        × ((rest : List ℕ) (fuel : ℕ)
            → length out ≤ fuel
            → Transport.read_loop n fuel s (out ++ rest) r ≡ ok (f, r', rest))
    Seen s r w (err _, st', w') =
        (out : List ℕ) × (w'.sent ≡ w.sent ++ out)
        × ((fuel : ℕ) → Transport.read_loop n fuel s out r ≡ err (io IoError.unexpected_eof))

    -- One complete record in front of what is seen.
    Seen-behind :
        (s s' : ReadState) (r r' : State) (w w₁ : Writer) (cipher : List ℕ) (x : Written)
        → w₁.sent ≡ w.sent ++ packet cipher
        → ((rest : List ℕ) (fuel : ℕ)
            → Transport.read_loop n (suc fuel) s (packet cipher ++ rest) r
              ≡ Transport.read_loop n fuel s' rest r')
        → Seen s' r' w₁ x
        → Seen s r w x
    unfolding Transport.read_loop
    Seen-behind s s' r r' w w₁ cipher (ok _, st', w') sent reads (out, r'', sent', synced, seen) = (
      packet cipher ++ out,
      r'',
      sent' ∙ ap (λ t. t ++ out) sent ∙ append_assoc w.sent (packet cipher) out,
      synced,
      λ rest. elim [
        | zero ↦ λ h. absurd (omega arith)
        | suc fuel ↦ λ h. rw (append_assoc (packet cipher) out rest) (
            reads (out ++ rest) fuel
            ∙ seen rest fuel (omega (arith, length-append (packet cipher) out)))
      ],
    )
    Seen-behind s s' r r' w w₁ cipher (err _, st', w') sent reads (out, sent', seen) = (
      packet cipher ++ out,
      sent' ∙ ap (λ t. t ++ out) sent ∙ append_assoc w.sent (packet cipher) out,
      elim [ zero ↦ refl | suc fuel ↦ reads out fuel ∙ seen fuel ],
    )

    -- A record that is cut off.
    Seen-cut :
        (s : ReadState) (r st' : State) (w w' : Writer) (out : List ℕ) (e : SecureError)
        → w'.sent ≡ w.sent ++ out
        → read_raw_packet out ≡ err (io IoError.unexpected_eof)
        → Seen s r w (err e, st', w')
    unfolding Transport.read_loop Transport.read_noise_record
    Seen-cut s r st' w w' out e sent cut = (out, sent, elim [ zero ↦ refl | suc fuel ↦ rw cut ])

  module _ (header payload : List ℕ) (kind : FrameKind) (stream_id : ℕ) (full : length header ≡ 16)
      (decoded : decode_frame_header header ≡ ok (kind, stream_id, length payload)) where
    abbrev pub this : Frame
    this = record { kind = kind; stream_id = stream_id; payload = payload }

    abbrev pub total : ℕ
    total = header_len + length payload

    write_loop_end :
        (fuel offset : ℕ) (st : State) (w : Writer)
        → total ≤ offset
        → Transport.write_loop n fuel header payload offset st w ≡ (ok tt, st, w)
    unfolding Transport.write_loop
    write_loop_end zero offset st w h = refl
    write_loop_end (suc fuel) offset st w h = rw (le→ltb offset total h)

    -- What one round of the reader does with a record that arrives whole.
    read_round :
        (s : ReadState) (r r' : State) (plain cipher : List ℕ) (step : Progress)
        → ((rest : List ℕ)
            → Transport.read_noise_record n (packet cipher ++ rest) r ≡ ok (plain, r', rest))
        → absorb s plain ≡ ok step
        → (rest : List ℕ) (fuel : ℕ)
        → Transport.read_loop n (suc fuel) s (packet cipher ++ rest) r
          ≡ Transport.resume n step r' rest (λ s'. Transport.read_loop n fuel s' rest r')
    unfolding Transport.read_loop
    read_round s r r' plain cipher step arrives absorbed rest fuel = rw (arrives rest, absorbed)

    -- The last record of the frame.
    Seen-last :
        (s : ReadState) (r r' st' : State) (w w' : Writer) (plain cipher : List ℕ)
        → w'.sent ≡ w.sent ++ packet cipher
        → ((rest : List ℕ)
            → Transport.read_noise_record n (packet cipher ++ rest) r ≡ ok (plain, r', rest))
        → absorb s plain ≡ ok (done this)
        → IsSynced st' r'
        → Seen this s r w (ok tt, st', w')
    Seen-last s r r' st' w w' plain cipher sent arrives absorbed synced = (
      packet cipher,
      r',
      sent,
      synced,
      λ rest. elim [
        | zero ↦ λ h. absurd (omega arith)
        | suc fuel ↦ λ h. read_round s r r' plain cipher (done this) arrives absorbed rest fuel
      ],
    )

    -- One round of the writer, by what became of its packet.
    round-Seen :
        (fuel offset : ℕ) (s : ReadState) (st' r r' : State) (w : Writer) (cipher : List ℕ)
        (x : Sent)
        → ReaderAt header payload kind stream_id full decoded offset s
        → offset < total
        → PacketSeen cipher w x
        → ((rest : List ℕ)
            → Transport.read_noise_record n (packet cipher ++ rest) r
              ≡ ok (plain_record header payload offset, r', rest))
        → IsSynced st' r'
        → ((s' : ReadState) (w₁ : Writer)
            → ReaderAt header payload kind stream_id full decoded
                (offset + chunk_len total offset)
                s'
            → offset + chunk_len total offset < total
            → Seen this s' r' w₁ (
                Transport.write_loop n fuel header payload
                  (offset + chunk_len total offset)
                  st'
                  w₁))
        → Seen this s r w (
            Transport.and_then n
              (x.0, st', x.1)
              (λ st₁ w₁.
                Transport.write_loop n fuel header payload
                  (offset + chunk_len total offset)
                  st₁
                  w₁))
    round-Seen fuel offset s st' r r' w cipher (err e, w₁) at h (out, sent, cut) arrives synced ih =
        Seen-cut this s r st' w w₁ out e sent cut
    round-Seen fuel offset s st' r r' w cipher (ok _, w₁) at h sent arrives synced ih =
        let plain : List ℕ = plain_record header payload offset in
        elim (absorb-plain_record header payload kind stream_id full decoded offset s at h) [
          | inl (last, absorbed) ↦
              rw (write_loop_end fuel (offset + chunk_len total offset) st' w₁ (omega arith))
                (Seen-last s r r' st' w w₁ plain cipher sent arrives absorbed synced)
          | inr (short, s', absorbed, at') ↦
              Seen-behind this s s' r r' w w₁ cipher _ sent
                (read_round s r r' plain cipher (more s') arrives absorbed) (ih s' w₁ at' short)
        ]

    pub write_loop-Seen :
        (fuel offset : ℕ) (s : ReadState) (st r : State) (w : Writer)
        → ReaderAt header payload kind stream_id full decoded offset s
        → offset < total
        → total ≤ offset + fuel
        → IsSynced st r
        → Seen this s r w (Transport.write_loop n fuel header payload offset st w)
    unfolding Transport.write_loop
    write_loop-Seen zero offset s st r w at h enough synced = absurd (omega arith)
    write_loop-Seen (suc fuel) offset s st r w at h enough synced =
        let plain : List ℕ = plain_record header payload offset in
        let (st', cipher, r', written, seen, arrives, synced') =
          record_sent w st r plain (length-plain_record header payload offset) synced in
        rw (lt→ltb offset total h, written)
          (round-Seen fuel offset s st' r r' w cipher (write_raw_packet w cipher) at h seen arrives
            synced'
            (λ s' w₁ at' short.
              write_loop-Seen fuel (offset + chunk_len total offset) s' st' r' w₁ at' short
                (omega (arith, chunk_len-pos total offset h)) synced'))
