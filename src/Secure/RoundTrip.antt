-- ===== src/Secure/RoundTrip.antt =====
-- `SecureFrameWriter` and `SecureFrameReader` over one stream.
use side_wire_kernel_su.Base.{
  ℕ, ◌+◌, ◌≡◌, refl, ap, some, List, ◌++◌, Result, ok, err, length, length-append, arith, inl,
}
use side_wire_kernel_su.Io.{IoError, Writer}
use side_wire_kernel_su.Frame.Header.{Frame, IsFrame}
use side_wire_kernel_su.Frame.RoundTrip.{
  header_bytes, frame_header_lem, decode_frame_header-header_bytes,
}
use side_wire_kernel_su.Secure.Noise.{Noise, NoiseLaws}
use side_wire_kernel_su.Secure.Packet.{SecureError, io}
use side_wire_kernel_su.Secure.Record.{start}
use side_wire_kernel_su.Secure.Transport
use side_wire_kernel_su.Secure.Delivery.{Seen, write_loop-Seen}

module _ (n : Noise) (laws : NoiseLaws n) where
  open n use {State}
  open laws use {IsSynced}

  -- What the peer's `read_frame`, with the cipher `r`, makes of the bytes that a write sent: after
  -- a success it returns the frame, leaves what follows it on the stream, and the two ciphers are
  -- in step again; after a failure it reports the end of the stream.
  abbrev pub FrameSeen :
      Frame → State → Writer → Result SecureError (Unit {0}) × Transport.FrameWriter n → Type 0
  FrameSeen f r w (ok _, fw) =
      (out : List ℕ) × (st' : State) × (r' : State) × (fw
        ≡ record { inner = record fw.inner { sent = w.sent ++ out }; noise = some st' })
      × IsSynced st' r'
      × ((rest : List ℕ)
          → Transport.read_frame n (record { inner = out ++ rest; noise = some r })
            ≡ ok (f, record { inner = rest; noise = some r' }))
  FrameSeen f r w (err _, fw) =
      (out : List ℕ) × (fw.inner.sent ≡ w.sent ++ out)
      × (Transport.read_frame n (record { inner = out; noise = some r })
          ≡ err (io IoError.unexpected_eof))

  FrameSeen-of_Seen :
      (f : Frame) (r : State) (w : Writer) (x : Transport.Written n)
      → Seen n laws f start r w x
      → FrameSeen f r w (x.0, record { inner = x.2; noise = some x.1 })
  unfolding Transport.read_frame
  FrameSeen-of_Seen f r w (ok _, st', w') (out, r', sent, synced, seen) = (
    out,
    st',
    r',
    ap (λ t. record { inner = record { sent = t; accepts = w'.accepts }; noise = some st' }) sent,
    synced,
    λ rest. rw (seen rest (length (out ++ rest)) (omega (arith, length-append out rest))),
  )
  FrameSeen-of_Seen f r w (err _, st', w') (out, sent, seen) = (out, sent, rw (seen (length out)))

  -- Over an established Noise session, and whatever partial writes the stream makes, a frame that
  -- fits the format is written in records, cut at any boundary. If the write succeeds, the peer
  -- reads back the frame and leaves what follows it, and the two ciphers are in step again; if it
  -- fails, a peer that finds the stream closed behind what went out reports its end.
  pub write_frame-FrameSeen :
      (f : Frame) (st r : State) (w : Writer)
      → IsFrame f
      → IsSynced st r
      → FrameSeen f r w (Transport.write_frame n (record { inner = w; noise = some st }) f)
  unfolding Transport.write_frame
  write_frame-FrameSeen f st r w h synced =
      let header : List ℕ = header_bytes f.kind f.stream_id (length f.payload) in
      rw (frame_header_lem f.kind f.stream_id (length f.payload) h.payload_fits) (
        FrameSeen-of_Seen f r w _ (
          write_loop-Seen n laws header f.payload f.kind f.stream_id refl
            (decode_frame_header-header_bytes f.kind f.stream_id (length f.payload) h.id_fits
              h.payload_fits)
            (16 + length f.payload) 0 start st r w (inl (refl, refl)) (omega arith) (omega arith)
            synced))
