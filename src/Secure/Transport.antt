-- ===== src/Secure/Transport.antt =====
-- crates/sidewire-protocol/src/security.rs: Noise records on the stream, `SecureFrameWriter` and
-- `SecureFrameReader`. The scratch buffers only save allocations and are left out.
use side_wire_kernel_su.Base.{
  ℕ, zero, suc, ◌+◌, Option, none, some, List, Result, ok, err, ◌>>=◌, context, ltb, if◌then◌else◌,
  length,
}
use side_wire_kernel_su.Io.{IoError, Writer}
use side_wire_kernel_su.Frame.Kind.{FrameKind}
use side_wire_kernel_su.Frame.Header.{Frame, FrameError, header_len, frame_header}
use side_wire_kernel_su.Frame.Stream as Plain
use side_wire_kernel_su.Secure.Noise.{Noise}
use side_wire_kernel_su.Secure.Packet.{
  SecureError, record_too_large, noise, io, frame, from_frame, noise_chunk, write_raw_packet,
  read_raw_packet,
}
use side_wire_kernel_su.Secure.Record.{
  chunk_len, plain_record, ReadState, start, Progress, more, done, absorb,
}

module _ (n : Noise) where
  open n use {State, write_message, read_message}

  -- A result, the cipher's new state, and the stream. The state steps even if the write fails.
  abbrev pub Written : Type 0
  Written = Result SecureError (Unit {0}) × State × Writer

  unfoldable pub send_cipher : Writer → State → Option (State × List ℕ) → Written
  send_cipher w st none = (err noise, st, w)
  send_cipher w st (some (st', cipher)) = let (r, w') = write_raw_packet w cipher in (r, st', w')

  -- `write_noise_record_with_buffer`
  unfoldable pub write_noise_record : Writer → State → List ℕ → Written
  unfolding send_cipher
  write_noise_record w st plaintext =
      if ltb (noise_chunk + 1) (length plaintext)
      then (err (record_too_large (length plaintext)), st, w)
      else send_cipher w st (write_message st plaintext)

  -- `read_noise_record_into`: the plaintext, the cipher's new state, and the rest of the stream.
  unfoldable pub read_noise_record : List ℕ → State → Result SecureError (List ℕ × State × List ℕ)
  read_noise_record input st = do
    (cipher, input') ← read_raw_packet input
    (st', plain) ← context (read_message st cipher) noise
    ok (plain, st', input')

  -- `?` on the result of a write
  abbrev pub and_then : Written → (State → Writer → Written) → Written
  and_then (ok _, st, w) k = k st w
  and_then (err e, st, w) k = (err e, st, w)

  -- `while offset < total`. Every round sends a byte or more, so `total` rounds are enough, and
  -- where the fuel is used up the test of the loop fails too.
  unfoldable pub write_loop : ℕ → List ℕ → List ℕ → ℕ → State → Writer → Written
  write_loop zero header payload offset st w = (ok tt, st, w)
  write_loop (suc fuel) header payload offset st w =
      let total = header_len + length payload in
      let round =
        and_then (write_noise_record w st (plain_record header payload offset))
          (λ st' w'. write_loop fuel header payload (offset + chunk_len total offset) st' w') in
      if ltb offset total then round else (ok tt, st, w)

  -- `write_raw` with a cipher
  unfoldable pub send_records : Writer → State → List ℕ → Result FrameError (List ℕ) → Written
  send_records w st payload (err e) = (err (frame e), st, w)
  send_records w st payload (ok header) =
      write_loop (header_len + length payload) header payload 0 st w

  -- `SecureFrameWriter`: the stream, and the cipher if there is one.
  pub record FrameWriter : Type 0 where
    pub inner : Writer
    pub noise : Option State

  unfoldable pub write_raw_by :
      Option State → Writer → FrameKind → ℕ → List ℕ → Result SecureError (Unit {0}) × FrameWriter
  unfolding send_records
  write_raw_by none w kind stream_id payload =
      let (r, w') = Plain.write_raw_frame w kind stream_id payload in
      (from_frame r, record { inner = w'; noise = none })
  write_raw_by (some st) w kind stream_id payload =
      let (r, st', w') = send_records w st payload (frame_header kind stream_id (length payload)) in
      (r, record { inner = w'; noise = some st' })

  unfoldable pub write_raw :
      FrameWriter → FrameKind → ℕ → List ℕ → Result SecureError (Unit {0}) × FrameWriter
  unfolding write_raw_by
  write_raw fw kind stream_id payload = write_raw_by fw.noise fw.inner kind stream_id payload

  unfoldable pub write_frame : FrameWriter → Frame → Result SecureError (Unit {0}) × FrameWriter
  unfolding write_raw
  write_frame fw f = write_raw fw f.kind f.stream_id f.payload

  -- The end of a round: the frame is returned, or the next round is begun.
  abbrev pub resume :
      Progress
      → State
      → List ℕ
      → (ReadState → Result SecureError (Frame × State × List ℕ))
      → Result SecureError (Frame × State × List ℕ)
  resume (done f) st input next = ok (f, st, input)
  resume (more s) st input next = next s

  -- The loop of `read_frame`. Every round takes four bytes or more of the stream, so as many rounds
  -- as it has bytes are enough; where the fuel is used up nothing is left of the stream.
  unfoldable pub read_loop :
      ℕ → ReadState → List ℕ → State → Result SecureError (Frame × State × List ℕ)
  read_loop zero s input st = err (io IoError.unexpected_eof)
  read_loop (suc fuel) s input st = read_noise_record input st >>= λ (plain, st', input').
      absorb s plain >>= λ step. resume step st' input' (λ s'. read_loop fuel s' input' st')

  -- `SecureFrameReader`: the bytes of the stream, and the cipher if there is one.
  pub record FrameReader : Type 0 where
    pub inner : List ℕ
    pub noise : Option State

  unfoldable pub read_frame_by : Option State → List ℕ → Result SecureError (Frame × FrameReader)
  read_frame_by none input = do
    (f, input') ← from_frame (Plain.read_frame input)
    ok (f, record { inner = input'; noise = none })
  read_frame_by (some st) input = do
    (f, st', input') ← read_loop (length input) start input st
    ok (f, record { inner = input'; noise = some st' })

  unfoldable pub read_frame : FrameReader → Result SecureError (Frame × FrameReader)
  unfolding read_frame_by
  read_frame fr = read_frame_by fr.noise fr.inner
