-- ===== src/Secure/Record.antt =====
-- crates/sidewire-protocol/src/security.rs: the plaintext records that a frame is cut into, and
-- the state in which `SecureFrameReader::read_frame` puts them together again.
use side_wire_kernel_su.Base.{
  ℕ, ◌+◌, ◌-◌, min, not, ◌&&◌, Option, none, some, List, [], ◌∷◌, ◌++◌, Result, ok, err, ◌>>=◌,
  ◌>>◌, bail_if, ltb, ◌==◌, if◌then◌else◌, length, take, drop, slice,
}
use side_wire_kernel_su.Frame.Kind.{FrameKind}
use side_wire_kernel_su.Frame.Header.{Frame, header_len, decode_frame_header}
use side_wire_kernel_su.Secure.Packet.{
  SecureError, invalid_flag, empty_record, exceeded_length, missing_final, truncated_header,
  invalid_length, from_frame, noise_chunk,
}

-- `chunk_len` of the round at `offset`
unfoldable pub chunk_len : ℕ → ℕ → ℕ
chunk_len total offset = min (total - offset) noise_chunk

-- What the loop of `write_raw` puts into `plain_scratch` at `offset`, cleared before.
unfoldable pub plain_record : List ℕ → List ℕ → ℕ → List ℕ
unfolding chunk_len
plain_record header payload offset =
    let total = header_len + length payload in
    let chunk = chunk_len total offset in
    let header_end = min (offset + chunk) header_len in
    let payload_take = chunk - (header_end - offset) in
    let payload_start = offset - header_len in
    (if offset + chunk == total then 1 else 0)
    ∷ (if ltb offset header_len
        then slice header offset header_end
          ++ (if ltb 0 payload_take then take payload_take payload else [])
        else slice payload payload_start (payload_start + chunk))

-- The local variables of `read_frame`: the bytes of `header` up to `header_filled`, `metadata` and
-- `payload`.
pub record ReadState : Type 0 where
  pub header : List ℕ
  pub metadata : Option (FrameKind × ℕ × ℕ)
  pub payload : List ℕ

unfoldable pub start : ReadState
start = record { header = []; metadata = none; payload = [] }

pub data Progress : Type 0 where
  more : ReadState → Progress
  done : Frame → Progress

-- The block under `if header_filled < HEADER_LEN`: the new state, and the bytes that are left.
unfoldable pub fill_header : ReadState → List ℕ → Result SecureError (ReadState × List ℕ)
fill_header s bytes =
    let taken = min (header_len - length s.header) (length bytes) in
    let header' = s.header ++ take taken bytes in
    let bytes' = drop taken bytes in
    if ltb (length s.header) header_len
    then if length header' == header_len
      then (from_frame (decode_frame_header header') >>= λ decoded.
          ok (record { header = header'; metadata = some decoded; payload = [] }, bytes'))
      else ok (record s { header = header' }, bytes')
    else ok (s, bytes)

-- The block under `if let Some((_, _, expected)) = metadata`.
unfoldable pub fill_payload :
    Option (FrameKind × ℕ × ℕ) → ReadState → ℕ → List ℕ → Result SecureError ReadState
fill_payload none s final_flag bytes = ok s
fill_payload (some (_, _, expected)) s final_flag bytes = do
  bail_if (ltb expected (length s.payload + length bytes)) exceeded_length
  let payload' = s.payload ++ bytes
  bail_if (final_flag == 0 && length payload' == expected) missing_final
  ok (record s { payload = payload' })

-- What stands under `if final_flag == 1`.
unfoldable pub finish : Option (FrameKind × ℕ × ℕ) → ReadState → Result SecureError Progress
finish none s = err truncated_header
finish (some (kind, stream_id, expected)) s = do
  bail_if (not (length s.payload == expected)) invalid_length
  ok (done (record { kind = kind; stream_id = stream_id; payload = s.payload }))

-- One round of the loop, on a decrypted record.
unfoldable pub absorb : ReadState → List ℕ → Result SecureError Progress
unfolding fill_header fill_payload finish
absorb s [] = err empty_record
absorb s (final_flag ∷ bytes) = do
  bail_if (ltb 1 final_flag) (invalid_flag final_flag)
  (s₁, rest) ← fill_header s bytes
  s₂ ← fill_payload s₁.metadata s₁ final_flag rest
  if final_flag == 1 then finish s₂.metadata s₂ else ok (more s₂)
