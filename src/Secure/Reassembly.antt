-- ===== src/Secure/Reassembly.antt =====
-- The records of a frame, and the reader that absorbs them.
use side_wire_kernel_su.Base.{
  ℕ, zero, suc, ◌+◌, ◌-◌, ◌≤◌, ◌<◌, min, ◌≡◌, refl, ap, ◌∙◌, Bool-cases, some, List, [], ◌∷◌, ◌++◌,
  ◌⊎◌, ok, ltb, ◌==◌, ==_refl, ==_iff, lt→==_false, take-append-take, if◌then◌else◌, le→ltb, lt→ltb,
  length, length-append, length-take, take, drop, take_all, take-append_left, drop-append_left,
  arith, inl, inr,
}
use side_wire_kernel_su.Frame.Kind.{FrameKind}
use side_wire_kernel_su.Frame.Header.{Frame, header_len, decode_frame_header}
use side_wire_kernel_su.Secure.Packet.{noise_chunk}
use side_wire_kernel_su.Secure.Record.{
  chunk_len, plain_record, ReadState, start, more, done, fill_header, absorb,
}

-- `if payload_take > 0` saves a call only.
taken_if : (k : ℕ) (xs : List ℕ) → (if ltb 0 k then take k xs else []) ≡ take k xs
taken_if zero xs = refl
taken_if (suc k) xs = rw (lt→ltb 0 (suc k) (omega arith))

-- A frame whose header is `header`.
module _ (header payload : List ℕ) (kind : FrameKind) (stream_id : ℕ) (full : length header ≡ 16)
    (decoded : decode_frame_header header ≡ ok (kind, stream_id, length payload)) where
  abbrev pub sent_frame : Frame
  sent_frame = record { kind = kind; stream_id = stream_id; payload = payload }

  -- The reader between two records, when it has the header and `front` of the payload.
  abbrev pub midway : List ℕ → ReadState
  midway front = record {
    header = header;
    metadata = some (kind, stream_id, length payload);
    payload = front;
  }

  fill_header-start : (bytes : List ℕ) → fill_header start (header ++ bytes) ≡ ok (midway [], bytes)
  unfolding fill_header start
  fill_header-start bytes =
      let all : min (16 - 0) (length (header ++ bytes)) ≡ length header =
        omega (arith, full, length-append header bytes) in
      rw (all, take-append_left header bytes, drop-append_left header bytes, full, decoded)

  fill_header-midway :
      (front bytes : List ℕ) → fill_header (midway front) bytes ≡ ok (midway front, bytes)
  unfolding fill_header
  fill_header-midway front bytes = rw full

  -- A record in the middle of the frame.
  absorb_more :
      (s : ReadState) (front body bytes : List ℕ)
      → fill_header s body ≡ ok (midway front, bytes)
      → length front + length bytes < length payload
      → absorb s (0 ∷ body) ≡ ok (more (midway (front ++ bytes)))
  unfolding absorb
  absorb_more s front body bytes filled short =
      let part : length (front ++ bytes) < length payload =
        omega (arith, length-append front bytes) in
      rw (
        filled,
        le→ltb (length payload) (length front + length bytes) (omega arith),
        lt→==_false (length (front ++ bytes)) (length payload) part,
      )

  -- The last record of the frame.
  absorb_last :
      (s : ReadState) (front body bytes : List ℕ)
      → fill_header s body ≡ ok (midway front, bytes)
      → front ++ bytes ≡ payload
      → absorb s (1 ∷ body) ≡ ok (done sent_frame)
  unfolding absorb
  absorb_last s front body bytes filled all = rw (
    filled,
    le→ltb (length payload) (length front + length bytes)
        (omega (arith, length-append front bytes, ap length all)),
    all,
    ==_refl (length payload),
  )

  abbrev pub total : ℕ
  total = header_len + length payload

  abbrev pub flag : ℕ → ℕ
  flag offset = if offset + chunk_len total offset == total then 1 else 0

  first_record :
      plain_record header payload 0 ≡ flag 0 ∷ (header ++ take (chunk_len total 0 - 16) payload)
  unfolding plain_record
  first_record =
      let c : ℕ = min (16 + length payload - 0) 61440 in
      let whole : min (0 + c) 16 ≡ 16 = omega arith in
      let taken : take 16 header ≡ header = take_all 16 header (omega (arith, full)) in
      rw (whole, taken, taken_if (c - 16) payload)

  later_record :
      (offset : ℕ)
      → 16 ≤ offset
      → plain_record header payload offset
        ≡ flag offset ∷ take (chunk_len total offset) (drop (offset - 16) payload)
  unfolding plain_record
  later_record offset h =
      let c : ℕ = min (16 + length payload - offset) 61440 in
      let size : offset - 16 + c - (offset - 16) ≡ c = omega arith in rw (le→ltb offset 16 h, size)

  -- The reader's state when the writer is at `offset`.
  abbrev pub ReaderAt : ℕ → ReadState → Type 0
  ReaderAt offset s =
      ((offset ≡ 0) × (s ≡ start)) ⊎ ((16 ≤ offset) × (s ≡ midway (take (offset - 16) payload)))

  -- The body of the record at `offset`, as the reader cuts it.
  record_body :
      (offset : ℕ) (s : ReadState)
      → ReaderAt offset s
      → offset < total
      → (body bytes front : List ℕ) × (plain_record header payload offset ≡ flag offset ∷ body)
        × (fill_header s body ≡ ok (midway front, bytes))
        × (front ++ bytes ≡ take (offset + chunk_len total offset - 16) payload)
  record_body offset s (inl (zero_offset, fresh)) h = (
    header ++ take (chunk_len total 0 - 16) payload,
    take (chunk_len total 0 - 16) payload,
    [],
    rw zero_offset first_record,
    rw fresh (fill_header-start (take (chunk_len total 0 - 16) payload)),
    rw zero_offset (let e : 0 + chunk_len total 0 ≡ chunk_len total 0 = omega arith in rw e),
  )
  record_body offset s (inr (past, mid)) h = (
    take (chunk_len total offset) (drop (offset - 16) payload),
    take (chunk_len total offset) (drop (offset - 16) payload),
    take (offset - 16) payload,
    later_record offset past,
    rw mid (
        fill_header-midway (take (offset - 16) payload)
          (take (chunk_len total offset) (drop (offset - 16) payload))),
    take-append-take (offset - 16) (chunk_len total offset) payload
        ∙ ap (λ k. take k payload) (omega arith),
  )

  chunk_bounds :
      (offset : ℕ)
      → offset < total
      → (1 ≤ chunk_len total offset)
        × (offset + chunk_len total offset ≤ total)
        × (16 ≤ offset + chunk_len total offset)
  unfolding chunk_len
  chunk_bounds offset h = omega arith

  -- One round of the writer and of the reader: either the frame is complete on both sides, or
  -- neither is done and the reader has followed the writer.
  pub absorb-plain_record :
      (offset : ℕ) (s : ReadState)
      → ReaderAt offset s
      → offset < total
      → let next = offset + chunk_len total offset in
        ((next ≡ total) × (absorb s (plain_record header payload offset) ≡ ok (done sent_frame)))
        ⊎ ((next < total)
            × (s' : ReadState) × (absorb s (plain_record header payload offset) ≡ ok (more s'))
            × ReaderAt next s')
  absorb-plain_record offset s at h =
      let next : ℕ = offset + chunk_len total offset in
      let (body, bytes, front, is_record, filled, joined) = record_body offset s at h in
      let (_, within, past) = chunk_bounds offset h in
      elim (Bool-cases (next == total)) [
        | inl last ↦
            let done_here : next ≡ total = (==_iff next total).0 last in
            inl (
              done_here,
              rw (is_record, last)
                  (absorb_last s front body bytes filled
                    (joined ∙ take_all (next - 16) payload (omega arith))),
            )
        | inr mid ↦
            let short : next < total = ground arith in
            inr (
              short,
              midway (take (next - 16) payload),
              rw (is_record, mid)
                  (absorb_more s front body bytes filled (
                      omega (
                        arith,
                        length-append front bytes,
                        ap length joined,
                        length-take (next - 16) payload,
                      ))
                    ∙ ap (λ p. ok (more (midway p))) joined),
              inr (past, refl),
            )
      ]

chunk_len-le : (total offset : ℕ) → chunk_len total offset ≤ noise_chunk
unfolding chunk_len
chunk_len-le total offset = omega arith

pub chunk_len-pos : (total offset : ℕ) → offset < total → 1 ≤ chunk_len total offset
unfolding chunk_len
chunk_len-pos total offset h = omega arith

-- A record has its flag and at most a chunk: it is never refused as too large.
pub length-plain_record :
    (header payload : List ℕ) (offset : ℕ)
    → length (plain_record header payload offset) ≤ noise_chunk + 1
unfolding plain_record
length-plain_record header payload offset =
    let c : ℕ = chunk_len (header_len + length payload) offset in
    let used : ℕ = min (offset + c) 16 - offset in
    elim (Bool-cases (ltb offset 16)) [
      | inl inside ↦
          rw (inside, taken_if (c - used) payload)
            (omega (
              arith,
              chunk_len-le (header_len + length payload) offset,
              length-append (take used (drop offset header)) (take (c - used) payload),
              length-take used (drop offset header),
              length-take (c - used) payload,
            ))
      | inr past ↦ rw past (
          omega (
            arith,
            chunk_len-le (header_len + length payload) offset,
            length-take (offset - 16 + c - (offset - 16)) (drop (offset - 16) payload),
          ))
    ]
