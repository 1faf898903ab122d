-- ===== src/Frame/Delivery.antt =====
-- `write_frame` and `read_frame` of crates/sidewire-protocol/src/frame.rs over one stream.
use side_wire_kernel_su.Base.{
  ℕ, ◌+◌, ◌<◌, ◌≡◌, ap, Bool-cases, List, ◌++◌, Result, ok, err, ltb, le→ltb, lt→ltb, ltb→le,
  length, length-append, length-drop, drop, shorter_front, take-append_left, drop-append_left,
  subst, ltb→lt, arith, inl, inr,
}
use side_wire_kernel_su.Io.{IoError, Writer, write_parts, read_exact}
use side_wire_kernel_su.Io.Delivery.{Delivers, write_parts-Delivers}
use side_wire_kernel_su.Io.Progress.{IsEager, write_parts-ok}
use side_wire_kernel_su.Frame.Header.{Frame, FrameError, io, header_len, IsFrame}
use side_wire_kernel_su.Frame.RoundTrip.{
  header_bytes, frame_header_lem, decode_frame_header-header_bytes,
}
use side_wire_kernel_su.Frame.Stream.{send_parts, write_frame, read_frame, from_io}

-- The bytes of a frame on the wire.
abbrev pub wire_bytes : Frame → List ℕ
wire_bytes f = header_bytes f.kind f.stream_id (length f.payload) ++ f.payload

pub read_exact_front :
    (front back : List ℕ) → read_exact (length front) (front ++ back) ≡ ok (front, back)
unfolding read_exact
read_exact_front front back = rw (
  le→ltb (length (front ++ back)) (length front) (omega (arith, length-append front back)),
  take-append_left front back,
  drop-append_left front back,
)

pub read_exact_short :
    (n : ℕ) (input : List ℕ) → length input < n → read_exact n input ≡ err IoError.unexpected_eof
unfolding read_exact
read_exact_short n input h = rw (lt→ltb _ _ h)

read_header :
    (f : Frame) (tail : List ℕ)
    → read_exact header_len (header_bytes f.kind f.stream_id (length f.payload) ++ tail)
      ≡ ok (header_bytes f.kind f.stream_id (length f.payload), tail)
read_header f tail = read_exact_front (header_bytes f.kind f.stream_id (length f.payload)) tail

pub read_frame-wire_bytes :
    (f : Frame) (rest : List ℕ) → IsFrame f → read_frame (wire_bytes f ++ rest) ≡ ok (f, rest)
unfolding read_frame
read_frame-wire_bytes f rest h = rw (
  read_header f (f.payload ++ rest),
  decode_frame_header-header_bytes f.kind f.stream_id _ h.id_fits h.payload_fits,
  read_exact_front f.payload rest,
)

-- A stream that ends inside the header.
cut_in_header :
    (input : List ℕ) → length input < 16 → read_frame input ≡ err (io IoError.unexpected_eof)
unfolding read_frame
cut_in_header input h = rw (read_exact_short header_len input h)

-- A stream that ends inside the payload.
cut_in_payload :
    (f : Frame) (front : List ℕ)
    → IsFrame f
    → length front < length f.payload
    → read_frame (header_bytes f.kind f.stream_id (length f.payload) ++ front)
      ≡ err (io IoError.unexpected_eof)
unfolding read_frame
cut_in_payload f front h short = rw (
  read_header f front,
  decode_frame_header-header_bytes f.kind f.stream_id _ h.id_fits h.payload_fits,
  read_exact_short (length f.payload) front short,
)

-- A proper prefix of the bytes of a frame that fits the format is never taken for a frame: the
-- reader reports the end of the stream.
pub read_frame_cut :
    (f : Frame) (front back : List ℕ)
    → IsFrame f
    → wire_bytes f ≡ front ++ back
    → 0 < length back
    → read_frame front ≡ err (io IoError.unexpected_eof)
read_frame_cut f front back h e short = elim (Bool-cases (ltb (length front) 16)) [
  | inl inside ↦ cut_in_header front (ltb→lt _ _ inside)
  | inr past ↦
      let header : List ℕ = header_bytes f.kind f.stream_id (length f.payload) in
      let cut : header ++ drop 16 front ≡ front =
        shorter_front header f.payload front back e (ltb→le _ _ past) in
      subst (λ t. read_frame t ≡ err (io IoError.unexpected_eof)) cut
        (cut_in_payload f (drop 16 front) h (
          omega (
            arith,
            ltb→le _ _ past,
            length-drop 16 front,
            ap length e,
            length-append front back,
            length-append header f.payload,
          )))
]

write_frame_lem :
    (w : Writer) (f : Frame)
    → IsFrame f
    → write_frame w f ≡ (
        let (r, w') =
          write_parts
            (header_bytes f.kind f.stream_id (length f.payload))
            f.payload
            0
            0
            w.sent
            w.accepts in
        (from_io r, w'))
unfolding write_frame
write_frame_lem w f h =
    ap (send_parts w f.payload)
      (frame_header_lem f.kind f.stream_id (length f.payload) h.payload_fits)

-- What a peer sees of an attempt to write `f`, given the bytes that went out.
abbrev pub Seen : Frame → Writer → Result FrameError (Unit {0}) × Writer → Type 0
Seen f w (ok _, w') =
    (out : List ℕ) × (w'.sent ≡ w.sent ++ out)
    × ((rest : List ℕ) → read_frame (out ++ rest) ≡ ok (f, rest))
Seen f w (err _, w') =
    (out : List ℕ) × (w'.sent ≡ w.sent ++ out) × (read_frame out ≡ err (io IoError.unexpected_eof))

Seen-of_Delivers :
    (f : Frame) (w : Writer) (r : Result IoError (Unit {0})) (w' : Writer)
    → IsFrame f
    → Delivers w.sent (wire_bytes f) (r, w')
    → Seen f w (from_io r, w')
Seen-of_Delivers f w (ok _) w' h sent = (wire_bytes f, sent, λ rest. read_frame-wire_bytes f rest h)
Seen-of_Delivers f w (err e) w' h (front, back, cut, sent, short) =
    (front, sent, read_frame_cut f front back h cut short)

-- Whatever partial writes the stream makes: if the frame is written, the peer reads exactly it
-- and then whatever follows; if the write fails, what went out is no frame, and a peer that finds
-- the stream closed behind it reports its end.
pub read_frame-write_frame : (w : Writer) (f : Frame) → IsFrame f → Seen f w (write_frame w f)
read_frame-write_frame w f h = rw (write_frame_lem w f h) (
    Seen-of_Delivers f w _ _ h (
      write_parts-Delivers (header_bytes f.kind f.stream_id (length f.payload)) f.payload 0 0 w.sent
        w.accepts))

-- A writer that takes a byte or more at every poll, for as many polls as the frame has bytes, gets
-- the whole of a frame that fits the format out.
pub write_frame-ok :
    (w : Writer) (f : Frame)
    → IsFrame f
    → IsEager w.accepts (16 + length f.payload)
    → (write_frame w f).0 ≡ ok tt
write_frame-ok w f h eager = rw (write_frame_lem w f h) (
    ap from_io (
      write_parts-ok (header_bytes f.kind f.stream_id (length f.payload)) f.payload 0 0 w.sent
        w.accepts (subst (IsEager w.accepts) (omega arith) eager)))
