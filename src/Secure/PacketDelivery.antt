-- ===== src/Secure/PacketDelivery.antt =====
-- `write_raw_packet` and `read_raw_packet` over one stream.
use side_wire_kernel_su.Base.{
  ℕ, ◌%◌, ◌^◌, ◌≤◌, ◌<◌, ◌≡◌, ap, Bool-cases, List, ◌++◌, ok, err, ltb, le→ltb, ltb→le, ltb→lt,
  length, length-append, length-drop, drop, arith, inl, inr, subst, shorter_front,
}
use side_wire_kernel_su.Base.Bytes.{be32}
use side_wire_kernel_su.Io.{IoError, Writer, Written, read_exact}
use side_wire_kernel_su.Io.Delivery.{Delivers, write_parts-Delivers}
use side_wire_kernel_su.Frame.Delivery.{read_exact_front, read_exact_short}
use side_wire_kernel_su.Frame.RoundTrip.{from_be-be32}
use side_wire_kernel_su.Secure.Packet.{
  io, max_packet, Sent, io_sent, write_raw_packet, read_raw_packet,
}

abbrev pub packet : List ℕ → List ℕ
packet bytes = be32 (length bytes) ++ bytes

pub read_raw_packet_front :
    (bytes rest : List ℕ)
    → length bytes ≤ max_packet
    → read_raw_packet (packet bytes ++ rest) ≡ ok (bytes, rest)
unfolding read_raw_packet
read_raw_packet_front bytes rest h =
    let header : read_exact 4 (packet bytes ++ rest) ≡ ok (be32 (length bytes), bytes ++ rest) =
      read_exact_front (be32 (length bytes)) (bytes ++ rest) in
    rw (
      header,
      from_be-be32 (length bytes) (omega arith),
      le→ltb max_packet (length bytes) h,
      read_exact_front bytes rest,
    )

cut_in_length :
    (input : List ℕ) → length input < 4 → read_raw_packet input ≡ err (io IoError.unexpected_eof)
unfolding read_raw_packet
cut_in_length input h = rw (read_exact_short 4 input h)

cut_in_body :
    (bytes front : List ℕ)
    → length bytes ≤ max_packet
    → length front < length bytes
    → read_raw_packet (be32 (length bytes) ++ front) ≡ err (io IoError.unexpected_eof)
unfolding read_raw_packet
cut_in_body bytes front h short =
    let header : read_exact 4 (be32 (length bytes) ++ front) ≡ ok (be32 (length bytes), front) =
      read_exact_front (be32 (length bytes)) front in
    rw (
      header,
      from_be-be32 (length bytes) (omega arith),
      le→ltb max_packet (length bytes) h,
      read_exact_short (length bytes) front short,
    )

read_raw_packet_cut :
    (bytes front back : List ℕ)
    → length bytes ≤ max_packet
    → packet bytes ≡ front ++ back
    → 0 < length back
    → read_raw_packet front ≡ err (io IoError.unexpected_eof)
read_raw_packet_cut bytes front back h e short = elim (Bool-cases (ltb (length front) 4)) [
  | inl inside ↦ cut_in_length front (ltb→lt _ _ inside)
  | inr past ↦
      let header : List ℕ = be32 (length bytes) in
      subst (λ t. read_raw_packet t ≡ err (io IoError.unexpected_eof))
        (shorter_front header bytes front back e (ltb→le _ _ past))
        (cut_in_body bytes (drop 4 front) h (
          omega (
            arith,
            ltb→le _ _ past,
            length-drop 4 front,
            ap length e,
            length-append front back,
            length-append header bytes,
          )))
]

-- What a peer sees of an attempt to write a packet.
abbrev pub PacketSeen : List ℕ → Writer → Sent → Type 0
PacketSeen bytes w (ok _, w') = w'.sent ≡ w.sent ++ packet bytes
PacketSeen bytes w (err _, w') =
    (out : List ℕ) × (w'.sent ≡ w.sent ++ out)
    × (read_raw_packet out ≡ err (io IoError.unexpected_eof))

PacketSeen-of_Delivers :
    (bytes : List ℕ) (w : Writer) (r : Written)
    → length bytes ≤ max_packet
    → Delivers w.sent (packet bytes) r
    → PacketSeen bytes w (io_sent r)
PacketSeen-of_Delivers bytes w (ok _, w') h sent = sent
PacketSeen-of_Delivers bytes w (err _, w') h (front, back, cut, sent, short) =
    (front, sent, read_raw_packet_cut bytes front back h cut short)

-- Whatever partial writes the stream makes, a packet of a size within the limit goes out whole, its
-- length first; or the write fails, and what went out is reported as the end of the stream by a
-- peer that finds nothing behind it.
pub read_raw_packet-write_raw_packet :
    (w : Writer) (bytes : List ℕ)
    → length bytes ≤ max_packet
    → PacketSeen bytes w (write_raw_packet w bytes)
unfolding write_raw_packet
read_raw_packet-write_raw_packet w bytes h =
    let small : length bytes % 2 ^ 32 ≡ length bytes = omega arith in
    rw (le→ltb max_packet (length bytes) h, small)
      (PacketSeen-of_Delivers bytes w _ h
        (write_parts-Delivers (be32 (length bytes)) bytes 0 0 w.sent w.accepts))
