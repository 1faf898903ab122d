-- ===== src/Io.antt =====
-- Byte streams under the wire code: `AsyncWrite` as a sequence of partial writes, `AsyncRead` as
-- the bytes that arrive before the end of the stream; and the vectored-write loop that
-- crates/sidewire-protocol/src/frame.rs and security.rs both hold.
pub mod Delivery
pub mod Progress
use side_wire_kernel_su.Base.{
  ℕ, ◌+◌, ◌-◌, min, Bool, Option, none, some, List, [], ◌∷◌, ◌++◌, Result, ok, err, ltb, ◌==◌,
  if◌then◌else◌, length, take, drop,
}

-- `write_zero` is `ErrorKind::WriteZero`, `unexpected_eof` what `read_exact` returns at the end of
-- the stream, `failed` any other I/O error.
pub data IoError : Type 0 where
  write_zero unexpected_eof failed : IoError

-- What a writer has sent, and how many bytes it will take at each further poll (`none`: the poll
-- fails). A poll past the end of the list fails.
pub record Writer : Type 0 where
  pub sent : List ℕ
  pub accepts : List (Option ℕ)

abbrev pub Written : Type 0
Written = Result IoError (Unit {0}) × Writer

abbrev pub fail_with : IoError → List ℕ → List (Option ℕ) → Written
fail_with e out accepts = (err e, record { sent = out; accepts = accepts })

-- `AsyncWriteExt::write_all`, as documented: it writes on until the buffer is empty.
unfoldable pub write_all : List ℕ → List ℕ → List (Option ℕ) → Written
write_all [] out accepts = (ok tt, record { sent = out; accepts = accepts })
write_all (b ∷ bs) out [] = fail_with IoError.failed out []
write_all (b ∷ bs) out (none ∷ more) = fail_with IoError.failed out more
write_all (b ∷ bs) out (some n ∷ more) =
    let written = min n (length (b ∷ bs)) in
    let rest = write_all (drop written (b ∷ bs)) (out ++ take written (b ∷ bs)) more in
    if written == 0 then fail_with IoError.write_zero out more else rest

-- What stands behind the loop: the payload that the vectored writes have left.
unfoldable pub write_rest : List ℕ → ℕ → List ℕ → List (Option ℕ) → Written
write_rest payload payload_offset out accepts =
    if ltb payload_offset (length payload)
    then write_all (drop payload_offset payload) out accepts
    else (ok tt, record { sent = out; accepts = accepts })

-- `while header_offset < header.len() { … write_vectored(&parts) … }` and what follows it.
unfoldable pub write_parts : List ℕ → List ℕ → ℕ → ℕ → List ℕ → List (Option ℕ) → Written
write_parts header payload header_offset payload_offset out [] =
    if ltb header_offset (length header)
    then fail_with IoError.failed out []
    else write_rest payload payload_offset out []
write_parts header payload header_offset payload_offset out (none ∷ more) =
    if ltb header_offset (length header)
    then fail_with IoError.failed out more
    else write_rest payload payload_offset out (none ∷ more)
write_parts header payload header_offset payload_offset out (some n ∷ more) =
    let parts = drop header_offset header ++ drop payload_offset payload in
    let written = min n (length parts) in
    let header_left = length header - header_offset in
    let in_header =
      write_parts header payload (header_offset + written) payload_offset
        (out ++ take written parts) more in
    let past_header =
      write_parts header payload (length header) (payload_offset + (written - header_left))
        (out ++ take written parts) more in
    if ltb header_offset (length header)
    then if written == 0
      then fail_with IoError.write_zero out more
      else if ltb written header_left
      then in_header
      else past_header
    else write_rest payload payload_offset out (some n ∷ more)

-- `AsyncReadExt::read_exact` on the bytes that are still to arrive.
unfoldable pub read_exact : ℕ → List ℕ → Result IoError (List ℕ × List ℕ)
read_exact n input =
    if ltb (length input) n then err IoError.unexpected_eof else ok (take n input, drop n input)
