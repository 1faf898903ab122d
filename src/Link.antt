-- ===== src/Link.antt =====
-- The two tasks that hold the ends of a connection: the writer task of apps/sidewire/src/transport.rs
-- and apps/sidewired/src/transport.rs, and the loop around `read_frame` of the reader task and of
-- the daemon. They are written over an interface of frame streams.
pub mod Fifo
pub mod Channel
mod Tests
use side_wire_kernel_su.Base.{
  ℕ, zero, suc, ◌≡◌, Option, none, some, List, [], ◌∷◌, ◌++◌, Result, ok, err,
}
use side_wire_kernel_su.Frame.Header.{Frame, IsFrame}

-- The operations of `SecureFrameWriter` and `SecureFrameReader`.
pub record Link : Type 1 where
  pub Sender : Type 0
  pub Receiver : Type 0
  pub Error : Type 0
  pub send : Sender → Frame → Result Error (Unit {0}) × Sender
  pub receive : Receiver → Result Error (Frame × Receiver)

-- How the two ends are compared: the bytes that a sender has put on the stream, a receiver by its
-- mode and the bytes that are to arrive, and which sender a receiver is in step with.
pub record View (l : Link) : Type 1 where
  pub Mode : Type 0
  pub sent : Link.Sender l → List ℕ
  pub at : Mode → List ℕ → Link.Receiver l
  pub InStep : Link.Sender l → Mode → Type 0

module _ (l : Link) (v : View l) where
  open l use {Sender, Receiver, Error, send, receive}
  open v use {Mode, sent, at, InStep}

  -- What a receiver in the mode `m` makes of an attempt to send `f`.
  abbrev pub Seen : Sender → Mode → Frame → Result Error (Unit {0}) × Sender → Type 0
  Seen s m f (ok _, s') =
      (out : List ℕ) × (m' : Mode) × (sent s' ≡ sent s ++ out)
      × InStep s' m'
      × ((rest : List ℕ) → receive (at m (out ++ rest)) ≡ ok (f, at m' rest))
  Seen s m f (err _, s') =
      (out : List ℕ) × (e : Error) × (sent s' ≡ sent s ++ out) × (receive (at m out) ≡ err e)

  -- The laws of a link. Nothing can be received from a stream that ends at once.
  pub record LinkLaws : Type 0 where
    pub delivers :
        (s : Sender) (m : Mode) (f : Frame) → IsFrame f → InStep s m → Seen s m f (send s f)
    pub ends : (m : Mode) → (e : Error) × (receive (at m []) ≡ err e)

-- What the writer task waits for; a `halted` frame is taken from the queue, but the shutdown comes
-- before its write. A shutdown that cuts a write short is a write that fails.
pub data WriterCommand : Type 0 where
  queued halted : Frame → WriterCommand
  shutdown : WriterCommand

-- The answer that `done` gets.
pub data Answer (E : Type 0) : Type 0 where
  sent_whole stopped : Answer E
  refused : E → Answer E

module _ (l : Link) where
  open l use {Sender, Receiver, Error, send, receive}

  -- The answers that the task has given, and the writer.
  abbrev pub Answered : Type 0
  Answered = List (Answer Error) × Sender

  abbrev pub answer_first : Answer Error → Answered → Answered
  answer_first r (answers, s) = (r ∷ answers, s)

  abbrev pub after_write : Result Error (Unit {0}) × Sender → (Sender → Answered) → Answered
  after_write (ok _, s) next = answer_first sent_whole (next s)
  after_write (err e, s) next = (refused e ∷ [], s)

  unfoldable pub writer_task : Sender → List WriterCommand → Answered
  writer_task s [] = ([], s)
  writer_task s (shutdown ∷ more) = ([], s)
  writer_task s (halted f ∷ more) = (stopped ∷ [], s)
  writer_task s (queued f ∷ more) = after_write (send s f) (λ s'. writer_task s' more)

  abbrev pub after_read :
      Result Error (Frame × Receiver) → (Receiver → List (Option Frame)) → List (Option Frame)
  after_read (ok (f, r)) next = some f ∷ next r
  after_read (err _) next = none ∷ []

  -- What the reading loop takes from the connection, up to the error that ends it.
  unfoldable pub receive_all : ℕ → Receiver → List (Option Frame)
  receive_all zero r = []
  receive_all (suc fuel) r = after_read (receive r) (λ r'. receive_all fuel r')
