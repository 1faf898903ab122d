-- ===== src/Link/Fifo.antt =====
-- The writer task and the reading loop over any link.
use side_wire_kernel_su.Base.{
  ℕ, zero, suc, ◌<◌, ◌≡◌, refl, sym, ap, ◌∙◌, Option, none, some, List, [], ◌∷◌, ◌++◌, append-nil,
  append_assoc, Result, ok, err, length, All, arith,
}
use side_wire_kernel_su.Frame.Header.{Frame, IsFrame}
use side_wire_kernel_su.Link.{
  Link, View, Seen, LinkLaws, WriterCommand, queued, halted, shutdown, Answer, sent_whole, stopped,
  writer_task, receive_all, after_write, Answered,
}

-- The frames whose senders were told that they went out.
abbrev pub acknowledged : {E : Type 0} → List WriterCommand → List (Answer E) → List Frame
acknowledged (queued f ∷ commands) (sent_whole ∷ answers) = f ∷ acknowledged commands answers
acknowledged _ _ = []

-- The frames as a connection delivers them, with the error that ends it behind them.
abbrev pub then_end : List Frame → List (Option Frame)
then_end [] = none ∷ []
then_end (f ∷ fs) = some f ∷ then_end fs

abbrev pub IsCommand : WriterCommand → Type 0
IsCommand (queued f) = IsFrame f
IsCommand _ = Unit

module _ (l : Link) (v : View l) (laws : LinkLaws l v) where
  open l use {Sender, Error, send, receive}
  open v use {Mode, sent, at, InStep}

  -- The bytes that have gone out since `s`, and what a receiver in the mode `m` takes from them.
  pub record Fifo (s : Sender) (m : Mode) (commands : List WriterCommand) (x : Answered l)
      : Type 0 where
    pub out : List ℕ
    pub went : sent x.1 ≡ sent s ++ out
    pub behind :
        (fuel : ℕ)
        → length commands < fuel
        → receive_all l fuel (at m out) ≡ then_end (acknowledged commands x.0)

  Fifo-nothing :
      (s : Sender) (m : Mode) (commands : List WriterCommand) (answers : List (Answer Error))
      → acknowledged commands answers ≡ []
      → Fifo s m commands (answers, s)
  unfolding receive_all
  Fifo-nothing s m commands answers e = record {
    out = [];
    went = sym (append-nil (sent s));
    behind = elim [ zero ↦ λ h. absurd (omega arith) | suc fuel ↦ λ h. rw ((laws.ends m).1, e) ];
  }

  Fifo-step :
      (s : Sender) (m : Mode) (f : Frame) (commands : List WriterCommand)
      (x : Result Error (Unit {0}) × Sender)
      → Seen l v s m f x
      → ((s' : Sender) (m' : Mode) → InStep s' m' → Fifo s' m' commands (writer_task l s' commands))
      → Fifo s m (queued f ∷ commands) (after_write l x (λ s'. writer_task l s' commands))
  unfolding receive_all
  Fifo-step s m f commands (ok _, s') (out, m', went, in_step, arrives) next =
      let later = next s' m' in_step in
      record {
        out = out ++ later.out;
        went = later.went ∙ ap (λ t. t ++ later.out) went ∙ append_assoc (sent s) out later.out;
        behind = elim [
          | zero ↦ λ h. absurd (omega arith)
          | suc fuel ↦
              λ h. rw (arrives later.out) (ap (λ t. some f ∷ t) (later.behind fuel (omega arith)))
        ];
      }
  Fifo-step s m f commands (err _, s') (out, e, went, cut) next = record {
    out = out;
    went = went;
    behind = elim [ zero ↦ λ h. absurd (omega arith) | suc fuel ↦ λ h. rw cut refl ];
  }

  -- From ends that are in step, and whatever frames that fit the format are queued, whether writes
  -- fail or the task is shut down: what the reading loop takes from the bytes that went out are
  -- the frames whose senders were told that they were sent, in the order in which they were
  -- queued, and behind them the end of the connection.
  pub writer_task-Fifo :
      (s : Sender) (m : Mode) (commands : List WriterCommand)
      → InStep s m
      → All IsCommand commands
      → Fifo s m commands (writer_task l s commands)
  unfolding writer_task
  writer_task-Fifo s m [] in_step fit = Fifo-nothing s m [] [] refl
  writer_task-Fifo s m (shutdown ∷ more) in_step fit = Fifo-nothing s m (shutdown ∷ more) [] refl
  writer_task-Fifo s m (halted f ∷ more) in_step fit =
      Fifo-nothing s m (halted f ∷ more) (stopped ∷ []) refl
  writer_task-Fifo s m (queued f ∷ more) in_step (first, others) =
      Fifo-step s m f more (send s f) (laws.delivers s m f first in_step)
        (λ s' m' in_step'. writer_task-Fifo s' m' more in_step' others)
