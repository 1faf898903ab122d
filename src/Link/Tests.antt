-- ===== src/Link/Tests.antt =====
-- The theorem on the writer task, applied to a link with a concrete cipher.
use side_wire_kernel_su.Base.{List, some, none, [], ◌∷◌, refl}
use side_wire_kernel_su.Secure.Transport
use side_wire_kernel_su.Secure.Tests.{toy, toy_laws, output, output-IsFrame}
use side_wire_kernel_su.Link.{WriterCommand, queued, shutdown, writer_task}
use side_wire_kernel_su.Link.Fifo.{Fifo, writer_task-Fifo}
use side_wire_kernel_su.Link.Channel.{channel, view, channel_laws}

-- It takes one frame and the front of the second.
abbrev halting : Transport.FrameWriter toy
halting = record {
  inner = record { sent = []; accepts = some 100 ∷ some 30 ∷ none ∷ [] };
  noise = some 5;
}

abbrev commands : List WriterCommand
commands = queued output ∷ queued output ∷ queued output ∷ shutdown ∷ []

writer_task-Fifo_example :
    Fifo
      (channel toy)
      (view toy toy_laws)
      (channel_laws toy toy_laws)
      halting
      (some 5)
      commands
      (writer_task (channel toy) halting commands)
writer_task-Fifo_example =
    writer_task-Fifo (channel toy) (view toy toy_laws) (channel_laws toy toy_laws) halting (some 5)
      commands refl (output-IsFrame, (output-IsFrame, (output-IsFrame, (tt, tt))))
