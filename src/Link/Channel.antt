-- ===== src/Link/Channel.antt =====
-- The links of the program: `SecureFrameWriter` and `SecureFrameReader` of
-- crates/sidewire-protocol/src/security.rs, with a cipher and without one.
use side_wire_kernel_su.Base.{◌≡◌, refl, ap, Option, none, some, [], Result, ok, err}
use side_wire_kernel_su.Io.{IoError, Writer, read_exact}
use side_wire_kernel_su.Frame.Header.{Frame, FrameError, IsFrame}
use side_wire_kernel_su.Frame.Header as Header
use side_wire_kernel_su.Frame.Stream as Plain
use side_wire_kernel_su.Frame.Delivery as Delivery
use side_wire_kernel_su.Secure.Noise.{Noise, NoiseLaws}
use side_wire_kernel_su.Secure.Packet.{SecureError, io, frame, from_frame}
use side_wire_kernel_su.Secure.Transport
use side_wire_kernel_su.Secure.RoundTrip.{FrameSeen, write_frame-FrameSeen}
use side_wire_kernel_su.Link.{Link, View, Seen, LinkLaws}

module _ (n : Noise) where
  abbrev pub channel : Link
  channel = record {
    Sender = Transport.FrameWriter n;
    Receiver = Transport.FrameReader n;
    Error = SecureError;
    send = Transport.write_frame n;
    receive = Transport.read_frame n;
  }

  module _ (laws : NoiseLaws n) where
    open n use {State}
    open laws use {IsSynced}

    -- Both ends are without a cipher, or their ciphers are in step.
    abbrev pub Same : Option State → Option State → Type 0
    Same none none = Unit
    Same (some s) (some r) = IsSynced s r
    Same _ _ = ⊥

    abbrev pub view : View channel
    view = record {
      Mode = Option State;
      sent = λ fw. fw.inner.sent;
      at = λ m bytes. record { inner = bytes; noise = m };
      InStep = λ fw m. Same fw.noise m;
    }

    Seen-plain :
        (f : Frame) (w : Writer) (x : Result FrameError (Unit {0}) × Writer)
        → Delivery.Seen f w x
        → Seen channel view
            (record { inner = w; noise = none })
            none
            f
            (from_frame x.0, record { inner = x.1; noise = none })
    unfolding Transport.read_frame
    Seen-plain f w (ok _, w') (out, went, arrives) =
        (out, none, went, tt, λ rest. rw (arrives rest))
    Seen-plain f w (err _, w') (out, went, cut) =
        (out, frame (Header.io IoError.unexpected_eof), went, rw cut refl)

    Seen-secure :
        (f : Frame) (st r : State) (w : Writer)
        (x : Result SecureError (Unit {0}) × Transport.FrameWriter n)
        → FrameSeen n laws f r w x
        → Seen channel view (record { inner = w; noise = some st }) (some r) f x
    Seen-secure f st r w (ok _, fw) (out, st', r', went, synced, arrives) =
        (out, some r', ap (λ t. t.inner.sent) went, rw went synced, arrives)
    Seen-secure f st r w (err _, fw) (out, went, cut) = (out, io IoError.unexpected_eof, went, cut)

    channel_delivers :
        (noise m : Option State) (w : Writer) (f : Frame)
        → IsFrame f
        → Same noise m
        → Seen channel view
            (record { inner = w; noise = noise })
            m
            f
            (Transport.write_frame n (record { inner = w; noise = noise }) f)
    unfolding Transport.write_frame Plain.write_frame
    channel_delivers none none w f h same =
        Seen-plain f w (Plain.write_frame w f) (Delivery.read_frame-write_frame w f h)
    channel_delivers none (some _) w f h same = absurd same
    channel_delivers (some _) none w f h same = absurd same
    channel_delivers (some st) (some r) w f h same =
        Seen-secure f st r w _ (write_frame-FrameSeen n laws f st r w h same)

    channel_ends :
        (m : Option State)
        → (e : SecureError) × (Transport.read_frame n (record { inner = []; noise = m }) ≡ err e)
    unfolding Transport.read_frame Plain.read_frame Transport.read_loop read_exact
    channel_ends none = (frame (Header.io IoError.unexpected_eof), refl)
    channel_ends (some r) = (io IoError.unexpected_eof, refl)

    pub channel_laws : LinkLaws channel view
    channel_laws = record {
      delivers = λ fw m f h same. channel_delivers fw.noise m fw.inner f h same;
      ends = channel_ends;
    }
