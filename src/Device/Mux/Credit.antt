-- ===== src/Device/Mux/Credit.antt =====
-- The credit that a stream of the device has left, and the bytes that were sent for the rest.
use side_wire_kernel_su.Base.{
  ℕ, ◌+◌, ◌≤◌, ◌≡◌, refl, ◌∙◌, true, false, Bool, Option, none, some, List, [], ◌∷◌, ◌++◌, Result,
  ◌==◌, if◌then◌else◌, branch_intro, length, arith,
}
use side_wire_kernel_su.Base.Assoc.{lookup}
use side_wire_kernel_su.Frame.Kind.{FrameKind, file_chunk}
use side_wire_kernel_su.Frame.Header.{Frame}
use side_wire_kernel_su.Device.Mux.{
  Mux, MuxError, Meanwhile, Acted, queue_frame, is_canceled, report, queue_now,
}
use side_wire_kernel_su.Device.Mux.Trace.{MuxOp, credit}

abbrev pub chunk_size : FrameKind → ℕ → ℕ
chunk_size file_chunk n = n
chunk_size _ n = 0

-- The bytes of the stream's file that the frames carry.
abbrev pub frame_bytes : ℕ → Frame → ℕ
frame_bytes id f = if f.stream_id == id then chunk_size f.kind (length f.payload) else 0

abbrev pub file_bytes : ℕ → List Frame → ℕ
file_bytes id [] = 0
file_bytes id (f ∷ fs) = frame_bytes id f + file_bytes id fs

abbrev pub amount : Option ℕ → ℕ
amount none = 0
amount (some n) = n

-- The credit that is left, and what is sent for the rest.
abbrev pub weight : ℕ → Mux → ℕ
weight id m = amount (lookup id m.flow_credits) + file_bytes id m.waiting + file_bytes id m.wire

-- What a call grants the stream.
abbrev pub grants : ℕ → MuxOp → ℕ
grants id (credit j bytes) = if j == id then bytes else 0
grants id _ = 0

abbrev pub total_grants : ℕ → List MuxOp → ℕ
total_grants id [] = 0
total_grants id (op ∷ ops) = grants id op + total_grants id ops

pub record Charged (id budget : ℕ) (m m' : Mux) : Type 0 where
  pub bound : weight id m' ≤ weight id m + budget
  pub mode : m'.supports_flow_control ≡ m.supports_flow_control

pub Charged-none : (id budget : ℕ) (m : Mux) → Charged id budget m m
Charged-none id budget m = record { bound = omega arith; mode = refl }

pub Charged-trans :
    (id a b : ℕ) (m m₁ m₂ : Mux) → Charged id a m m₁ → Charged id b m₁ m₂ → Charged id (a + b) m m₂
Charged-trans id a b m m₁ m₂ p q = record {
  bound = omega (arith, p.bound, q.bound);
  mode = q.mode ∙ p.mode;
}

pub file_bytes-append :
    (id : ℕ) (fs gs : List Frame) → file_bytes id (fs ++ gs) ≡ file_bytes id fs + file_bytes id gs
file_bytes-append id [] gs = omega arith
file_bytes-append id (f ∷ fs) gs = omega (arith, file_bytes-append id fs gs)

pub queue_frame-Charged :
    (id : ℕ) (m : Mux) (f : Frame) (answer : Result MuxError (Unit {0}))
    → Charged id (frame_bytes id f) m (queue_frame m f answer).1
unfolding queue_frame
queue_frame-Charged id m f answer =
    branch_intro (λ (x : Acted (Unit {0})). Charged id (frame_bytes id f) m x.1) m.failed
      (λ _. Charged-none id (frame_bytes id f) m)
      (λ _. record { bound = omega (arith, file_bytes-append id m.waiting (f ∷ [])); mode = refl })

pub report-Charged :
    (id b j : ℕ) (m : Mux) (canceled : Bool) (x : Acted (Unit {0}))
    → Charged id b m x.1
    → Charged id b m (report j canceled x).1
report-Charged id b j m true x c = c
report-Charged id b j m false x c = c

pub queue_now-Charged :
    (id : ℕ) (m : Mux) (f : Frame) (w : Meanwhile)
    → Charged id (frame_bytes id f) m (queue_now m f w).1
queue_now-Charged id m f w =
    branch_intro (λ (x : Acted (Unit {0})). Charged id (frame_bytes id f) m x.1)
      (is_canceled m f.stream_id) (λ _. Charged-none id (frame_bytes id f) m)
      (λ _.
        report-Charged id (frame_bytes id f) f.stream_id m w.cancels (queue_frame m f w.answer)
          (queue_frame-Charged id m f w.answer))
