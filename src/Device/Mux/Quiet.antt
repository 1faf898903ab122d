-- ===== src/Device/Mux/Quiet.antt =====
-- What a call of a `MuxWriter` leaves of the cancellation of a stream: the sends.
use side_wire_kernel_su.Base.{
  ℕ, ◌+◌, ◌≤◌, if◌then◌else◌, arith, ◌≡◌, ◌≢◌, refl, sym, ap, ◌∙◌, true, false, not, ◌||◌, Bool,
  Option, none, some, List, [], ◌∷◌, ◌++◌, append_assoc, append-nil, Result, ok, err, Poll, ready,
  pending, ltb, ◌==◌, branch_intro, length,
}
use side_wire_kernel_su.Base.Assoc.{lookup}
use side_wire_kernel_su.Frame.Kind.{FrameKind, file_chunk, error}
use side_wire_kernel_su.Frame.Header.{Frame}
use side_wire_kernel_su.Host.Flow.{max_flow_credit, try_take}
use side_wire_kernel_su.Device.Mux.{
  Mux, MuxError, Meanwhile, Acted, queue_frame, contains, is_canceled, if_running, take_bytes,
  acquire_found, acquire_flow_credit, report, queue_now, queue_after, send_kind, state_after,
  mux_send, mux_send_raw, send_error,
}

-- How many of the frames are of the stream.
abbrev pub frames_of : ℕ → List Frame → ℕ
frames_of id [] = 0
frames_of id (f ∷ fs) = (if f.stream_id == id then 1 else 0) + frames_of id fs

pub frames_of-append :
    (id : ℕ) (fs gs : List Frame) → frames_of id (fs ++ gs) ≡ frames_of id fs + frames_of id gs
frames_of-append id [] gs = omega arith
frames_of-append id (f ∷ fs) gs = omega (arith, frames_of-append id fs gs)

-- From `m` to `m'` the stream `id` stays canceled. Of its frames, no more go out, or wait at the end,
-- than waited for room in the queue before.
pub record Quiet (id : ℕ) (m m' : Mux) : Type 0 where
  pub still : is_canceled m' id ≡ true
  pub out : List Frame
  pub wire_eq : m'.wire ≡ m.wire ++ out
  pub passed : frames_of id out + frames_of id m'.waiting ≤ frames_of id m.waiting

pub Quiet-none :
    (id : ℕ) (m m' : Mux)
    → is_canceled m' id ≡ true
    → m'.wire ≡ m.wire
    → m'.waiting ≡ m.waiting
    → Quiet id m m'
Quiet-none id m m' c e same = record {
  still = c;
  out = [];
  wire_eq = e ∙ sym (append-nil m.wire);
  passed = omega (arith, ap (frames_of id) same);
}

pub Quiet-trans : (id : ℕ) (m m₁ m₂ : Mux) → Quiet id m m₁ → Quiet id m₁ m₂ → Quiet id m m₂
Quiet-trans id m m₁ m₂ p q = record {
  still = q.still;
  out = p.out ++ q.out;
  wire_eq = q.wire_eq ∙ (ap (λ t. t ++ q.out) p.wire_eq ∙ append_assoc m.wire p.out q.out);
  passed = omega (arith, p.passed, q.passed, frames_of-append id p.out q.out);
}

pub queue_frame-Quiet :
    (id : ℕ) (m : Mux) (f : Frame) (answer : Result MuxError (Unit {0}))
    → is_canceled m id ≡ true
    → f.stream_id ≢ id
    → Quiet id m (queue_frame m f answer).1
unfolding queue_frame is_canceled
queue_frame-Quiet id m f answer c ne =
    branch_intro (λ (x : Acted (Unit {0})). Quiet id m x.1) m.failed
      (λ _. Quiet-none id m m c refl refl)
      (λ _. record {
        still = c;
        out = [];
        wire_eq = sym (append-nil m.wire);
        passed = ground (arith, frames_of-append id m.waiting (f ∷ []), ne);
      })

-- A stream that is running is not the canceled one.
pub running_ne : (id j : ℕ) (m : Mux) → is_canceled m id ≡ true → is_canceled m j ≡ false → j ≢ id
running_ne id j m c r e = let h : is_canceled m id ≡ false = rw (sym e) r in cc

pub if_running-Quiet :
    (id j : ℕ) (m : Mux) (next : Poll (Acted (Unit {0})))
    → is_canceled m id ≡ true
    → (j ≢ id → Quiet id m (state_after m next))
    → Quiet id m (state_after m (if_running m j next))
if_running-Quiet id j m next c h =
    branch_intro (λ p. Quiet id m (state_after m p)) (is_canceled m j)
      (λ _. Quiet-none id m m c refl refl) (λ running. h (running_ne id j m c running))

pub report-Quiet :
    (id j : ℕ) (m : Mux) (b : Bool) (x : Acted (Unit {0}))
    → Quiet id m x.1
    → Quiet id m (report j b x).1
report-Quiet id j m true x q = q
report-Quiet id j m false x q = q

pub queue_now-Quiet :
    (id : ℕ) (m : Mux) (f : Frame) (w : Meanwhile)
    → is_canceled m id ≡ true
    → Quiet id m (queue_now m f w).1
queue_now-Quiet id m f w c =
    branch_intro (λ (x : Acted (Unit {0})). Quiet id m x.1) (is_canceled m f.stream_id)
      (λ _. Quiet-none id m m c refl refl)
      (λ running.
        report-Quiet id f.stream_id m w.cancels (queue_frame m f w.answer)
          (queue_frame-Quiet id m f w.answer c (running_ne id f.stream_id m c running)))

-- A step that leaves the set of the canceled and the frames alone.
pub record Unsent (m m' : Mux) : Type 0 where
  pub same_ids : m'.canceled_ids ≡ m.canceled_ids
  pub same_wire : m'.wire ≡ m.wire
  pub same_waiting : m'.waiting ≡ m.waiting

pub Quiet-of_Unsent : (id : ℕ) (m m' : Mux) → is_canceled m id ≡ true → Unsent m m' → Quiet id m m'
unfolding is_canceled
Quiet-of_Unsent id m m' c u =
    Quiet-none id m m' (ap (contains id) u.same_ids ∙ c) u.same_wire u.same_waiting

pub queue_after-Quiet :
    (id : ℕ) (m : Mux) (f : Frame) (w : Meanwhile) (p : Poll (Acted (Unit {0})))
    → is_canceled m id ≡ true
    → Unsent m (state_after m p)
    → Quiet id m (state_after m (queue_after f w p))
unfolding is_canceled
queue_after-Quiet id m f w pending c u = Quiet-none id m m c refl refl
queue_after-Quiet id m f w (ready (err e, m')) c u = Quiet-of_Unsent id m m' c u
queue_after-Quiet id m f w (ready (ok _, m')) c u =
    Quiet-trans id m m' _ (Quiet-of_Unsent id m m' c u)
      (queue_now-Quiet id m' f w (ap (contains id) u.same_ids ∙ c))

pub Unsent-refl : (m : Mux) → Unsent m m
Unsent-refl m = record { same_ids = refl; same_wire = refl; same_waiting = refl }

pub acquire_found-Unsent :
    (m : Mux) (j bytes : ℕ) (o : Option ℕ) → Unsent m (state_after m (acquire_found m j bytes o))
unfolding try_take
acquire_found-Unsent m j bytes none = Unsent-refl m
acquire_found-Unsent m j bytes (some available) =
    branch_intro (λ p. Unsent m (state_after m p)) (is_canceled m j) (λ _. Unsent-refl m)
      (λ _.
        branch_intro (λ p. Unsent m (state_after m p)) m.failed (λ _. Unsent-refl m)
          (λ _.
            branch_intro (λ t. Unsent m (state_after m (take_bytes m j t))) (ltb available bytes)
              (λ _. Unsent-refl m)
              (λ _. record { same_ids = refl; same_wire = refl; same_waiting = refl })))

pub acquire_flow_credit-Unsent :
    (m : Mux) (j bytes : ℕ) → Unsent m (state_after m (acquire_flow_credit m j bytes))
unfolding acquire_flow_credit
acquire_flow_credit-Unsent m j bytes =
    branch_intro (λ p. Unsent m (state_after m p)) (not m.supports_flow_control || bytes == 0)
      (λ _. Unsent-refl m)
      (λ _.
        branch_intro (λ p. Unsent m (state_after m p)) (ltb max_flow_credit bytes)
          (λ _. Unsent-refl m) (λ _. acquire_found-Unsent m j bytes (lookup j m.flow_credits)))

pub send_kind-Quiet :
    (id : ℕ) (kind : FrameKind) (m : Mux) (f : Frame) (w : Meanwhile)
    → is_canceled m id ≡ true
    → Quiet id m (state_after m (send_kind kind m f w))
send_kind-Quiet id file_chunk m f w c =
    queue_after-Quiet id m f w (acquire_flow_credit m f.stream_id (length f.payload)) c
      (acquire_flow_credit-Unsent m f.stream_id (length f.payload))
send_kind-Quiet id _ m f w c = queue_now-Quiet id m f w c

pub mux_send-Quiet :
    (id : ℕ) (m : Mux) (f : Frame) (w : Meanwhile)
    → is_canceled m id ≡ true
    → Quiet id m (state_after m (mux_send m f w))
unfolding mux_send
mux_send-Quiet id m f w c =
    if_running-Quiet id f.stream_id m (send_kind f.kind m f w) c
      (λ _. send_kind-Quiet id f.kind m f w c)

pub mux_send_raw-Quiet :
    (id : ℕ) (m : Mux) (kind : FrameKind) (j : ℕ) (payload : List ℕ) (w : Meanwhile)
    → is_canceled m id ≡ true
    → Quiet id m (state_after m (mux_send_raw m kind j payload w))
unfolding mux_send_raw
mux_send_raw-Quiet id m kind j payload w c =
    mux_send-Quiet id m (record { kind = kind; stream_id = j; payload = payload }) w c

pub send_error-Quiet :
    (id : ℕ) (m : Mux) (j : ℕ) (message : List ℕ) (w : Meanwhile)
    → is_canceled m id ≡ true
    → Quiet id m (send_error m j message w)
unfolding send_error
send_error-Quiet id m j message w c =
    branch_intro (Quiet id m) (is_canceled m j) (λ _. Quiet-none id m m c refl refl)
      (λ _. mux_send_raw-Quiet id m error j message w c)
