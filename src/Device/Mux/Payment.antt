-- ===== src/Device/Mux/Payment.antt =====
-- The credit of a stream and the send of a file chunk (apps/sidewired/src/transport.rs).
use side_wire_kernel_su.Base.{
  ℕ, ◌+◌, ◌-◌, ◌≤◌, ◌≡◌, refl, sym, ap, ◌∙◌, true, not, ◌||◌, Option, none, some, List, ok, err,
  Poll, ready, pending, subst, ltb, ◌==◌, if◌then◌else◌, branch_intro, ==_iff, length, arith,
  ltb→le,
}
use side_wire_kernel_su.Base.Assoc.{lookup, insert, remove, lookup-insert, lookup-remove}
use side_wire_kernel_su.Frame.Kind.{FrameKind, file_chunk, error}
use side_wire_kernel_su.Frame.Header.{Frame}
use side_wire_kernel_su.Host.Flow.{max_flow_credit, try_take}
use side_wire_kernel_su.Device.Mux.{
  Mux, Meanwhile, Acted, is_canceled, take_bytes, acquire_found, acquire_flow_credit, queue_now,
  queue_after, send_kind, state_after, mux_send, mux_send_raw, send_error,
}
use side_wire_kernel_su.Device.Mux.Credit.{
  frame_bytes, amount, weight, Charged, Charged-none, queue_now-Charged,
}

-- What the stream `id` pays for `bytes` bytes of the stream `j`.
abbrev pub price : ℕ → ℕ → ℕ → ℕ
price id j bytes = if j == id then bytes else 0

-- After credit was acquired, the bytes may be sent for it.
abbrev pub Paid : ℕ → ℕ → Mux → Poll (Acted (Unit {0})) → Type 0
Paid id cost m pending = Unit
Paid id cost m (ready (err e, m')) = Charged id 0 m m'
Paid id cost m (ready (ok _, m')) =
    (weight id m' + cost ≤ weight id m) × (m'.supports_flow_control ≡ m.supports_flow_control)

pub amount-insert :
    (id j v : ℕ) (credits : List (ℕ × ℕ))
    → amount (lookup id (insert j v credits)) ≡ (if j == id then v else amount (lookup id credits))
amount-insert id j v credits =
    ap amount (lookup-insert j id v credits)
    ∙ branch_intro (λ o. amount o ≡ (if j == id then v else amount (lookup id credits))) (j == id)
        (λ same. rw same refl) (λ other. rw other refl)

pub amount-remove :
    (id j : ℕ) (credits : List (ℕ × ℕ))
    → amount (lookup id (remove j credits)) ≤ amount (lookup id credits)
amount-remove id j credits = rw (lookup-remove j id credits) (
    branch_intro (λ o. amount o ≤ amount (lookup id credits)) (j == id) (λ same. omega arith)
      (λ other. omega arith))

pub lookup_same :
    (id j : ℕ) (credits : List (ℕ × ℕ)) (o : Option ℕ)
    → lookup j credits ≡ o
    → (j == id) ≡ true
    → amount (lookup id credits) ≡ amount o
lookup_same id j credits o at same =
    let e : j ≡ id = (==_iff j id).0 same in
    ap (λ k. amount (lookup k credits)) (sym e) ∙ ap amount at

pub paid_amount :
    (id j available bytes : ℕ) (credits : List (ℕ × ℕ))
    → lookup j credits ≡ some available
    → bytes ≤ available
    → amount (lookup id (insert j (available - bytes) credits)) + price id j bytes
      ≤ amount (lookup id credits)
paid_amount id j available bytes credits at enough = ground (
  arith,
  amount-insert id j (available - bytes) credits,
  lookup_same id j credits (some available) at,
)

pub acquire_found-Paid :
    (id j bytes : ℕ) (m : Mux) (o : Option ℕ)
    → lookup j m.flow_credits ≡ o
    → Paid id (price id j bytes) m (acquire_found m j bytes o)
unfolding try_take
acquire_found-Paid id j bytes m none at = Charged-none id 0 m
acquire_found-Paid id j bytes m (some available) at =
    branch_intro (Paid id (price id j bytes) m) (is_canceled m j) (λ _. Charged-none id 0 m)
      (λ _.
        branch_intro (Paid id (price id j bytes) m) m.failed (λ _. Charged-none id 0 m)
          (λ _.
            branch_intro (λ t. Paid id (price id j bytes) m (take_bytes m j t))
              (ltb available bytes) (λ _. tt)
              (λ enough. (
                omega (
                  arith,
                  paid_amount id j available bytes m.flow_credits at
                      (ltb→le available bytes enough),
                ),
                refl,
              ))))

pub acquire_flow_credit-Paid :
    (id j bytes : ℕ) (m : Mux)
    → m.supports_flow_control ≡ true
    → Paid id (price id j bytes) m (acquire_flow_credit m j bytes)
unfolding acquire_flow_credit
acquire_flow_credit-Paid id j bytes m on =
    branch_intro (Paid id (price id j bytes) m) (not m.supports_flow_control || bytes == 0)
      (λ free. (ground arith, refl))
      (λ _.
        branch_intro (Paid id (price id j bytes) m) (ltb max_flow_credit bytes)
          (λ _. Charged-none id 0 m)
          (λ _. acquire_found-Paid id j bytes m (lookup j m.flow_credits) refl))

pub queue_after-Charged :
    (id : ℕ) (m : Mux) (f : Frame) (w : Meanwhile) (p : Poll (Acted (Unit {0})))
    → Paid id (frame_bytes id f) m p
    → Charged id 0 m (state_after m (queue_after f w p))
queue_after-Charged id m f w pending paid = Charged-none id 0 m
queue_after-Charged id m f w (ready (err e, m')) paid = paid
queue_after-Charged id m f w (ready (ok _, m')) (paid, mode) =
    let c : Charged id (frame_bytes id f) m' (queue_now m' f w).1 = queue_now-Charged id m' f w in
    record { bound = omega (arith, c.bound); mode = c.mode ∙ mode }

pub send_kind-Charged :
    (id : ℕ) (kind : FrameKind) (m : Mux) (f : Frame) (w : Meanwhile)
    → m.supports_flow_control ≡ true
    → f.kind ≡ kind
    → Charged id 0 m (state_after m (send_kind kind m f w))
send_kind-Charged id file_chunk m f w on k =
    queue_after-Charged id m f w (acquire_flow_credit m f.stream_id (length f.payload))
      (rw k (acquire_flow_credit-Paid id f.stream_id (length f.payload) m on))
send_kind-Charged id _ m f w on k =
    let free : frame_bytes id f ≡ 0 = rw k (ground arith) in
    subst (λ b. Charged id b m (queue_now m f w).1) free (queue_now-Charged id m f w)

pub mux_send-Charged :
    (id : ℕ) (m : Mux) (f : Frame) (w : Meanwhile)
    → m.supports_flow_control ≡ true
    → Charged id 0 m (state_after m (mux_send m f w))
unfolding mux_send
mux_send-Charged id m f w on =
    branch_intro (λ p. Charged id 0 m (state_after m p)) (is_canceled m f.stream_id)
      (λ _. Charged-none id 0 m) (λ _. send_kind-Charged id f.kind m f w on refl)

pub mux_send_raw-Charged :
    (id : ℕ) (m : Mux) (kind : FrameKind) (j : ℕ) (payload : List ℕ) (w : Meanwhile)
    → m.supports_flow_control ≡ true
    → Charged id 0 m (state_after m (mux_send_raw m kind j payload w))
unfolding mux_send_raw
mux_send_raw-Charged id m kind j payload w on =
    mux_send-Charged id m (record { kind = kind; stream_id = j; payload = payload }) w on

pub send_error-Charged :
    (id : ℕ) (m : Mux) (j : ℕ) (message : List ℕ) (w : Meanwhile)
    → m.supports_flow_control ≡ true
    → Charged id 0 m (send_error m j message w)
unfolding send_error
send_error-Charged id m j message w on =
    branch_intro (Charged id 0 m) (is_canceled m j) (λ _. Charged-none id 0 m)
      (λ _. mux_send_raw-Charged id m error j message w on)
