-- ===== src/Host/Polls.antt =====
-- The operations of a `DeviceStream` and the bounds of its connection.
use side_wire_kernel_su.Base.{
  ℕ, ◌≤◌, ◌≡◌, refl, ap, false, not, Option, none, some, List, [], ◌∷◌, Result, ok, err, Poll,
  ready, pending, ltb, ◌==◌, branch_intro, length, arith,
}
use side_wire_kernel_su.Frame.Header.{Frame}
use side_wire_kernel_su.Host.Flow.{max_flow_credit, try_take}
use side_wire_kernel_su.Host.Transport.{Transport, Channel, Reason, local_drop, set_channel}
use side_wire_kernel_su.Host.Reader.{drop_route}
use side_wire_kernel_su.Host.Stream.{
  StreamError, SendResult, ensure_active, take_credit, if_active, acquire, acquire_flow_credit,
  queued_write, after_write, write_now, is_file_chunk, send, is_routed, RecvResult, recv_queue,
  recv_by, drop_stream,
}
use side_wire_kernel_su.Host.Invariant.{
  IsCredit, IsChannel, IsValid, set_channel-IsValid, drop_route-IsValid, send_stream_cancel-IsValid,
}

-- The state that a poll leaves is valid.
abbrev pub Valid : {A : Type 0} → Poll (A × Transport) → Type 0
Valid pending = Unit
Valid (ready (r, t)) = IsValid t

pub if_active-Valid :
    (r : Result StreamError (Unit {0})) (t : Transport) (p : Poll SendResult)
    → IsValid t
    → Valid p
    → Valid (if_active r t p)
if_active-Valid (err e) t p v w = v
if_active-Valid (ok _) t p v w = w

pub take_credit-Valid :
    (t : Transport) (h available bytes : ℕ) (c : Channel)
    → IsValid t
    → IsChannel c
    → available ≤ max_flow_credit
    → Valid (take_credit t h c (try_take available bytes))
unfolding try_take
take_credit-Valid t h available bytes c v k small =
    branch_intro (λ x. Valid (take_credit t h c x)) (ltb available bytes) (λ _. tt)
      (λ enough.
        set_channel-IsValid t h _ v (record { capacity = k.capacity; credit = omega arith }))

pub acquire-Valid :
    (t : Transport) (h : ℕ) (c : Channel) (o : Option ℕ) (bytes : ℕ)
    → IsValid t
    → IsChannel c
    → IsCredit o
    → Valid (acquire t h c o bytes)
acquire-Valid t h c none bytes v k small = v
acquire-Valid t h c (some available) bytes v k small =
    branch_intro {A = Poll SendResult} Valid (bytes == 0) (λ _. v)
      (λ _.
        branch_intro {A = Poll SendResult} Valid (ltb max_flow_credit bytes) (λ _. v)
          (λ _.
            if_active-Valid (ensure_active c.cancel t.closed) t _ v
              (take_credit-Valid t h available bytes c v k small)))

pub queued_write-IsValid :
    (t : Transport) (frame : Frame) (answer : Result StreamError (Unit {0}))
    → IsValid t
    → IsValid (queued_write t frame answer).1
unfolding queued_write
queued_write-IsValid t frame answer v =
    branch_intro (λ (x : SendResult). IsValid x.1) t.closed (λ _. v)
      (λ _. record { channels_ok = v.channels_ok; routes_ok = v.routes_ok })

pub after_write-Valid :
    (r : Result StreamError (Unit {0})) (x : SendResult) → IsValid x.1 → Valid (after_write r x)
after_write-Valid (err e) (r, t) v = v
after_write-Valid (ok _) x v = v

pub write_now-Valid :
    (c : Channel) (frame : Frame) (answer : Result StreamError (Unit {0})) (p : Poll SendResult)
    → Valid p
    → Valid (write_now c frame answer p)
write_now-Valid c frame answer pending v = tt
write_now-Valid c frame answer (ready (err e, t)) v = v
write_now-Valid c frame answer (ready (ok _, t)) v =
    if_active-Valid (ensure_active c.cancel t.closed) t _ v (
      after_write-Valid (ensure_active c.cancel t.closed) (queued_write t frame answer)
        (queued_write-IsValid t frame answer v))

pub send-Valid :
    (t : Transport) (h : ℕ) (c : Channel) (frame : Frame) (answer : Result StreamError (Unit {0}))
    → IsValid t
    → IsChannel c
    → Valid (send t h c frame answer)
unfolding send acquire_flow_credit
send-Valid t h c frame answer v k = if_active-Valid (ensure_active c.cancel t.closed) t _ v (
    branch_intro {A = Poll SendResult} Valid (not (frame.stream_id == c.id)) (λ _. v)
      (λ _. write_now-Valid c frame answer _ (
        branch_intro {A = Poll SendResult} Valid (is_file_chunk frame.kind)
          (λ _. acquire-Valid t h c c.flow (length frame.payload) v k k.credit) (λ _. v))))

pub recv_queue-Valid :
    (t : Transport) (h : ℕ) (c : Channel) (queue : List Frame)
    → c.queue ≡ queue
    → IsValid t
    → IsChannel c
    → Valid (recv_queue t h c queue)
recv_queue-Valid t h c [] e v k =
    branch_intro {A = Poll RecvResult} Valid (is_routed h t.routes) (λ _. tt) (λ _. v)
recv_queue-Valid t h c (frame ∷ more) e v k =
    set_channel-IsValid t h _ v
      (record { capacity = omega (arith, k.capacity, ap length e); credit = k.credit })

pub recv_by-Valid :
    (t : Transport) (h : ℕ) (c : Channel) (o : Option Reason)
    → IsValid t
    → IsChannel c
    → Valid (recv_by t h c o)
recv_by-Valid t h c (some reason) v k =
    set_channel-IsValid t h _ v (record { capacity = k.capacity; credit = k.credit })
recv_by-Valid t h c none v k = recv_queue-Valid t h c c.queue refl v k

pub drop_stream-IsValid :
    (t : Transport) (h : ℕ) (c : Channel) → IsValid t → IsChannel c → IsValid (drop_stream t h c)
unfolding drop_stream
drop_stream-IsValid t h c v k =
    let t₁ : Transport = drop_route t c.id in
    let t₂ : Transport = set_channel t₁ h (record c { receiver = false }) in
    let v₂ : IsValid t₂ =
      set_channel-IsValid t₁ h _ (drop_route-IsValid t c.id v)
        (record { capacity = k.capacity; credit = k.credit }) in
    branch_intro IsValid c.completed (λ _. v₂)
      (λ _. send_stream_cancel-IsValid t₂ c.id local_drop v₂)
