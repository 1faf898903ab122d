-- ===== src/Host/Invariant.antt =====
-- The bounds on the streams of a connection, and the reader task (apps/sidewire/src/transport.rs).
use side_wire_kernel_su.Base.{
  ℕ, ◌≤◌, ◌<◌, ◌≡◌, ◌≢◌, refl, false, not, ◌||◌, Bool-cases, Option-cases, Option, none, some, List,
  [], ◌∷◌, ◌++◌, Result, ok, err, leb, length, length-append, All, arith, inl, inr, subst,
}
use side_wire_kernel_su.Base.Assoc.{
  lookup, get_elem?, length-set, All-set, All-get_elem?, All-remove,
}
use side_wire_kernel_su.Frame.Header.{Frame}
use side_wire_kernel_su.Host.Flow.{max_flow_credit, FlowError, add}
use side_wire_kernel_su.Host.Transport.{
  Transport, Channel, Reason, queue_overflow, route_capacity, set_channel, with_position, find_at,
  find_route, send_stream_cancel,
}
use side_wire_kernel_su.Host.Reader.{
  grant_to, grant_flow, grant, cancel_reason, drop_route, cancel_channel, cancel_route, deliver_to,
  deliver,
}

abbrev pub IsCredit : Option ℕ → Type 0
IsCredit none = Unit
IsCredit (some available) = available ≤ max_flow_credit

-- A stream never queues more than its capacity, and never holds more credit than the limit.
pub record IsChannel (c : Channel) : Type 0 where
  pub capacity : length c.queue ≤ route_capacity
  pub credit : IsCredit c.flow

abbrev pub IsRoute : ℕ → ℕ × ℕ → Type 0
IsRoute n (id, h) = (id ≢ 0) × (h < n)

pub record IsValid (t : Transport) : Type 0 where
  pub channels_ok : All IsChannel t.channels
  pub routes_ok : All (IsRoute (length t.channels)) t.routes

pub set_channel-IsValid :
    (t : Transport) (h : ℕ) (c : Channel) → IsValid t → IsChannel c → IsValid (set_channel t h c)
set_channel-IsValid t h c v k = record {
  channels_ok = All-set IsChannel t.channels h c v.channels_ok k;
  routes_ok = rw (length-set t.channels h c) v.routes_ok;
}

pub drop_route-IsValid : (t : Transport) (id : ℕ) → IsValid t → IsValid (drop_route t id)
drop_route-IsValid t id v = record {
  channels_ok = v.channels_ok;
  routes_ok = All-remove (IsRoute (length t.channels)) id t.routes v.routes_ok;
}

pub send_stream_cancel-IsValid :
    (t : Transport) (id : ℕ) (reason : Reason)
    → IsValid t
    → IsValid (send_stream_cancel t id reason)
unfolding send_stream_cancel
send_stream_cancel-IsValid t id reason v =
    elim (Bool-cases (not t.supports_stream_cancel || t.closed)) [
      | inl silent ↦ rw silent v
      | inr sends ↦ rw sends (record { channels_ok = v.channels_ok; routes_ok = v.routes_ok })
    ]

with_position-eq :
    (g : ℕ) (o : Option Channel) (h : ℕ) (c : Channel)
    → with_position g o ≡ some (h, c)
    → (◌≡◌ {A = Option ℕ} (some g) (some h)) × (o ≡ some c)
with_position-eq g none h c e = cc
with_position-eq g (some d) h c e = (cc, cc)

find_at-eq :
    (cs : List Channel) (o : Option ℕ) (h : ℕ) (c : Channel)
    → find_at cs o ≡ some (h, c)
    → (o ≡ some h) × (get_elem? cs h ≡ some c)
find_at-eq cs none h c e = cc
find_at-eq cs (some g) h c e =
    let (p, q) = with_position-eq g (get_elem? cs g) h c e in
    (p, subst (λ k. get_elem? cs k ≡ some c) (ground arith) q)

-- A route that is found leads to a channel of the heap.
pub find_route-eq :
    (t : Transport) (id h : ℕ) (c : Channel)
    → find_route t id ≡ some (h, c)
    → (lookup id t.routes ≡ some h) × (get_elem? t.channels h ≡ some c)
find_route-eq t id h c e = find_at-eq t.channels (lookup id t.routes) h c e

pub find_route-IsChannel :
    (t : Transport) (id h : ℕ) (c : Channel)
    → IsValid t
    → find_route t id ≡ some (h, c)
    → IsChannel c
find_route-IsChannel t id h c v e =
    All-get_elem? IsChannel t.channels h c v.channels_ok (find_route-eq t id h c e).1

add-le :
    (available bytes updated : ℕ) → add available bytes ≡ ok updated → updated ≤ max_flow_credit
unfolding add
add-le available bytes updated e = ground arith

room_left :
    (f : Frame) (queue : List Frame)
    → leb route_capacity (length queue) ≡ false
    → length (queue ++ (f ∷ [])) ≤ route_capacity
room_left f queue room = ground (arith, length-append queue (f ∷ []))

grant_to-IsValid :
    (t : Transport) (h : ℕ) (c : Channel) (available bytes : ℕ)
    → IsValid t
    → IsChannel c
    → IsValid (grant_to t h c (add available bytes)).0
grant_to-IsValid t h c available bytes v k =
    by_result (add available bytes) (add-le available bytes)
  where
    by_result :
        (r : Result FlowError ℕ)
        → ((updated : ℕ) → r ≡ ok updated → updated ≤ max_flow_credit)
        → IsValid (grant_to t h c r).0
    by_result (err e) le = v
    by_result (ok updated) le =
        set_channel-IsValid t h (record c { flow = some updated }) v
          (record { capacity = k.capacity; credit = le updated refl })

grant_flow-IsValid :
    (t : Transport) (h : ℕ) (c : Channel) (o : Option ℕ) (bytes : ℕ)
    → IsValid t
    → IsChannel c
    → IsValid (grant_flow t h c o bytes).0
grant_flow-IsValid t h c none bytes v k = v
grant_flow-IsValid t h c (some available) bytes v k = grant_to-IsValid t h c available bytes v k

pub grant-IsValid : (t : Transport) (id : ℕ) (o : Option ℕ) → IsValid t → IsValid (grant t id o).0
grant-IsValid t id none v = v
grant-IsValid t id (some bytes) v = elim (Option-cases (find_route t id)) [
  | inl lost ↦ rw lost v
  | inr ((h, c), found) ↦
      rw found (grant_flow-IsValid t h c c.flow bytes v (find_route-IsChannel t id h c v found))
]

pub cancel_channel-IsValid :
    (t : Transport) (h : ℕ) (c : Channel) (reason : Reason)
    → IsValid t
    → IsChannel c
    → IsValid (cancel_channel t h c reason)
cancel_channel-IsValid t h c reason v k =
    set_channel-IsValid t h (record c { cancel = some reason }) v
      (record { capacity = k.capacity; credit = k.credit })

pub cancel_route-IsValid :
    (t : Transport) (f : Frame)
    → IsValid t
    → IsValid (cancel_route t f (find_route t f.stream_id)).0
cancel_route-IsValid t f v = elim (Option-cases (find_route t f.stream_id)) [
  | inl lost ↦ rw lost v
  | inr ((h, c), found) ↦ rw found (
      cancel_channel-IsValid (drop_route t f.stream_id) h c (cancel_reason f.stream_id f.payload)
        (drop_route-IsValid t f.stream_id v) (find_route-IsChannel t f.stream_id h c v found))
]

deliver_to-IsValid :
    (t : Transport) (f : Frame) (h : ℕ) (c : Channel)
    → IsValid t
    → IsChannel c
    → IsValid (deliver_to t f h c).0
deliver_to-IsValid t f h c v k = elim (Bool-cases (not c.receiver)) [
  | inl gone ↦ rw gone (drop_route-IsValid t f.stream_id v)
  | inr here ↦ elim (Bool-cases (leb route_capacity (length c.queue))) [
    | inl over ↦
        rw (here, over)
          (send_stream_cancel-IsValid _ f.stream_id (queue_overflow f.stream_id) (
            cancel_channel-IsValid (drop_route t f.stream_id) h c (queue_overflow f.stream_id)
              (drop_route-IsValid t f.stream_id v) k))
    | inr room ↦
        rw (here, room)
          (set_channel-IsValid t h (record c { queue = c.queue ++ (f ∷ []) }) v
            (record { capacity = room_left f c.queue room; credit = k.credit }))
  ]
]

pub deliver-IsValid :
    (t : Transport) (f : Frame) → IsValid t → IsValid (deliver t f (find_route t f.stream_id)).0
deliver-IsValid t f v = elim (Option-cases (find_route t f.stream_id)) [
  | inl lost ↦ rw lost v
  | inr ((h, c), found) ↦
      rw found (deliver_to-IsValid t f h c v (find_route-IsChannel t f.stream_id h c v found))
]
