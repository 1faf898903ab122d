-- ===== src/Host/Reachable.antt =====
-- The states that a connection can come to (apps/sidewire/src/transport.rs).
use side_wire_kernel_su.Base.{
  ℕ, zero, suc, ◌+◌, ◌%◌, ◌^◌, ◌≡◌, subst, not, ◌||◌, Option, some, List, Result, ok, err, Poll,
  ready, pending, ◌==◌, branch_intro, length, arith,
}
use side_wire_kernel_su.Base.Assoc.{get_elem?, All-get_elem?}
use side_wire_kernel_su.Frame.Header.{Frame}
use side_wire_kernel_su.Host.Transport.{Transport, Channel, new, close}
use side_wire_kernel_su.Host.Reader.{dispatch}
use side_wire_kernel_su.Host.Stream.{
  StreamError, Opened, opened, refused, fuel_out, contains_key, open_loop, open_stream, SendResult,
  send, RecvResult, recv, drop_stream,
}
use side_wire_kernel_su.Host.Invariant.{IsChannel, IsValid}
use side_wire_kernel_su.Host.Dispatch.{dispatch-IsValid}
use side_wire_kernel_su.Host.Open.{insert_stream-OpenedWell}
use side_wire_kernel_su.Base.{leb}
use side_wire_kernel_su.Host.Stream.{uses_flow_control, grant_window, tried, try_recv}
use side_wire_kernel_su.Frame.Kind.{stream_window_update}
use side_wire_kernel_su.Host.Polls.{Valid, send-Valid, recv_by-Valid, drop_stream-IsValid}

abbrev OpenedValid : Opened → Type 0
OpenedValid (opened t h) = IsValid t
OpenedValid (refused t) = IsValid t
OpenedValid fuel_out = Unit

open_loop-OpenedValid : (fuel : ℕ) (t : Transport) → IsValid t → OpenedValid (open_loop fuel t)
unfolding open_loop
open_loop-OpenedValid zero t v = tt
open_loop-OpenedValid (suc fuel) t v =
    let id : ℕ = t.next_stream_id in
    let t' : Transport = record t { next_stream_id = (id + 1) % 2 ^ 32 } in
    let v' : IsValid t' = record { channels_ok = v.channels_ok; routes_ok = v.routes_ok } in
    let again : OpenedValid (open_loop fuel t') = open_loop-OpenedValid fuel t' v' in
    branch_intro OpenedValid (id == 0) (λ _. again)
      (λ nonzero.
        branch_intro OpenedValid t.closed (λ _. v')
          (λ _.
            branch_intro OpenedValid (contains_key id t.routes) (λ _. again)
              (λ free. (insert_stream-OpenedWell t' id v' (λ e. ground arith) free).2)))

open_stream-OpenedValid : (t : Transport) → IsValid t → OpenedValid (open_stream t)
unfolding open_stream
open_stream-OpenedValid t v =
    branch_intro OpenedValid t.closed (λ _. v)
      (λ _. open_loop-OpenedValid (length t.routes + 2) t v)

close-IsValid : (t : Transport) → IsValid t → IsValid (close t)
unfolding close
close-IsValid t v = record { channels_ok = v.channels_ok; routes_ok = tt }

new-IsValid : (protocol capabilities : ℕ) → IsValid (new protocol capabilities)
unfolding new
new-IsValid protocol capabilities = record { channels_ok = tt; routes_ok = tt }

-- What can happen to a connection next: a frame arrives, or one of the tasks that share it opens a
-- stream, polls a send or a receive that is then ready, drops a stream, or closes the connection.
-- A poll that is not ready changes nothing.
pub data Step (decode_window : List ℕ → Option ℕ) : Transport → Transport → Type 0 where
  arrives : (t : Transport) (f : Frame) → Step decode_window t (dispatch decode_window t f).0
  opens : (t t' : Transport) (h : ℕ) → open_stream t ≡ opened t' h → Step decode_window t t'
  sends :
      (t t' : Transport) (h : ℕ) (c : Channel) (frame : Frame)
      (answer r : Result StreamError (Unit {0}))
      → get_elem? t.channels h ≡ some c
      → send t h c frame answer ≡ ready (r, t')
      → Step decode_window t t'
  receives :
      (t t' : Transport) (h : ℕ) (c : Channel) (r : Result StreamError Frame)
      → get_elem? t.channels h ≡ some c
      → recv t h c ≡ ready (r, t')
      → Step decode_window t t'
  grants :
      (t t' : Transport) (h : ℕ) (c : Channel) (bytes : ℕ) (encode_window : ℕ → List ℕ)
      (answer r : Result StreamError (Unit {0}))
      → get_elem? t.channels h ≡ some c
      → grant_window encode_window t h c bytes answer ≡ ready (r, t')
      → Step decode_window t t'
  tries :
      (t : Transport) (h : ℕ) (c : Channel)
      → get_elem? t.channels h ≡ some c
      → Step decode_window t (try_recv t h c).1
  drops :
      (t : Transport) (h : ℕ) (c : Channel)
      → get_elem? t.channels h ≡ some c
      → Step decode_window t (drop_stream t h c)
  closes : (t : Transport) → Step decode_window t (close t)

pub data Reach (decode_window : List ℕ → Option ℕ) (s : Transport) : Transport → Type 0 where
  start : Reach decode_window s s
  next :
      {t u : Transport} → Reach decode_window s t → Step decode_window t u → Reach decode_window s u

channel-IsChannel :
    (t : Transport) (h : ℕ) (c : Channel)
    → IsValid t
    → get_elem? t.channels h ≡ some c
    → IsChannel c
channel-IsChannel t h c v at = All-get_elem? IsChannel t.channels h c v.channels_ok at

recv-Valid : (t : Transport) (h : ℕ) (c : Channel) → IsValid t → IsChannel c → Valid (recv t h c)
unfolding recv
recv-Valid t h c v k = recv_by-Valid t h c c.cancel v k

grant_window-Valid :
    (encode_window : ℕ → List ℕ) (t : Transport) (h : ℕ) (c : Channel) (bytes : ℕ)
    (answer : Result StreamError (Unit {0}))
    → IsValid t
    → IsChannel c
    → Valid (grant_window encode_window t h c bytes answer)
unfolding grant_window
grant_window-Valid encode_window t h c bytes answer v k =
    branch_intro {A = Poll SendResult} Valid (not (uses_flow_control c.flow) || bytes == 0) (λ _. v)
      (λ _.
        branch_intro {A = Poll SendResult} Valid (leb (2 ^ 32) bytes) (λ _. v)
          (λ _.
            send-Valid t h c
              (record {
                kind = stream_window_update;
                stream_id = c.id;
                payload = encode_window bytes;
              })
              answer v k))

tried-IsValid : (t : Transport) (p : Poll RecvResult) → IsValid t → Valid p → IsValid (tried t p).1
tried-IsValid t pending v w = v
tried-IsValid t (ready (err e, t')) v w = w
tried-IsValid t (ready (ok frame, t')) v w = w

try_recv-IsValid :
    (t : Transport) (h : ℕ) (c : Channel) → IsValid t → IsChannel c → IsValid (try_recv t h c).1
unfolding try_recv
try_recv-IsValid t h c v k = tried-IsValid t (recv t h c) v (recv-Valid t h c v k)

Step-IsValid :
    (decode_window : List ℕ → Option ℕ) {t u : Transport}
    → Step decode_window t u
    → IsValid t
    → IsValid u
Step-IsValid decode_window (arrives t f) v = dispatch-IsValid decode_window t f v
Step-IsValid decode_window (opens t t' h e) v = subst OpenedValid e (open_stream-OpenedValid t v)
Step-IsValid decode_window (sends t t' h c frame answer r at e) v =
    subst {A = Poll SendResult} Valid e
      (send-Valid t h c frame answer v (channel-IsChannel t h c v at))
Step-IsValid decode_window (receives t t' h c r at e) v =
    subst {A = Poll RecvResult} Valid e (recv-Valid t h c v (channel-IsChannel t h c v at))
Step-IsValid decode_window (grants t t' h c bytes encode_window answer r at e) v =
    subst {A = Poll SendResult} Valid e
      (grant_window-Valid encode_window t h c bytes answer v (channel-IsChannel t h c v at))
Step-IsValid decode_window (tries t h c at) v =
    try_recv-IsValid t h c v (channel-IsChannel t h c v at)
Step-IsValid decode_window (drops t h c at) v =
    drop_stream-IsValid t h c v (channel-IsChannel t h c v at)
Step-IsValid decode_window (closes t) v = close-IsValid t v

Reach-IsValid_from :
    (decode_window : List ℕ → Option ℕ) {s t : Transport}
    → IsValid s
    → Reach decode_window s t
    → IsValid t
Reach-IsValid_from decode_window v start = v
Reach-IsValid_from decode_window v (next reached step) =
    Step-IsValid decode_window step (Reach-IsValid_from decode_window v reached)

-- Whatever happens on a new connection, in any order: no stream ever queues more than sixteen
-- frames or holds more credit than the limit, and each route leads from an id other than 0 to a
-- channel that exists.
pub Reach-IsValid :
    (decode_window : List ℕ → Option ℕ) (protocol capabilities : ℕ) {t : Transport}
    → Reach decode_window (new protocol capabilities) t
    → IsValid t
Reach-IsValid decode_window protocol capabilities reached =
    Reach-IsValid_from decode_window (new-IsValid protocol capabilities) reached
