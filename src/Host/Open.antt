-- ===== src/Host/Open.antt =====
-- The ids that `open_stream` gives out (apps/sidewire/src/transport.rs).
use side_wire_kernel_su.Base.{
  ℕ, zero, suc, ◌+◌, ◌%◌, ◌^◌, ◌≤◌, ◌<◌, ◌≡◌, ◌≢◌, refl, sym, ap, ◌∙◌, Bool, true, false, ◌||◌,
  Bool-cases, none, some, List, [], ◌∷◌, ◌++◌, ◌==◌, if◌then◌else◌, if_intro, branch_intro, length,
  length-append, All, All-append, arith, inl, inr,
}
use side_wire_kernel_su.Base.Assoc.{lookup, lookup-insert, All-remove}
use side_wire_kernel_su.Host.Flow.{new_credit}
use side_wire_kernel_su.Host.Transport.{Transport, Channel}
use side_wire_kernel_su.Host.Stream.{
  Opened, opened, refused, fuel_out, contains_key, new_channel, insert_stream, open_loop,
  open_stream,
}
use side_wire_kernel_su.Host.Invariant.{IsChannel, IsCredit, IsRoute, IsValid}

abbrev u32 : ℕ
u32 = 2 ^ 32

-- A list of ids that may not be given out.
abbrev taken : ℕ → List ℕ → Bool
taken id [] = false
taken id (j ∷ js) = j == id || taken id js

abbrev erase : ℕ → List ℕ → List ℕ
erase k [] = []
erase k (j ∷ js) = if j == k then erase k js else j ∷ erase k js

-- One of the next `fuel` ids is free.
free_soon : ℕ → ℕ → List ℕ → Bool
free_soon zero next js = false
free_soon (suc fuel) next js =
    let later = free_soon fuel ((next + 1) % u32) js in if taken next js then later else true

taken-erase_ne : (id k : ℕ) (js : List ℕ) → id ≢ k → taken id (erase k js) ≡ taken id js
taken-erase_ne id k [] ne = refl
taken-erase_ne id k (j ∷ js) ne = ground (arith, taken-erase_ne id k js)

length-erase : (k : ℕ) (js : List ℕ) → length (erase k js) ≤ length js
length-erase k [] = omega arith
length-erase k (j ∷ js) = ground (arith, length-erase k js)

length-erase_taken : (k : ℕ) (js : List ℕ) → taken k js ≡ true → length (erase k js) < length js
length-erase_taken k [] h = cc
length-erase_taken k (j ∷ js) h = ground (arith, length-erase k js, length-erase_taken k js)

free_soon-erase :
    (fuel next k : ℕ) (js : List ℕ)
    → next < u32
    → ((i : ℕ) → i < fuel → (next + i) % u32 ≢ k)
    → free_soon fuel next (erase k js) ≡ free_soon fuel next js
unfolding free_soon
free_soon-erase zero next k js h ne = refl
free_soon-erase (suc fuel) next k js h ne =
    let here : next ≢ k = λ e. ne 0 (omega arith) (omega arith) in
    let ahead : (i : ℕ) → i < fuel → ((next + 1) % u32 + i) % u32 ≢ k =
      λ i hi e. ne (i + 1) (omega arith) (omega arith) in
    rw (
      taken-erase_ne next k js here,
      free_soon-erase fuel ((next + 1) % u32) k js (omega arith) ahead,
    )

-- Of more than `length js` ids in a row, one is free.
free_soon_of_enough :
    (fuel next : ℕ) (js : List ℕ)
    → next < u32
    → length js < fuel
    → fuel ≤ u32
    → free_soon fuel next js ≡ true
unfolding free_soon
free_soon_of_enough zero next js h enough small = absurd (omega arith)
free_soon_of_enough (suc fuel) next js h enough small = elim (Bool-cases (taken next js)) [
  | inr free ↦ rw free
  | inl used ↦ rw used (
      sym (free_soon-erase fuel ((next + 1) % u32) next js (omega arith) (λ i hi e. omega arith))
      ∙ free_soon_of_enough fuel ((next + 1) % u32) (erase next js) (omega arith)
          (omega (arith, length-erase_taken next js used)) (omega arith))
]

abbrev keys : List (ℕ × ℕ) → List ℕ
keys [] = []
keys ((j, h) ∷ m) = j ∷ keys m

length-keys : (m : List (ℕ × ℕ)) → length (keys m) ≡ length m
length-keys [] = refl
length-keys ((j, h) ∷ m) = ap suc (length-keys m)

contains_key-eq : (id : ℕ) (m : List (ℕ × ℕ)) → contains_key id m ≡ taken id (keys m)
contains_key-eq id [] = refl
contains_key-eq id ((j, h) ∷ m) = ap (λ b. j == id || b) (contains_key-eq id m)

contains_key-lookup : (id : ℕ) (m : List (ℕ × ℕ)) → contains_key id m ≡ false → lookup id m ≡ none
contains_key-lookup id [] e = refl
contains_key-lookup id ((j, h) ∷ m) e = ground (arith, contains_key-lookup id m)

-- A stream was opened on `t`: its id is fresh and not 0, it is routed to the new channel, which
-- is empty, and all other routes are as they were.
pub record FreshStream (t t' : Transport) (h id : ℕ) : Type 0 where
  pub nonzero : id ≢ 0
  pub fresh : lookup id t.routes ≡ none
  pub position : h ≡ length t.channels
  pub channels_eq : t'.channels ≡ t.channels ++ (new_channel t id ∷ [])
  pub routes_eq : (j : ℕ) → lookup j t'.routes ≡ (if id == j then some h else lookup j t.routes)

abbrev pub OpenedWell : Transport → Opened → Type 0
OpenedWell t (opened t' h) = (id : ℕ) × FreshStream t t' h id × IsValid t'
OpenedWell t (refused t') = t.closed ≡ true
OpenedWell t fuel_out = ⊥

IsRoute-more :
    (n m : ℕ) (routes : List (ℕ × ℕ)) → n ≤ m → All (IsRoute n) routes → All (IsRoute m) routes
IsRoute-more n m [] le h = tt
IsRoute-more n m ((j, g) ∷ rest) le h =
    ((h.0.0, omega (arith, h.0.1)), IsRoute-more n m rest le h.1)

new_channel-IsChannel : (t : Transport) (id : ℕ) → IsChannel (new_channel t id)
unfolding new_credit
new_channel-IsChannel t id = record {
  capacity = omega arith;
  credit = if_intro IsCredit t.supports_flow_control (omega arith) tt;
}

pub insert_stream-OpenedWell :
    (t : Transport) (id : ℕ)
    → IsValid t
    → id ≢ 0
    → contains_key id t.routes ≡ false
    → OpenedWell t (insert_stream t id)
insert_stream-OpenedWell t id v nonzero free =
    let cs : List Channel = t.channels ++ (new_channel t id ∷ []) in
    let longer : length cs ≡ length t.channels + 1 =
      omega (arith, length-append t.channels (new_channel t id ∷ [])) in
    (
      id,
      record {
        nonzero = nonzero;
        fresh = contains_key-lookup id t.routes free;
        position = refl;
        channels_eq = refl;
        routes_eq = λ j. lookup-insert id j (length t.channels) t.routes;
      },
      record {
        channels_ok =
            All-append IsChannel t.channels (new_channel t id ∷ []) v.channels_ok
              (new_channel-IsChannel t id, tt);
        routes_ok = (
          (nonzero, omega arith),
          All-remove (IsRoute (length cs)) id t.routes
              (IsRoute-more (length t.channels) (length cs) t.routes (omega arith) v.routes_ok),
        );
      },
    )

-- The counter is no part of what `OpenedWell` speaks of.
OpenedWell-counter :
    (t : Transport) (next : ℕ) (o : Opened)
    → OpenedWell (record t { next_stream_id = next }) o
    → OpenedWell t o
OpenedWell-counter t next (opened t' h) (id, f, v) = (
  id,
  record {
    nonzero = f.nonzero;
    fresh = f.fresh;
    position = f.position;
    channels_eq = f.channels_eq;
    routes_eq = f.routes_eq;
  },
  v,
)
OpenedWell-counter t next (refused t') e = e
OpenedWell-counter t next fuel_out e = e

-- A skipped id is one of those that may not be given out.
skipped :
    (id : ℕ) (m : List (ℕ × ℕ))
    → (id == 0 || contains_key id m) ≡ true
    → taken id (0 ∷ keys m) ≡ true
skipped id m e = ground (arith, contains_key-eq id m)

open_loop-OpenedWell :
    (fuel : ℕ) (t : Transport)
    → IsValid t
    → t.closed ≡ false
    → free_soon fuel t.next_stream_id (0 ∷ keys t.routes) ≡ true
    → OpenedWell t (open_loop fuel t)
unfolding open_loop free_soon
open_loop-OpenedWell zero t v live h = cc
open_loop-OpenedWell (suc fuel) t v live h =
    let id : ℕ = t.next_stream_id in
    let next : ℕ = (id + 1) % u32 in
    let t' : Transport = record t { next_stream_id = next } in
    let v' : IsValid t' = record { channels_ok = v.channels_ok; routes_ok = v.routes_ok } in
    let again : (id == 0 || contains_key id t.routes) ≡ true → OpenedWell t (open_loop fuel t') =
      λ skip.
        OpenedWell-counter t next (open_loop fuel t')
          (open_loop-OpenedWell fuel t' v' live (rw (skipped id t.routes skip) at h)) in
    branch_intro (OpenedWell t) (id == 0) (λ zero_id. again (rw zero_id))
      (λ nonzero.
        branch_intro (OpenedWell t) t.closed (λ ended. ended)
          (λ _.
            branch_intro (OpenedWell t) (contains_key id t.routes) (λ used. again (ground arith))
              (λ free.
                OpenedWell-counter t next (insert_stream t' id)
                  (insert_stream-OpenedWell t' id v' (λ e. ground arith) free))))

-- On a valid connection with fewer than 2 ^ 32 - 1 streams, whose counter is a u32, `open_stream`
-- ends. It refuses only if the connection is closed; otherwise the new stream has an id other than
-- 0 that no other stream has and its own empty channel, the other routes are as they were, and the
-- connection is valid.
pub open_stream-OpenedWell :
    (t : Transport)
    → IsValid t
    → t.next_stream_id < 2 ^ 32
    → length t.routes + 2 ≤ 2 ^ 32
    → OpenedWell t (open_stream t)
unfolding open_stream
open_stream-OpenedWell t v counter few =
    branch_intro (OpenedWell t) t.closed (λ ended. ended)
      (λ live. open_loop-OpenedWell (length t.routes + 2) t v live (
        free_soon_of_enough (length t.routes + 2) t.next_stream_id (0 ∷ keys t.routes) counter
          (omega (arith, length-keys t.routes)) few))
