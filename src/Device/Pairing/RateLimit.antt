-- ===== src/Device/Pairing/RateLimit.antt =====
-- The attempts that `allow_ip` allows over time (apps/sidewired/src/security.rs).
use side_wire_kernel_su.Base.{
  ℕ, suc, ◌+◌, ◌-◌, ◌≤◌, ◌<◌, ◌≡◌, refl, ap, ◌∙◌, Bool, true, false, List, [], ◌∷◌, ◌++◌,
  append_assoc, ltb, leb, ◌==◌, if◌then◌else◌, length, length-append, branch_intro, ==_iff, subst,
  Bool-cases, inl, inr, ltb→lt, ltb→le, All, arith,
}
use side_wire_kernel_su.Base.Assoc.{lookup, lookup-insert}
use side_wire_kernel_su.Device.Pairing.Guard.{
  max_pairing_attempts_per_ip, pairing_rate_window, PairingGuard, empty_guard, expire, or_default,
  attempts_of, admit, allow_ip,
}

-- A call of `allow_ip`: when, and for which address.
abbrev pub Request : Type 0
Request = ℕ × ℕ

-- The times of the attempts of `ip` that are allowed, in order.
unfoldable pub allowed_times : ℕ → PairingGuard → List Request → List ℕ
allowed_times ip g [] = []
allowed_times ip g ((now, from) ∷ more) =
    let (allowed, g') = allow_ip g now from in
    let later = allowed_times ip g' more in
    if allowed then (if from == ip then now ∷ later else later) else later

-- The clock does not run backwards.
abbrev pub InOrder : ℕ → List Request → Type 0
InOrder last [] = Unit
InOrder last ((now, from) ∷ more) = (last ≤ now) × InOrder now more

-- How many of the times lie in the minute that begins at `t`.
unfoldable pub within_minute : ℕ → List ℕ → ℕ
within_minute t [] = 0
within_minute t (at ∷ times) =
    let rest = within_minute t times in
    if ltb at t then rest else if ltb (t + pairing_rate_window) at then rest else suc rest

within_minute-append :
    (t : ℕ) (xs ys : List ℕ) → within_minute t (xs ++ ys) ≡ within_minute t xs + within_minute t ys
unfolding within_minute
within_minute-append t [] ys = omega arith
within_minute-append t (x ∷ xs) ys = ground (arith, within_minute-append t xs ys)

within_minute-length : (t : ℕ) (xs : List ℕ) → within_minute t xs ≤ length xs
unfolding within_minute
within_minute-length t [] = omega arith
within_minute-length t (x ∷ xs) = ground (arith, within_minute-length t xs)

within_minute-later :
    (t now : ℕ) (xs : List ℕ)
    → t + pairing_rate_window < now
    → All (λ x. now ≤ x) xs
    → within_minute t xs ≡ 0
unfolding within_minute
within_minute-later t now [] late h = refl
within_minute-later t now (x ∷ xs) late (hx, hs) =
    let rest : within_minute t xs ≡ 0 = within_minute-later t now xs late hs in ground arith

-- An expired attempt and a later one are never in the same minute.
within_minute-expire :
    (t now : ℕ) (attempts later : List ℕ)
    → length attempts ≤ 5
    → All (λ x. now ≤ x) later
    → within_minute t (expire now attempts ++ later) ≤ 5
    → within_minute t (attempts ++ later) ≤ 5
unfolding expire within_minute
within_minute-expire t now [] later few h bound = bound
within_minute-expire t now (at ∷ rest) later few h bound =
    elim (Bool-cases (ltb pairing_rate_window (now - at))) [
      | inr kept ↦ rw kept at bound
      | inl old ↦ elim (Bool-cases (ltb at t)) [
        | inl before ↦
            rw before (within_minute-expire t now rest later (omega arith) h (rw old at bound))
        | inr after ↦
            let gap : t + pairing_rate_window < now =
              omega (arith, ltb→lt _ _ old, ltb→le at t after) in
            omega (
              arith,
              within_minute-append t (at ∷ rest) later,
              within_minute-later t now later gap h,
              within_minute-length t (at ∷ rest),
            )
      ]
    ]

length-expire : (now : ℕ) (attempts : List ℕ) → length (expire now attempts) ≤ length attempts
unfolding expire
length-expire now [] = omega arith
length-expire now (at ∷ rest) = ground (arith, length-expire now rest)

InOrder-earlier :
    (last now : ℕ) (reqs : List Request) → last ≤ now → InOrder now reqs → InOrder last reqs
InOrder-earlier last now [] h hs = tt
InOrder-earlier last now ((next, from) ∷ more) h (h', hs) = (omega arith, hs)

allowed_times-later :
    (ip last : ℕ) (g : PairingGuard) (reqs : List Request)
    → InOrder last reqs
    → All (λ x. last ≤ x) (allowed_times ip g reqs)
unfolding allowed_times
allowed_times-later ip last g [] h = tt
allowed_times-later ip last g ((now, from) ∷ more) (h, hs) =
    let g' : PairingGuard = (allow_ip g now from).1 in
    let later : All (λ x. last ≤ x) (allowed_times ip g' more) =
      allowed_times-later ip last g' more (InOrder-earlier last now more h hs) in
    branch_intro (All (λ x. last ≤ x)) (allow_ip g now from).0
      (λ _. branch_intro (All (λ x. last ≤ x)) (from == ip) (λ _. (h, later)) (λ _. later))
      (λ _. later)

-- The attempts that the guard keeps for an address, after a request.
attempts-allow_ip :
    (g : PairingGuard) (now from ip : ℕ)
    → attempts_of (allow_ip g now from).1 ip
      ≡ (if from == ip then (admit now (expire now (attempts_of g from))).1 else attempts_of g ip)
unfolding attempts_of allow_ip
attempts-allow_ip g now from ip =
    let kept : List ℕ = (admit now (expire now (attempts_of g from))).1 in
    ap or_default (lookup-insert from ip kept g.per_ip)
    ∙ branch_intro
        (λ o. or_default o ≡ (if from == ip then kept else or_default (lookup ip g.per_ip)))
        (from == ip) (λ same. rw same refl) (λ other. rw other refl)

length-admit :
    (now : ℕ) (attempts : List ℕ) → length attempts ≤ 5 → length (admit now attempts).1 ≤ 5
unfolding admit
length-admit now attempts few =
    branch_intro (λ (x : Bool × List ℕ). length x.1 ≤ 5) (leb 5 (length attempts)) (λ _. few)
      (λ room. ground (arith, length-append attempts (now ∷ [])))

-- One request of an address: the decision, and what it allows later.
within_minute-admit :
    (t now : ℕ) (attempts later : List ℕ)
    → length attempts ≤ 5
    → All (λ x. now ≤ x) later
    → within_minute t ((admit now (expire now attempts)).1 ++ later) ≤ 5
    → within_minute t
        (attempts ++ (if (admit now (expire now attempts)).0 then now ∷ later else later))
      ≤ 5
unfolding admit
within_minute-admit t now attempts later few h bound =
    elim (Bool-cases (leb 5 (length (expire now attempts)))) [
      | inl full ↦ rw full (within_minute-expire t now attempts later few h (rw full at bound))
      | inr room ↦ rw room (
          within_minute-expire t now attempts (now ∷ later) few (omega arith, h)
            (subst (λ xs. within_minute t xs ≤ 5)
              (append_assoc (expire now attempts) (now ∷ []) later) (rw room at bound)))
    ]

-- A request of another address changes nothing.
allowed_other :
    (p : Bool) (from ip now : ℕ) (later : List ℕ)
    → (from == ip) ≡ false
    → (if p then (if from == ip then now ∷ later else later) else later) ≡ later
allowed_other true from ip now later other = rw other refl
allowed_other false from ip now later other = refl

allowed_same :
    (p : Bool) (from ip now : ℕ) (later : List ℕ)
    → (from == ip) ≡ true
    → (if p then (if from == ip then now ∷ later else later) else later)
      ≡ (if p then now ∷ later else later)
allowed_same true from ip now later same = rw same refl
allowed_same false from ip now later same = refl

decision_same :
    (g : PairingGuard) (now from ip : ℕ)
    → from ≡ ip
    → (allow_ip g now from).0 ≡ (admit now (expire now (attempts_of g ip))).0
unfolding allow_ip
decision_same g now from ip e = ap (λ a. (admit now (expire now (attempts_of g a))).0) e

-- What the guard keeps and what it allows later, together.
within_minute-allowed :
    (t ip last : ℕ) (g : PairingGuard) (reqs : List Request)
    → length (attempts_of g ip) ≤ 5
    → InOrder last reqs
    → within_minute t (attempts_of g ip ++ allowed_times ip g reqs) ≤ 5
unfolding allowed_times within_minute
within_minute-allowed t ip last g [] few h =
    omega (
      arith,
      within_minute-append t (attempts_of g ip) [],
      within_minute-length t (attempts_of g ip),
    )
within_minute-allowed t ip last g ((now, from) ∷ more) few (h, hs) =
    let g' : PairingGuard = (allow_ip g now from).1 in
    let later : List ℕ = allowed_times ip g' more in
    let kept : List ℕ = attempts_of g ip in
    elim (Bool-cases (from == ip)) [
      | inr other ↦
          let same_kept : attempts_of g' ip ≡ kept =
            rw other at (attempts-allow_ip g now from ip) in
          rw (allowed_other (allow_ip g now from).0 from ip now later other) (
            subst (λ xs. within_minute t (xs ++ later) ≤ 5) same_kept
              (within_minute-allowed t ip now g' more (rw same_kept few) hs))
      | inl same ↦
          let e : from ≡ ip = (==_iff from ip).0 same in
          let next : attempts_of g' ip ≡ (admit now (expire now kept)).1 =
            rw same at (attempts-allow_ip g now from ip)
            ∙ ap (λ a. (admit now (expire now (attempts_of g a))).1) e in
          let small : length (attempts_of g' ip) ≤ 5 =
            rw next
              (length-admit now (expire now kept) (omega (arith, few, length-expire now kept))) in
          let bound : within_minute t ((admit now (expire now kept)).1 ++ later) ≤ 5 =
            subst (λ xs. within_minute t (xs ++ later) ≤ 5) next
              (within_minute-allowed t ip now g' more small hs) in
          let decision : (allow_ip g now from).0 ≡ (admit now (expire now kept)).0 =
            decision_same g now from ip e in
          rw (allowed_same (allow_ip g now from).0 from ip now later same, decision)
            (within_minute-admit t now kept later few (allowed_times-later ip now g' more hs) bound)
    ]

-- Whatever the requests, and whenever the minute begins: no more than five pairing attempts of an
-- address are allowed within it.
pub within_minute-allowed_times :
    (t ip : ℕ) (reqs : List Request)
    → InOrder 0 reqs
    → within_minute t (allowed_times ip empty_guard reqs) ≤ max_pairing_attempts_per_ip
unfolding empty_guard attempts_of
within_minute-allowed_times t ip reqs h =
    within_minute-allowed t ip 0 empty_guard reqs (omega arith) h
