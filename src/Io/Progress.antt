-- ===== src/Io/Progress.antt =====
-- Writers that take a byte or more at every poll.
use side_wire_kernel_su.Base.{
  ℕ, zero, suc, ◌+◌, ◌-◌, ◌≤◌, ◌<◌, min, ◌≡◌, refl, Bool-cases, true, Option, none, some, List, [],
  ◌∷◌, ◌++◌, ok, ltb, ◌==◌, length, length-append, length-drop, take, drop, arith, inl, inr, ltb→lt,
}
use side_wire_kernel_su.Io.{write_all, write_rest, write_parts}

-- At least `need` further polls are answered, each with one byte or more.
abbrev pub IsEager : List (Option ℕ) → ℕ → Type 0
IsEager accepts zero = Unit
IsEager [] (suc need) = ⊥
IsEager (none ∷ more) (suc need) = ⊥
IsEager (some n ∷ more) (suc need) = (1 ≤ n) × IsEager more need

IsEager-less :
    (accepts : List (Option ℕ)) (need less : ℕ)
    → less ≤ need
    → IsEager accepts need
    → IsEager accepts less
IsEager-less accepts need zero h e = tt
IsEager-less accepts zero (suc less) h e = absurd (omega arith)
IsEager-less [] (suc need) (suc less) h e = absurd e
IsEager-less (none ∷ more) (suc need) (suc less) h e = absurd e
IsEager-less (some n ∷ more) (suc need) (suc less) h e =
    (e.0, IsEager-less more need less (omega arith) e.1)

IsEager-next :
    (n : ℕ) (more : List (Option ℕ)) (need : ℕ)
    → IsEager (some n ∷ more) need
    → 0 < need
    → (1 ≤ n) × IsEager more (need - 1)
IsEager-next n more zero h pos = absurd (omega arith)
IsEager-next n more (suc need) h pos = (h.0, IsEager-less more need _ (omega arith) h.1)

none_taken : (n m : ℕ) → (min n m == 0) ≡ true → 1 ≤ n → 1 ≤ m → ⊥
none_taken n m z hn hm = ground arith

pub write_all-ok :
    (bs out : List ℕ) (accepts : List (Option ℕ))
    → IsEager accepts (length bs)
    → (write_all bs out accepts).0 ≡ ok tt
unfolding write_all
write_all-ok [] out accepts h = refl
write_all-ok (b ∷ bs) out [] h = absurd h
write_all-ok (b ∷ bs) out (none ∷ more) h = absurd h
write_all-ok (b ∷ bs) out (some n ∷ more) (pos, h) =
    let k : ℕ = min n (length (b ∷ bs)) in
    elim (Bool-cases (k == 0)) [
      | inl z ↦ absurd (ground arith)
      | inr p ↦ rw p (
          write_all-ok (drop k (b ∷ bs)) (out ++ take k (b ∷ bs)) more
            (IsEager-less more (length bs) _ (omega (arith, length-drop k (b ∷ bs))) h))
    ]

write_rest-ok :
    (payload : List ℕ) (po : ℕ) (out : List ℕ) (accepts : List (Option ℕ))
    → IsEager accepts (length payload - po)
    → (write_rest payload po out accepts).0 ≡ ok tt
unfolding write_rest
write_rest-ok payload po out accepts h = elim (Bool-cases (ltb po (length payload))) [
  | inl more ↦ rw more (
      write_all-ok (drop po payload) out accepts
        (IsEager-less accepts _ _ (omega (arith, length-drop po payload)) h))
  | inr done ↦ rw done
]

pub write_parts-ok :
    (header payload : List ℕ) (ho po : ℕ) (out : List ℕ) (accepts : List (Option ℕ))
    → IsEager accepts ((length header - ho) + (length payload - po))
    → (write_parts header payload ho po out accepts).0 ≡ ok tt
unfolding write_parts
write_parts-ok header payload ho po out [] h = elim (Bool-cases (ltb ho (length header))) [
  | inl e ↦ absurd (IsEager-less [] _ 1 (omega (arith, ltb→lt _ _ e)) h)
  | inr e ↦ rw e (write_rest-ok payload po out [] (IsEager-less [] _ _ (omega arith) h))
]
write_parts-ok header payload ho po out (none ∷ more) h =
    elim (Bool-cases (ltb ho (length header))) [
      | inl e ↦ absurd (IsEager-less (none ∷ more) _ 1 (omega (arith, ltb→lt _ _ e)) h)
      | inr e ↦ rw e (
          write_rest-ok payload po out (none ∷ more)
            (IsEager-less (none ∷ more) _ _ (omega arith) h))
    ]
write_parts-ok header payload ho po out (some n ∷ more) h =
    let parts = drop ho header ++ drop po payload in
    let k : ℕ = min n (length parts) in
    elim (Bool-cases (ltb ho (length header))) [
      | inr e ↦ rw e (
          write_rest-ok payload po out (some n ∷ more)
            (IsEager-less (some n ∷ more) _ _ (omega arith) h))
      | inl e ↦
          let room : ho < length header = ltb→lt _ _ e in
          let (pos, eager) = IsEager-next n more _ h (omega arith) in
          let len : length parts ≡ (length header - ho) + (length payload - po) = omega (
            arith,
            length-append (drop ho header) (drop po payload),
            length-drop ho header,
            length-drop po payload,
          ) in
          elim (Bool-cases (k == 0)) [
            | inl z ↦ absurd (none_taken n (length parts) z pos (omega arith))
            | inr p ↦ elim (Bool-cases (ltb k (length header - ho))) [
              | inl i ↦
                  rw (e, p, i)
                    (write_parts-ok header payload (ho + k) po (out ++ take k parts) more
                      (IsEager-less more _ _ (ground (arith, none_taken n (length parts))) eager))
              | inr i ↦
                  rw (e, p, i)
                    (write_parts-ok header payload (length header) (po + (k - (length header - ho)))
                      (out ++ take k parts) more
                      (IsEager-less more _ _ (ground (arith, none_taken n (length parts))) eager))
            ]
          ]
    ]
