-- ===== src/Io/Delivery.antt =====
-- What the peer has of a sequence of partial writes.
use side_wire_kernel_su.Base.{
  ℕ, ◌+◌, ◌-◌, ◌≤◌, ◌<◌, min, ◌≡◌, refl, sym, ap, ◌∙◌, true, false, Bool-cases, Option, none, some,
  List, [], ◌∷◌, ◌++◌, append_assoc, append-nil, ok, err, ltb, ◌==◌, length, length-append,
  length-drop, take, drop, ltb→lt, ltb→le, take-append-drop, drop-drop, drop-append, drop_all,
  arith, inl, inr,
}
use side_wire_kernel_su.Io.{Written, write_all, write_rest, write_parts}

-- With success everything of `rest` was sent behind `out`, with an error a proper prefix of it.
abbrev pub Delivers : List ℕ → List ℕ → Written → Type 0
Delivers out rest (ok _, w) = w.sent ≡ out ++ rest
Delivers out rest (err _, w) =
    (front back : List ℕ) × (rest ≡ front ++ back) × (w.sent ≡ out ++ front) × (0 < length back)

pub Delivers-step :
    (k : ℕ) (out rest : List ℕ) (r : Written)
    → Delivers (out ++ take k rest) (drop k rest) r
    → Delivers out rest r
Delivers-step k out rest (ok _, w) h =
    h ∙ append_assoc out (take k rest) (drop k rest) ∙ ap (λ t. out ++ t) (take-append-drop k rest)
Delivers-step k out rest (err _, w) (front, back, e, s, short) = (
  take k rest ++ front,
  back,
  sym (take-append-drop k rest)
      ∙ ap (λ t. take k rest ++ t) e
      ∙ sym (append_assoc (take k rest) front back),
  s ∙ append_assoc out (take k rest) front,
  short,
)

nothing_sent :
    (out rest : List ℕ)
    → 0 < length rest
    → (front back : List ℕ) × (rest ≡ front ++ back) × (out ≡ out ++ front) × (0 < length back)
nothing_sent out rest h = ([], rest, refl, sym (append-nil out), h)

pub write_all-Delivers :
    (bs out : List ℕ) (accepts : List (Option ℕ)) → Delivers out bs (write_all bs out accepts)
unfolding write_all
write_all-Delivers [] out accepts = sym (append-nil out)
write_all-Delivers (b ∷ bs) out [] = nothing_sent out (b ∷ bs) (omega arith)
write_all-Delivers (b ∷ bs) out (none ∷ more) = nothing_sent out (b ∷ bs) (omega arith)
write_all-Delivers (b ∷ bs) out (some n ∷ more) =
    let k : ℕ = min n (length (b ∷ bs)) in
    elim (Bool-cases (k == 0)) [
      | inl z ↦ rw z (nothing_sent out (b ∷ bs) (omega arith))
      | inr p ↦ rw p (
          Delivers-step k out (b ∷ bs) _
            (write_all-Delivers (drop k (b ∷ bs)) (out ++ take k (b ∷ bs)) more))
    ]

write_rest-Delivers :
    (payload : List ℕ) (po : ℕ) (out : List ℕ) (accepts : List (Option ℕ))
    → Delivers out (drop po payload) (write_rest payload po out accepts)
unfolding write_rest
write_rest-Delivers payload po out accepts = elim (Bool-cases (ltb po (length payload))) [
  | inl more ↦ rw more (write_all-Delivers (drop po payload) out accepts)
  | inr done ↦ rw done (rw (drop_all po payload (ltb→le po _ done)) (sym (append-nil out)))
]

-- What is left behind a write that ends inside the header, and behind one that passes it.
left_in :
    (header payload : List ℕ) (ho po k : ℕ)
    → k < length header - ho
    → drop k (drop ho header ++ drop po payload) ≡ drop (ho + k) header ++ drop po payload
left_in header payload ho po k h =
    let zero_left : k - length (drop ho header) ≡ 0 = omega (arith, length-drop ho header) in
    rw (drop-append k (drop ho header) (drop po payload), drop-drop k ho header, zero_left)

left_past :
    (header payload : List ℕ) (ho po k : ℕ)
    → length header - ho ≤ k
    → drop k (drop ho header ++ drop po payload)
      ≡ drop (length header) header ++ drop (po + (k - (length header - ho))) payload
left_past header payload ho po k h = rw (
  drop-append k (drop ho header) (drop po payload),
  drop_all k (drop ho header) (omega (arith, length-drop ho header)),
  drop_all (length header) header (omega arith),
  length-drop ho header,
  drop-drop,
)

header_left :
    (header payload : List ℕ) (ho po : ℕ)
    → ltb ho (length header) ≡ true
    → 0 < length (drop ho header ++ drop po payload)
header_left header payload ho po e = omega (
  arith,
  ltb→lt ho (length header) e,
  length-append (drop ho header) (drop po payload),
  length-drop ho header,
)

write_parts_done :
    (header payload out : List ℕ) (ho po : ℕ) (accepts : List (Option ℕ))
    → ltb ho (length header) ≡ false
    → Delivers out (drop ho header ++ drop po payload) (write_rest payload po out accepts)
write_parts_done header payload out ho po accepts e =
    rw (drop_all ho header (ltb→le ho _ e)) (write_rest-Delivers payload po out accepts)

-- The loop from any state.
pub write_parts-Delivers :
    (header payload : List ℕ) (ho po : ℕ) (out : List ℕ) (accepts : List (Option ℕ))
    → Delivers out
        (drop ho header ++ drop po payload)
        (write_parts header payload ho po out accepts)
unfolding write_parts
write_parts-Delivers header payload ho po out [] = elim (Bool-cases (ltb ho (length header))) [
  | inl e ↦ rw e (nothing_sent out _ (header_left header payload ho po e))
  | inr e ↦ rw e (write_parts_done header payload out ho po [] e)
]
write_parts-Delivers header payload ho po out (none ∷ more) =
    elim (Bool-cases (ltb ho (length header))) [
      | inl e ↦ rw e (nothing_sent out _ (header_left header payload ho po e))
      | inr e ↦ rw e (write_parts_done header payload out ho po (none ∷ more) e)
    ]
write_parts-Delivers header payload ho po out (some n ∷ more) =
    let parts = drop ho header ++ drop po payload in
    let k : ℕ = min n (length parts) in
    elim (Bool-cases (ltb ho (length header))) [
      | inr e ↦ rw e (write_parts_done header payload out ho po (some n ∷ more) e)
      | inl e ↦ elim (Bool-cases (k == 0)) [
        | inl z ↦ rw (e, z) (nothing_sent out parts (header_left header payload ho po e))
        | inr p ↦ elim (Bool-cases (ltb k (length header - ho))) [
          | inl i ↦
              rw (e, p, i)
                (Delivers-step k out parts _ (
                  rw (left_in header payload ho po k (ltb→lt _ _ i))
                    (write_parts-Delivers header payload (ho + k) po (out ++ take k parts) more)))
          | inr i ↦
              rw (e, p, i)
                (Delivers-step k out parts _ (
                  rw (left_past header payload ho po k (ltb→le _ _ i)) (
                    write_parts-Delivers header payload (length header)
                      (po + (k - (length header - ho))) (out ++ take k parts) more)))
        ]
      ]
    ]
