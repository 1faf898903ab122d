-- ===== src/Device/Completion/Prefix.antt =====
-- `common_completion_prefix` and common prefixes (apps/sidewired/src/completion.rs).
use side_wire_kernel_su.Base.{
  ℕ, zero, suc, ◌≤◌, ◌≡◌, refl, sym, ap, ◌∙◌, subst, true, false, Bool-cases, List, [], ◌∷◌, ◌==◌,
  if◌then◌else◌, length, All, arith, inl, inr, branch_intro,
}
use side_wire_kernel_su.Device.Completion.{
  starts_with, pop, shrink_loop, shrink_common_prefix, is_empty, shrink_all,
  common_completion_prefix,
}

-- The longest common prefix of two texts.
abbrev pub common : List ℕ → List ℕ → List ℕ
common [] v = []
common (p ∷ ps) [] = []
common (p ∷ ps) (c ∷ cs) = let rest = common ps cs in if c == p then p ∷ rest else []

common-starts_with : (p v : List ℕ) → starts_with v p ≡ true → common p v ≡ p
common-starts_with [] v h = refl
common-starts_with (p ∷ ps) [] h = cc
common-starts_with (p ∷ ps) (c ∷ cs) h = ground (arith, common-starts_with ps cs)

common-pop : (p v : List ℕ) → starts_with v p ≡ false → common (pop p) v ≡ common p v
common-pop [] v h = refl
common-pop (p ∷ []) [] h = refl
common-pop (p ∷ []) (c ∷ cs) h = ground arith
common-pop (p ∷ q ∷ ps) [] h = refl
common-pop (p ∷ q ∷ ps) (c ∷ cs) h = ground (arith, common-pop (q ∷ ps) cs)

length-pop : (c : ℕ) (cs : List ℕ) → length (pop (c ∷ cs)) ≡ length cs
length-pop c [] = refl
length-pop c (d ∷ ds) = ap suc (length-pop d ds)

length-pop_le : (p : List ℕ) (fuel : ℕ) → length p ≤ suc fuel → length (pop p) ≤ fuel
length-pop_le [] fuel h = omega arith
length-pop_le (c ∷ cs) fuel h = omega (arith, length-pop c cs)

shrink_loop-eq : (fuel : ℕ) (p v : List ℕ) → length p ≤ fuel → shrink_loop fuel p v ≡ common p v
unfolding shrink_loop
shrink_loop-eq zero [] v h = refl
shrink_loop-eq zero (p ∷ ps) v h = absurd (omega arith)
shrink_loop-eq (suc fuel) p v h = elim (Bool-cases (starts_with v p)) [
  | inl whole ↦ rw whole (sym (common-starts_with p v whole))
  | inr shorter ↦
      rw shorter (shrink_loop-eq fuel (pop p) v (length-pop_le p fuel h) ∙ common-pop p v shorter)
]

shrink_common_prefix-eq : (p v : List ℕ) → shrink_common_prefix p v ≡ common p v
unfolding shrink_common_prefix
shrink_common_prefix-eq p v = shrink_loop-eq (length p) p v (omega arith)

starts_with-common : (p v : List ℕ) → starts_with v (common p v) ≡ true
starts_with-common [] v = refl
starts_with-common (p ∷ ps) [] = refl
starts_with-common (p ∷ ps) (c ∷ cs) = ground (arith, starts_with-common ps cs)

common-prefix_of_first : (p v : List ℕ) → starts_with p (common p v) ≡ true
common-prefix_of_first [] v = refl
common-prefix_of_first (p ∷ ps) [] = refl
common-prefix_of_first (p ∷ ps) (c ∷ cs) = ground (arith, common-prefix_of_first ps cs)

common-greatest :
    (p v q : List ℕ)
    → starts_with p q ≡ true
    → starts_with v q ≡ true
    → starts_with (common p v) q ≡ true
common-greatest p v [] h k = refl
common-greatest [] v (q ∷ qs) h k = cc
common-greatest (p ∷ ps) [] (q ∷ qs) h k = cc
common-greatest (p ∷ ps) (c ∷ cs) (q ∷ qs) h k = ground (arith, common-greatest ps cs qs)

starts_with_trans :
    (a b c : List ℕ) → starts_with a b ≡ true → starts_with b c ≡ true → starts_with a c ≡ true
starts_with_trans a b [] h k = refl
starts_with_trans a [] (c ∷ cs) h k = cc
starts_with_trans [] (b ∷ bs) (c ∷ cs) h k = cc
starts_with_trans (a ∷ rest) (b ∷ bs) (c ∷ cs) h k = ground (arith, starts_with_trans rest bs cs)

starts_with_self : (p : List ℕ) → starts_with p p ≡ true
starts_with_self [] = refl
starts_with_self (c ∷ cs) = ground (arith, starts_with_self cs)

-- The text is a prefix of the first and of all the others.
abbrev Shared : List ℕ → List (List ℕ) → List ℕ → Type 0
Shared first values r =
    (starts_with first r ≡ true) × All (λ value. starts_with value r ≡ true) values

empty-Shared :
    (values : List (List ℕ)) (r : List ℕ)
    → is_empty r ≡ true
    → All (λ v. starts_with v r ≡ true) values
empty-Shared [] r h = tt
empty-Shared (v ∷ values) [] h = (refl, empty-Shared values [] h)
empty-Shared (v ∷ values) (c ∷ cs) h = cc

shrink_all-Shared : (p : List ℕ) (values : List (List ℕ)) → Shared p values (shrink_all p values)
unfolding shrink_all
shrink_all-Shared p [] = (starts_with_self p, tt)
shrink_all-Shared p (value ∷ values) =
    let p' : List ℕ = shrink_common_prefix p value in
    let e : common p value ≡ p' = sym (shrink_common_prefix-eq p value) in
    let of_first : starts_with p p' ≡ true =
      subst (λ r. starts_with p r ≡ true) e (common-prefix_of_first p value) in
    let of_value : starts_with value p' ≡ true =
      subst (λ r. starts_with value r ≡ true) e (starts_with-common p value) in
    let (inner, others) = shrink_all-Shared p' values in
    branch_intro (Shared p (value ∷ values)) (is_empty p')
      (λ nothing. (of_first, (of_value, empty-Shared values p' nothing)))
      (λ _. (
        starts_with_trans p p' (shrink_all p' values) of_first inner,
        (starts_with_trans value p' (shrink_all p' values) of_value inner, others),
      ))

shrink_all-longest :
    (p : List ℕ) (values : List (List ℕ)) (q : List ℕ)
    → starts_with p q ≡ true
    → All (λ value. starts_with value q ≡ true) values
    → starts_with (shrink_all p values) q ≡ true
unfolding shrink_all
shrink_all-longest p [] q h k = h
shrink_all-longest p (value ∷ values) q h (k, ks) =
    let p' : List ℕ = shrink_common_prefix p value in
    let smaller : starts_with p' q ≡ true =
      subst (λ r. starts_with r q ≡ true) (sym (shrink_common_prefix-eq p value))
        (common-greatest p value q h k) in
    branch_intro (λ r. starts_with r q ≡ true) (is_empty p') (λ _. smaller)
      (λ _. shrink_all-longest p' values q smaller ks)

-- The common prefix of the candidates is a prefix of each of them.
pub starts_with-common_completion_prefix :
    (values : List (List ℕ))
    → All (λ value. starts_with value (common_completion_prefix values) ≡ true) values
unfolding common_completion_prefix
starts_with-common_completion_prefix [] = tt
starts_with-common_completion_prefix (first ∷ values) = shrink_all-Shared first values

-- No prefix of all the candidates, of which there are some, is longer: each is a prefix of the
-- common prefix.
pub common_completion_prefix-longest :
    (first : List ℕ) (values : List (List ℕ)) (q : List ℕ)
    → All (λ value. starts_with value q ≡ true) (first ∷ values)
    → starts_with (common_completion_prefix (first ∷ values)) q ≡ true
unfolding common_completion_prefix
common_completion_prefix-longest first values q (h, k) = shrink_all-longest first values q h k
